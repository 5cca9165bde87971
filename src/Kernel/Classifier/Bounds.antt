-- ===== src/Kernel/Classifier/Bounds.antt =====
-- A matcher takes no more messages than there are.
use server_metrics.Base.{
  suc, ◌≤◌, ◌<◌, ◌≡◌, Bool, true, false, not, ◌||◌, List, [], ◌∷◌, Option, none, some, Bytes, arith,
  if◌then◌else◌, length, All,
}
use server_metrics.Regexp.{find_submatch, Captures}
use server_metrics.Kernel.Matchers.{
  Matcher, Match, match_amd_iommu, match_hotplug, match_watchdog, match_ubsan, match_nmi,
  hotplug_count, match_iommu_device, iommu_regexp, next_is_out_of_range,
}
use server_metrics.Kernel.Classifier.{new_classifier, first_match}

-- The messages that the matcher takes are there to be taken.
abbrev pub TakesWithin : Matcher → Type 0
TakesWithin m = (messages : List Bytes) → (m messages).0 ≤ length messages

match_iommu_device-bound :
    (o : Option (Bytes × Captures)) (ms : List Bytes)
    → (match_iommu_device o ms).0 ≤ suc (length ms)
unfolding match_iommu_device
match_iommu_device-bound none ms = omega arith
match_iommu_device-bound (some (_, caps)) [] = omega arith
match_iommu_device-bound (some (_, caps)) (m ∷ ms) = ground arith

match_amd_iommu-TakesWithin : TakesWithin match_amd_iommu
unfolding match_amd_iommu
match_amd_iommu-TakesWithin [] = omega arith
match_amd_iommu-TakesWithin (m ∷ ms) = match_iommu_device-bound (find_submatch iommu_regexp m) ms

match_watchdog-TakesWithin : TakesWithin match_watchdog
unfolding match_watchdog
match_watchdog-TakesWithin [] = omega arith
match_watchdog-TakesWithin (m ∷ ms) = ground arith

match_ubsan-TakesWithin : TakesWithin match_ubsan
unfolding match_ubsan next_is_out_of_range
match_ubsan-TakesWithin [] = omega arith
match_ubsan-TakesWithin (m ∷ []) = ground arith
match_ubsan-TakesWithin (m ∷ n ∷ ms) = ground arith

match_nmi-TakesWithin : TakesWithin match_nmi
unfolding match_nmi
match_nmi-TakesWithin [] = omega arith
match_nmi-TakesWithin (m ∷ []) = ground arith
match_nmi-TakesWithin (m ∷ n ∷ ms) = ground arith

hotplug_count-le : (failure : Bool) (ms : List Bytes) → hotplug_count failure ms ≤ length ms
unfolding hotplug_count
hotplug_count-le failure [] = omega arith
hotplug_count-le failure (m ∷ ms) = ground (arith, hotplug_count-le (not failure) ms)

match_hotplug-TakesWithin : TakesWithin match_hotplug
unfolding match_hotplug
match_hotplug-TakesWithin ms = hotplug_count-le true ms

-- No matcher of a new classifier takes messages that are not there.
pub new_classifier-TakesWithin :
    (enable_all hypervisor : Bool) → All TakesWithin (new_classifier enable_all hypervisor)
unfolding new_classifier
new_classifier-TakesWithin enable_all hypervisor = (
  match_amd_iommu-TakesWithin,
  (
    match_watchdog-TakesWithin,
    (
      match_ubsan-TakesWithin,
      (match_nmi-TakesWithin, optional_matchers (enable_all || hypervisor)),
    ),
  ),
)
  where
    optional_matchers : (b : Bool) → All TakesWithin (if b then match_hotplug ∷ [] else [])
    optional_matchers true = (match_hotplug-TakesWithin, tt)
    optional_matchers false = tt

-- A match takes at least one message, and none that is not there.
pub first_match-bounds :
    (matchers : List Matcher) (messages : List Bytes) {found : Match}
    → All TakesWithin matchers
    → first_match matchers messages ≡ some found
    → (0 < found.0) × (found.0 ≤ length messages)
unfolding first_match
first_match-bounds [] messages h e = cc
first_match-bounds (m ∷ ms) messages {found} (hm, h) e =
    ground (arith, hm messages, first_match-bounds ms messages {found = found} h)
