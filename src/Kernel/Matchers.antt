-- ===== src/Kernel/Matchers.antt =====
-- internal/kernel/matchers.go: the known errors. A matcher gets the messages from some place on, at
-- least one of them, and tells how many belong to its error and which types they count as.
pub mod Iommu
use server_metrics.Base.{
  ℕ, suc, Bool, true, false, not, ◌&&◌, ◌||◌, List, [], ◌∷◌, ◌++◌, Option, none, some, Bytes, codes,
  leb, ◌==◌, same, if◌then◌else◌,
}
use server_metrics.Text.{has_prefix, is_digit}
use server_metrics.Regexp.{
  Regex, many, seq, group, end_of_text, Captures, find_submatch, captured, literal,
}

-- `errorType`
pub data ErrorType : Type 0 where
  unknown unexpected_nmi : ErrorType

abbrev pub Match : Type 0
Match = ℕ × List ErrorType

-- The interface `errorMatcher`.
abbrev pub Matcher : Type 0
Matcher = List Bytes → Match

-- `len(messages) > count && messages[count] == expected`, of the messages from `count` on.
abbrev pub next_is : Bytes → List Bytes → Bool
next_is expected [] = false
next_is expected (m ∷ ms) = same m expected

-- `[a-f0-9:]`
abbrev pub is_device : ℕ → Bool
is_device c = leb b'a' c && leb c b'f' || is_digit c || c == b':'

abbrev pub iommu_regexp : Regex
iommu_regexp =
    seq (literal (codes "kfd kfd: amdgpu: Failed to resume IOMMU for device "))
      (seq (group 1 (many is_device)) end_of_text)

unfoldable pub match_iommu_device : Option (Bytes × Captures) → List Bytes → Match
match_iommu_device none ms = (0, [])
match_iommu_device (some (_, caps)) ms =
    let expected_next =
      codes "kfd kfd: amdgpu: device " ++ (captured 1 caps ++ codes " NOT added due to errors") in
    (if next_is expected_next ms then 2 else 1, [])

-- `amdIOMMUErrorMatcher.match`
unfoldable pub match_amd_iommu : Matcher
unfolding match_iommu_device
match_amd_iommu [] = (0, [])
match_amd_iommu (m ∷ ms) = match_iommu_device (find_submatch iommu_regexp m) ms

-- `^shpchp \d+:\d+:\d+\.\d+: `
abbrev pub hotplug_prefix : Regex
hotplug_prefix = seq (literal (codes "shpchp ")) (
    seq (many is_digit) (
      seq (literal (codes ":")) (
        seq (many is_digit) (
          seq (literal (codes ":")) (
            seq (many is_digit)
              (seq (literal (codes ".")) (seq (many is_digit) (literal (codes ": ")))))))))

unfoldable pub rest_is : Option (Bytes × Captures) → Bytes → Bool
rest_is none text = false
rest_is (some (rest, _)) text = same rest text

-- The message of a step of the loop: the failure first, then what it failed.
abbrev pub hotplug_message : Bool → Bytes
hotplug_message true = codes "pci_hp_register failed with error -16"
hotplug_message false = codes "Slot initialization failed"

-- The loop, whose two halves take turns, from the messages at `count` on.
unfoldable pub hotplug_count : Bool → List Bytes → ℕ
unfolding rest_is
hotplug_count failure [] = 0
hotplug_count failure (m ∷ ms) =
    let more = suc (hotplug_count (not failure) ms) in
    if rest_is (find_submatch hotplug_prefix m) (hotplug_message failure) then more else 0

-- `hotplugInitializationErrorMatcher.match`
unfoldable pub match_hotplug : Matcher
unfolding hotplug_count
match_hotplug messages = (hotplug_count true messages, [])

-- `missingHardwareWatchdogMatcher.match`
unfoldable pub match_watchdog : Matcher
match_watchdog [] = (0, [])
match_watchdog (m ∷ ms) =
    if same m (codes "sp5100-tco sp5100-tco: Watchdog hardware is disabled")
    then (1, [])
    else (0, [])

-- `^index \d+ is out of range for type '[^']+'$`
abbrev pub out_of_range_regexp : Regex
out_of_range_regexp = seq (literal (codes "index ")) (
    seq (many is_digit) (
      seq (literal (codes " is out of range for type '"))
        (seq (many (λ c. not (c == b'\''))) (seq (literal (codes "'")) end_of_text))))

unfoldable pub is_match : Option (Bytes × Captures) → Bool
is_match none = false
is_match (some _) = true

unfoldable pub next_is_out_of_range : List Bytes → Bool
unfolding is_match
next_is_out_of_range [] = false
next_is_out_of_range (m ∷ ms) = is_match (find_submatch out_of_range_regexp m)

-- `ubsanErrorMatcher.match`
unfoldable pub match_ubsan : Matcher
unfolding next_is_out_of_range
match_ubsan [] = (0, [])
match_ubsan (m ∷ ms) =
    if has_prefix m (codes "UBSAN: array-index-out-of-bounds in ")
    then (if next_is_out_of_range ms then 2 else 1, [])
    else (0, [])

-- `unexpectedNMIErrorMatcher.match`
unfoldable pub match_nmi : Matcher
match_nmi [] = (0, [])
match_nmi (m ∷ ms) =
    if has_prefix m (codes "Uhhuh. NMI received for unknown reason")
    then (
      if next_is (codes "Dazed and confused, but trying to continue") ms then 2 else 1,
      unexpected_nmi ∷ [],
    )
    else (0, [])
