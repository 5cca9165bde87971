-- ===== src/Cgroups/Cpu/Counter.antt =====
-- The net CPU time of a group is a counter: it grows by what the group used and its children did not.
use server_metrics.Base.{
  ℕ, ◌+◌, ◌-◌, ◌∙◌, ap, ◌≤◌, ◌≡◌, All, Bool, true, false, List, [], ◌∷◌, none, some, Bytes,
  bytes_eq, arith, leb, ◌&&◌, if◌then◌else◌, pos, Fits, sub_int64-pos, same_iff, not, ◌||◌, ok, err,
  found, failed, codes,
}
use Prim.Native.Nat.add
use mathlib.Core.Path.{subst₂}
use native.Mathlib.Nat.{add_assoc}
use server_metrics.Error.{negative_usage}
use server_metrics.Map.{lookup, insert, lookup-insert}
use server_metrics.Cgroups.Usage.{RootUsage, calculate_root_group_usage, zero_usage}
use server_metrics.Cgroups.Usage.Net.{add_net-pos}
use server_metrics.Cgroups.Cpu.{
  Usage, cpu_usage, RootState, Roots, collected_state, advance, update_root,
}

-- What one collection reads of a group and its children, in microseconds.
pub record Sample : Type 0 where
  pub user : ℕ
  pub system : ℕ
  pub children_user : ℕ
  pub children_system : ℕ

abbrev pub usage : ℕ → ℕ → Usage
usage user system = record { user = pos user; system = pos system }

abbrev pub read_usage : Sample → RootUsage Usage
read_usage s = record {
  root = usage s.user s.system;
  children = usage s.children_user s.children_system;
}

-- The values of an int64.
abbrev pub SampleFits : Sample → Type 0
SampleFits s = Fits s.user × Fits s.system × Fits s.children_user × Fits s.children_system

-- No counter fell between the two samples.
abbrev pub has_risen : Sample → Sample → Bool
has_risen a b =
    leb a.user b.user
    && leb a.system b.system
    && leb a.children_user b.children_user
    && leb a.children_system b.children_system

-- What the group used between two samples beyond its children.
abbrev pub net_user : Sample → Sample → ℕ
net_user a b = (b.user - a.user) - (b.children_user - a.children_user)

abbrev pub net_system : Sample → Sample → ℕ
net_system a b = (b.system - a.system) - (b.children_system - a.children_system)

calculate-risen :
    (a b : Sample) (user system : ℕ)
    → SampleFits a
    → SampleFits b
    → user ≤ a.user
    → system ≤ a.system
    → has_risen a b ≡ true
    → calculate_root_group_usage (usage user system) (read_usage b) (read_usage a)
      ≡ ok (usage (user + net_user a b) (system + net_system a b))
unfolding calculate_root_group_usage
calculate-risen a b user system fa fb hu hs r = ground (
  arith,
  sub_int64-pos b.user a.user,
  sub_int64-pos b.system a.system,
  sub_int64-pos b.children_user a.children_user,
  sub_int64-pos b.children_system a.children_system,
  add_net-pos user (b.user - a.user) (b.children_user - a.children_user),
  add_net-pos system (b.system - a.system) (b.children_system - a.children_system),
)

-- The first counter that fell, in the order in which they are compared.
abbrev pub fallen : Sample → Sample → Bytes
fallen a b =
    if leb a.user b.user && (not (leb a.system b.system) || leb a.children_user b.children_user)
    then codes "system CPU usage"
    else codes "user CPU usage"

calculate-fallen :
    (a b : Sample) (user system : ℕ)
    → SampleFits a
    → SampleFits b
    → has_risen a b ≡ false
    → calculate_root_group_usage (usage user system) (read_usage b) (read_usage a)
      ≡ err (negative_usage (fallen a b))
unfolding calculate_root_group_usage
calculate-fallen a b user system fa fb r = ground (
  arith,
  sub_int64-pos b.user a.user,
  sub_int64-pos b.system a.system,
  sub_int64-pos b.children_user a.children_user,
  sub_int64-pos b.children_system a.children_system,
)

-- The state that the collector holds for a group: the sample of its last collection, and net CPU
-- times that are at most those of the group.
abbrev pub Holds : Roots → Bytes → Sample → ℕ → ℕ → Type 0
Holds roots name s user system =
    (collected : Bool) × (lookup name roots
      ≡ some (record {
        last_usage = read_usage s;
        net_usage = usage user system;
        collected = collected;
      }))
    × SampleFits s
    × (user ≤ s.user)
    × (system ≤ s.system)

update_root-held :
    (roots : Roots) (name : Bytes) (current : RootUsage Usage) {state : RootState}
    → lookup name roots ≡ some state
    → update_root roots name current
      ≡ advance roots name current
          (calculate_root_group_usage state.net_usage current state.last_usage)
unfolding update_root
update_root-held roots name current held = rw (held, update_root)

lookup-insert_self :
    (roots : Roots) (name : Bytes) (state : RootState)
    → lookup name (insert name state roots) ≡ some state
lookup-insert_self roots name state =
    ground (arith, lookup-insert name name state roots, same_iff name name)

-- A collection in which no counter fell adds to the net times, and one in which a counter fell is an
-- error and changes nothing, for any state that the collector may hold.
pub update_root-Holds :
    (roots : Roots) (name : Bytes) (a b : Sample) (user system : ℕ)
    → Holds roots name a user system
    → SampleFits b
    → let (r, roots') = update_root roots name (read_usage b) in
      (has_risen a b ≡ true
        → (r ≡ found (usage (user + net_user a b) (system + net_system a b)))
          × Holds roots' name b (user + net_user a b) (system + net_system a b))
      × (has_risen a b ≡ false → (r ≡ failed (negative_usage (fallen a b))) × (roots' ≡ roots))
unfolding advance
update_root-Holds roots name a b user system (k, held, fa, hu, hs) fb =
    let held_at = update_root-held roots name (read_usage b) held in
    (
      λ risen.
          let next =
            held_at
            ∙ ap (advance roots name (read_usage b))
                (calculate-risen a b user system fa fb hu hs risen) in
          (
            ap (λ p. p.0) next,
            (
              true,
              ap (λ p. lookup name p.1) next ∙ lookup-insert_self roots name _,
              fb,
              ground arith,
              ground arith,
            ),
          ),
      λ fell.
          let next =
            held_at
            ∙ ap (advance roots name (read_usage b))
                (calculate-fallen a b user system fa fb fell) in
          (ap (λ p. p.0) next, ap (λ p. p.1) next),
    )

update_root-new :
    (roots : Roots) (name : Bytes) (current : RootUsage Usage)
    → lookup name roots ≡ none
    → lookup name (update_root roots name current).1 ≡ some (collected_state current (usage 0 0))
unfolding update_root
update_root-new roots name current new =
    rw (new, update_root) (unfold zero_usage in lookup-insert_self roots name _)

-- The collections of one group, one after another, that read these samples.
unfoldable pub update_all : Roots → Bytes → List Sample → Roots
update_all roots name [] = roots
update_all roots name (s ∷ samples) =
    update_all (update_root roots name (read_usage s)).1 name samples

-- No counter falls from one sample to the next.
abbrev pub IsRising : Sample → List Sample → Type 0
IsRising a [] = Unit
IsRising a (b ∷ samples) = (has_risen a b ≡ true) × IsRising b samples

-- What the group used beyond its children, over the steps in which it used more than they.
abbrev pub total_user : Sample → List Sample → ℕ
total_user a [] = 0
total_user a (b ∷ samples) = net_user a b + total_user b samples

abbrev pub total_system : Sample → List Sample → ℕ
total_system a [] = 0
total_system a (b ∷ samples) = net_system a b + total_system b samples

abbrev pub last_sample : Sample → List Sample → Sample
last_sample a [] = a
last_sample a (b ∷ samples) = last_sample b samples

update_all-Holds :
    (roots : Roots) (name : Bytes) (a : Sample) (samples : List Sample) (user system : ℕ)
    → Holds roots name a user system
    → All SampleFits samples
    → IsRising a samples
    → Holds
        (update_all roots name samples)
        name
        (last_sample a samples)
        (user + total_user a samples)
        (system + total_system a samples)
unfolding update_all
update_all-Holds roots name a [] user system h _ _ = ground (arith, h)
update_all-Holds roots name a (b ∷ samples) user system h (fb, fits) (risen, rising) =
    let roots' = (update_root roots name (read_usage b)).1 in
    let (_, h') = (update_root-Holds roots name a b user system h fb).0 risen in
    subst₂ (λ u v. Holds (update_all roots' name samples) name (last_sample b samples) u v)
      (add_assoc user (net_user a b) (total_user b samples))
      (add_assoc system (net_system a b) (total_system b samples))
      (update_all-Holds roots' name b samples _ _ h' fits rising)

-- From the first collection of a group on, while no counter falls, the collector holds the last
-- sample, and net CPU times that are the sums, over the steps, of what the group used beyond its
-- children. They never pass what the group itself used, so they do not wrap around.
pub update_all-total :
    (roots : Roots) (name : Bytes) (a : Sample) (samples : List Sample)
    → lookup name roots ≡ none
    → All SampleFits (a ∷ samples)
    → IsRising a samples
    → Holds
        (update_all roots name (a ∷ samples))
        name
        (last_sample a samples)
        (total_user a samples)
        (total_system a samples)
unfolding update_all
update_all-total roots name a samples new (fa, fits) rising =
    let roots' = (update_root roots name (read_usage a)).1 in
    let first : Holds roots' name a 0 0 =
      (true, update_root-new roots name (read_usage a) new, fa, omega arith, omega arith) in
    subst₂ (λ u v. Holds (update_all roots' name samples) name (last_sample a samples) u v)
      (add.zero (total_user a samples)) (add.zero (total_system a samples))
      (update_all-Holds roots' name a samples 0 0 first fits rising)
