-- ===== src/Cgroups/Io/Nets.antt =====
-- The net usage of a group with children, device by device.
use server_metrics.Base.{
  ◌≡◌, ◌∙◌, sym, ap, subst, refl, true, false, [], ◌∷◌, Option, none, some, Bytes, bytes_eq, same,
  same_iff, Result, ok, err, Bool-cases, inl, inr,
}
use server_metrics.Error.{Error}
use server_metrics.Map.{
  Map, lookup, insert, contains, HasUniqueKeys, lookup-insert, lookup-insert_self,
  lookup_of_contains,
}
use server_metrics.Cgroups.Group.{Group, is_root}
use server_metrics.Cgroups.Usage.{RootUsage, calculate_root_group_usage}
use server_metrics.Cgroups.Io.Device.{DeviceUsage, device_usage, Usage}
use server_metrics.Cgroups.Io.Taken.{value}
use server_metrics.Cgroups.Io.{
  RootUsages, RootState, Roots, Gathered, root_of, net_of, after_device, update_nets, update_state,
  update_root, child_names,
}

-- The net usage that a device has next: the one that it has, if it has no usage now.
abbrev pub next_net :
    Bytes → RootUsages → Usage → Option (RootUsage DeviceUsage) → Option DeviceUsage
next_net device last net none = lookup device net
next_net device last net (some current) =
    value (calculate_root_group_usage (net_of device net) current (root_of device last))

after_device-ok :
    (rest : Usage → Option Error × Usage) (device : Bytes) (net : Usage)
    (r : Result Error DeviceUsage) {net' : Usage}
    → after_device rest device net r ≡ (none, net')
    → (u : DeviceUsage) × (r ≡ ok u) × (rest (insert device u net) ≡ (none, net'))
unfolding after_device
after_device-ok rest device net (err e) h = cc (ap (λ p. p.0) h)
after_device-ok rest device net (ok u) h = (u, refl, h)

next_net_other :
    (device d : Bytes) (u : DeviceUsage) (last : RootUsages) (net : Usage)
    (o : Option (RootUsage DeviceUsage))
    → same device d ≡ false
    → next_net d last (insert device u net) o ≡ next_net d last net o
next_net_other device d u last net none h = lookup-insert device d u net ∙ rw h refl
next_net_other device d u last net (some current) h = rw (lookup-insert device d u net) (rw h refl)

-- When no device has an error, then each device that has a usage now has the net usage that its own
-- three usages give, with zeros for those that it had not, and every other keeps the one that it had,
-- in whichever order the devices are visited.
pub lookup-update_nets :
    (last current : RootUsages) (net : Usage) (d : Bytes) {net' : Usage}
    → HasUniqueKeys current
    → update_nets last current net ≡ (none, net')
    → lookup d net' ≡ next_net d last net (lookup d current)
unfolding update_nets lookup
lookup-update_nets last [] net d u h = ap (λ p. lookup d p.1) (sym h)
lookup-update_nets last ((device, c) ∷ current) net d {net'} (new, u) h =
    let (v, now, rest) = after_device-ok (update_nets last current) device net _ h in
    let later = lookup-update_nets last current (insert device v net) d {net' = net'} u rest in
    elim (Bool-cases (same device d)) [
      | inr other ↦ rw other (later ∙ next_net_other device d v last net (lookup d current) other)
      | inl here ↦
          let e : device ≡ d = (same_iff device d).0 here in
          let none_left : lookup d current ≡ none =
            lookup_of_contains d current (subst (λ k. contains k current ≡ false) e new) in
          rw here (
            later
            ∙ ap (next_net d last (insert device v net)) none_left
            ∙ ap (λ k. lookup k (insert device v net)) (sym e)
            ∙ lookup-insert_self device v net
            ∙ sym (ap value now)
            ∙ ap (λ k. next_net k last net (some c)) e)
    ]

update_state-remembers :
    (roots : Roots) (name : Bytes) (names : Map Bytes (Unit {0})) (current : RootUsages)
    (o : Option RootState)
    → (state : RootState) × (lookup name (update_state roots name names current o).1 ≡ some state)
      × (state.last_usage ≡ current)
      × (state.last_children ≡ names)
      × (state.collected ≡ true)
unfolding update_state
update_state-remembers roots name names current none =
    (_, lookup-insert_self name _ roots, refl, refl, refl)
update_state-remembers roots name names current (some state) =
    (_, lookup-insert_self name _ roots, refl, refl, refl)

-- A collection of a group with children keeps its usages and its children, whatever its outcome.
pub update_root-remembers :
    (roots : Roots) (g : Group) (gathered : Gathered)
    → (state : RootState) × (lookup g.name (update_root roots g gathered).1 ≡ some state)
      × (state.last_usage ≡ gathered.current)
      × (state.last_children ≡ child_names (is_root g) gathered.children)
      × (state.collected ≡ true)
unfolding update_root
update_root-remembers roots g gathered =
    update_state-remembers roots g.name (child_names (is_root g) gathered.children) gathered.current
      (lookup g.name roots)
