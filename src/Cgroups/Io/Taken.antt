-- ===== src/Cgroups/Io/Taken.antt =====
-- Which devices the usage of a group has.
use server_metrics.Base.{
  ◌≡◌, ◌∙◌, sym, ap, subst, refl, Bool, true, false, [], ◌∷◌, Option, none, some, Bytes, bytes_eq,
  same, same_iff, if◌then◌else◌, Result, ok, err, bind-eq-ok, ok_cancel, Bool-cases, inl, inr,
}
use server_metrics.Map.{
  Map, lookup, insert, contains, HasUniqueKeys, lookup-insert, lookup_of_contains,
}
use server_metrics.Cgroups.Stat.Flat.{Stat}
use server_metrics.Cgroups.Io.Device.{
  DeviceUsage, Usage, usage_of, is_loop, take_device, take_devices,
}

abbrev pub value {ℓ κ} : {E : Type ℓ} {A : Type κ} → Result E A → Option A
value (ok a) = some a
value (err e) = none

-- The entry that a device gets: it keeps the one that it has, if it has no statistics, or is a loop
-- device.
abbrev pub taken : Bytes → Option Stat → Option DeviceUsage → Option DeviceUsage
taken device none before = before
taken device (some stat) before = if is_loop device then before else value (usage_of stat)

take_device-lookup :
    (usage : Usage) (device d : Bytes) (stat : Stat) {usage' : Usage}
    → take_device usage device stat ≡ ok usage'
    → lookup d usage'
      ≡ (if same device d then taken device (some stat) (lookup d usage) else lookup d usage)
unfolding take_device
take_device-lookup usage device d stat {usage'} h = elim (Bool-cases (is_loop device)) [
  | inl loop ↦
      let e : usage ≡ usage' = ok_cancel (rw loop at h) in
      rw (loop, sym e) (same_tests (same device d) (lookup d usage))
  | inr plain ↦
      let (u, read, e) =
        bind-eq-ok (usage_of stat) (λ u. ok (insert device u usage)) (rw plain at h) in
      let e' : insert device u usage ≡ usage' = ok_cancel e in
      rw (plain, read, sym e') (lookup-insert device d u usage)
]
  where
    same_tests : (b : Bool) (o : Option DeviceUsage) → o ≡ (if b then o else o)
    same_tests true o = refl
    same_tests false o = refl

-- When the statistics of all devices are read, then a loop device, and a device that has none, gets no
-- entry, and every other device gets the one of its own statistics, in whichever order they are read.
pub lookup-take_devices :
    (usage : Usage) (stats : Map Bytes Stat) (d : Bytes) {result : Usage}
    → HasUniqueKeys stats
    → take_devices usage stats ≡ ok result
    → lookup d result ≡ taken d (lookup d stats) (lookup d usage)
unfolding take_devices lookup
lookup-take_devices usage [] d u h = ap (lookup d) (sym (ok_cancel h))
lookup-take_devices usage ((device, stat) ∷ stats) d {result} (new, u) h =
    let (usage', first, rest) =
      bind-eq-ok (take_device usage device stat) (λ t. take_devices t stats) h in
    let later = lookup-take_devices usage' stats d {result = result} u rest in
    let now = take_device-lookup usage device d stat first in
    elim (Bool-cases (same device d)) [
      | inr other ↦ rw other (later ∙ ap (taken d (lookup d stats)) (rw other at now))
      | inl here ↦
          let e : device ≡ d = (same_iff device d).0 here in
          let none_left : lookup d stats ≡ none =
            lookup_of_contains d stats (subst (λ k. contains k stats ≡ false) e new) in
          rw here (
            later
            ∙ ap (λ o. taken d o (lookup d usage')) none_left
            ∙ (rw here at now)
            ∙ ap (λ k. taken k (some stat) (lookup d usage)) e)
    ]
