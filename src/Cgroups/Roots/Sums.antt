-- ===== src/Cgroups/Roots/Sums.antt =====
-- The loop over the children takes in the usage of each of them, once and in order.
use server_metrics.Base.{
  Option, none, some, ◌≡◌, refl, ◌≢◌, ap, true, false, Bool-cases, inl, inr, Bytes, List, [], ◌∷◌,
  Read, found, missing, failed,
}
use mathlib.Core.List.{foldl}
use server_metrics.Error.{Error}
use server_metrics.Cgroups.Races.{RaceController, check}
use server_metrics.Cgroups.Reads.{Reads, proceed, check_race, verdict}
use server_metrics.Cgroups.Group.{Group, is_root}
use server_metrics.Cgroups.Roots.{child_usage, child_is_gone, collect_child, collect_children}

module _ {ℓ} {U : Type ℓ} (collect : Group → Reads U) where
  -- Every group in the list was read, with these results; the race controller goes from one to the
  -- next.
  pub data ReadEach : List Group → List U → RaceController → RaceController → Type ℓ where
    none_left : {c d : RaceController} → c ≡ d → ReadEach [] [] c d
    next :
        {g : Group} {u : U} {gs : List Group} {us : List U} {c d e : RaceController}
        → collect g c ≡ (found u, d)
        → ReadEach gs us d e
        → ReadEach (g ∷ gs) (u ∷ us) c e

-- An action with a result is an action before it with a result.
pub bind-eq-found {ℓ κ} :
    {A : Type ℓ} {B : Type κ} (r : Read Error A) (c : RaceController) (f : A → Reads B) {b : B}
    {d : RaceController}
    → proceed r f c ≡ (found b, d)
    → (a : A) × (r ≡ found a) × (f a c ≡ (found b, d))
bind-eq-found (found a) c f h = (a, refl, h)
bind-eq-found missing c f h = cc
bind-eq-found (failed e) c f h = cc

-- The same for a whole action.
pub run-eq-found {ℓ κ} :
    {A : Type ℓ} {B : Type κ} (m : Reads A) (f : A → Reads B) (c : RaceController) {b : B}
    {d : RaceController}
    → proceed (m c).0 f (m c).1 ≡ (found b, d)
    → (a : A) × (e : RaceController) × (m c ≡ (found a, e)) × (f a e ≡ (found b, d))
run-eq-found m f c h =
    let (a, first, later) = bind-eq-found (m c).0 (m c).1 f h in
    (a, (m c).1, λ i. (first i, (m c).1), later)

verdict-ne-found {ℓ} : {A : Type ℓ} (o : Option Error) (a : A) → verdict o ≢ found a
unfolding verdict
verdict-ne-found none a h = cc
verdict-ne-found (some e) a h = cc

check_race-ne-found {ℓ} :
    {A : Type ℓ} (name : Bytes) (e : Error) (c d : RaceController) (a : A)
    → check_race name e c ≢ (found a, d)
unfolding check_race
check_race-ne-found name e c d a h = verdict-ne-found (check c name e).0 a (ap (λ p. p.0) h)

-- A child that is gone has no usage to take in.
child_usage-eq-found {ℓ} :
    {U : Type ℓ} (g x : Group) (r : Read Error U) (c : RaceController) {u : U} {d : RaceController}
    → child_usage g x r c ≡ (found u, d)
    → (r ≡ found u) × (c ≡ d)
unfolding child_usage
child_usage-eq-found g x (found u) c h = (ap (λ p. p.0) h, ap (λ p. p.1) h)
child_usage-eq-found g x missing c {u} {d} h = elim (Bool-cases (is_root g)) [
  | inl root ↦ absurd (gone_root root h)
  | inr other ↦ absurd (gone_other other h)
]
  where
    gone_root : is_root g ≡ true → child_is_gone g x c ≡ (found u, d) → ⊥
    gone_root e k = cc (rw (e, child_is_gone) at k)

    gone_other : is_root g ≡ false → child_is_gone g x c ≡ (found u, d) → ⊥
    gone_other e k = check_race-ne-found _ _ c d u (rw (e, child_is_gone) at k)
child_usage-eq-found g x (failed e) c h = cc (ap (λ p. p.0) h)

module _ {ℓ κ} {U : Type ℓ} {A : Type κ} (collect : Group → Reads U) (add : A → U → A)
    (g : Group) where
  collect_child-eq-found :
      (x : Group) (c : RaceController) {u : U}
      → (collect_child collect add g x c).0 ≡ found u
      → collect x c ≡ (found u, (collect_child collect add g x c).1)
  unfolding collect_child
  collect_child-eq-found x c h =
      let (r, d) =
        child_usage-eq-found g x (collect x c).0 (collect x c).1
          (λ i. (h i, (collect_child collect add g x c).1)) in
      λ i. (r i, d i)

  -- The result takes in the usage of every child, and each of them was read.
  pub collect_children-eq-found :
      (gs : List Group) (acc : A) (c : RaceController) {a : A} {d : RaceController}
      → collect_children collect add g gs acc c ≡ (found a, d)
      → (us : List U) × ReadEach collect gs us c d × (a ≡ foldl add acc us)
  unfolding collect_children
  collect_children-eq-found [] acc c h = ([], none_left (ap (λ p. p.1) h), cc (ap (λ p. p.0) h))
  collect_children-eq-found (x ∷ gs) acc c h =
      let (u, first, later) =
        bind-eq-found (collect_child collect add g x c).0 (collect_child collect add g x c).1
          (λ u. collect_children collect add g gs (add acc u)) h in
      let (us, each, total) = collect_children-eq-found gs (add acc u) _ later in
      (u ∷ us, next (collect_child-eq-found x c first) each, total)
