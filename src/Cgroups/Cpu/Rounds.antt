-- ===== src/Cgroups/Cpu/Rounds.antt =====
-- The states of the groups over a round of collections: `Pre`, `Collect` for each group, `Post`.
pub mod Calls
pub mod Whole
use server_metrics.Base.{
  ◌≡◌, ◌∙◌, sym, ap, refl, Bool, true, false, ◌||◌, [], ◌∷◌, Option, none, some, Bytes, bytes_eq,
  codes, same, same_iff, if◌then◌else◌, arith, Bool-cases, inl, inr,
}
use server_metrics.Map.{lookup, contains, HasUniqueKeys, lookup_of_contains}
use server_metrics.Cgroups.Cpu.{RootState, Roots, pre, post}

-- The state of the root group stays, and any other if it is marked as collected.
abbrev pub kept : Bytes → Option RootState → Option RootState
kept name none = none
kept name (some state) = if state.collected || same name (codes "/") then some state else none

contains-post :
    (name : Bytes) (roots : Roots)
    → contains name roots ≡ false
    → contains name (post roots) ≡ false
unfolding contains post
contains-post name [] h = refl
contains-post name ((j, state) ∷ roots) h = ground (arith, contains-post name roots)

abbrev stays : Bytes → RootState → Bool
stays name state = state.collected || same name (codes "/")

lookup-entry :
    (c d : Bool) (name j : Bytes) (state : RootState) (rest : Roots)
    → lookup name (if c then (j, state) ∷ rest else if d then (j, state) ∷ rest else rest) ≡ (
        if c || d then (if same j name then some state else lookup name rest) else lookup name rest)
unfolding lookup
lookup-entry true d name j state rest = refl
lookup-entry false true name j state rest = refl
lookup-entry false false name j state rest = refl

same_tests : (b : Bool) (o : Option RootState) → (if b then o else o) ≡ o
same_tests true o = refl
same_tests false o = refl

-- `Post` drops a state exactly if it is not marked as collected and is not that of the root group, and
-- changes no state, where no group has two states.
pub lookup-post :
    (name : Bytes) (roots : Roots)
    → HasUniqueKeys roots
    → lookup name (post roots) ≡ kept name (lookup name roots)
unfolding lookup post
lookup-post name [] u = refl
lookup-post name ((j, state) ∷ roots) (new, u) =
    lookup-entry state.collected (same j (codes "/")) name j state (post roots)
    ∙ (elim (Bool-cases (same j name)) [
      | inl e ↦
          let p : j ≡ name = (same_iff j name).0 e in
          let gone : lookup name (post roots) ≡ none =
            lookup_of_contains name (post roots)
              (contains-post name roots (ap (λ x. contains x roots) (sym p) ∙ new)) in
          rw (e, gone) (ap (λ x. if stays x state then some state else none) p)
      | inr d ↦
          rw d (same_tests (stays j state) (lookup name (post roots)) ∙ lookup-post name roots u)
    ])

abbrev pub begun : Option RootState → Option RootState
begun none = none
begun (some state) = some (record state { collected = false })

-- `Pre` marks every state as not collected and changes nothing else.
pub lookup-pre :
    (name : Bytes) (roots : Roots) → lookup name (pre roots) ≡ begun (lookup name roots)
unfolding lookup pre
lookup-pre name [] = refl
lookup-pre name ((j, state) ∷ roots) = elim (Bool-cases (same j name)) [
  | inl e ↦ rw e refl
  | inr d ↦ rw d (lookup-pre name roots)
]
