-- ===== src/Cgroups/Cpu/Rounds/Whole.antt =====
-- A whole round of collections: `Pre`, `Collect` for any groups in any order, `Post`.
use server_metrics.Base.{
  ◌≡◌, ◌∙◌, ap, sym, refl, inl, inr, Bool, true, false, ◌&&◌, ◌||◌, List, [], ◌∷◌, Option, none,
  some, Bytes, bytes_eq, codes, same, if◌then◌else◌, Bool-cases,
}
use server_metrics.Map.{lookup, contains, HasUniqueKeys}
use server_metrics.Cgroups.Cpu.{cpu_usage, RootState, Roots, pre, post}
use server_metrics.Cgroups.Cpu.Rounds.{kept, begun, lookup-post, lookup-pre}
use server_metrics.Cgroups.Cpu.Rounds.Calls.{
  Call, collect_each, was_collected, flagged, collect_each-Follows,
}

contains-pre : (name : Bytes) (roots : Roots) → contains name (pre roots) ≡ contains name roots
unfolding contains pre
contains-pre name [] = refl
contains-pre name ((j, s) ∷ roots) =
    ap (λ rest. if same j name then true else rest) (contains-pre name roots)

pre-HasUniqueKeys : (roots : Roots) → HasUniqueKeys roots → HasUniqueKeys (pre roots)
unfolding pre
pre-HasUniqueKeys [] u = tt
pre-HasUniqueKeys ((j, s) ∷ roots) (new, u) =
    (contains-pre j roots ∙ new, pre-HasUniqueKeys roots u)

flagged-begun : (o : Option RootState) → flagged (begun o) ≡ false
flagged-begun none = refl
flagged-begun (some s) = refl

if_same : (b : Bool) (o : Option RootState) → (if b then o else o) ≡ o
if_same true o = refl
if_same false o = refl

is_some : Option RootState → Bool
is_some none = false
is_some (some s) = true

contains-lookup : (name : Bytes) (roots : Roots) → contains name roots ≡ is_some (lookup name roots)
unfolding contains lookup is_some
contains-lookup name [] = refl
contains-lookup name ((j, s) ∷ roots) = elim (Bool-cases (same j name)) [
  | inl e ↦ rw e refl
  | inr d ↦ rw d (contains-lookup name roots)
]

is_some-if :
    (b : Bool) (o : Option RootState)
    → is_some (if b then o else none) ≡ (if b then is_some o else false)
unfolding is_some
is_some-if true o = refl
is_some-if false o = refl

kept-flagged :
    (name : Bytes) (o : Option RootState)
    → kept name o ≡ (if flagged o || same name (codes "/") then o else none)
kept-flagged name none = sym (if_same (same name (codes "/")) none)
kept-flagged name (some s) = refl

or_false : (b : Bool) → (b || false) ≡ b
or_false true = refl
or_false false = refl

or_and : (w d k : Bool) → (if w || d then w || k else false) ≡ (w || (d && k))
or_and true d k = refl
or_and false true k = refl
or_and false false k = refl

-- Over a round of collections, `Pre`, then `Collect` for any groups in any order, with whatever files
-- and races, then `Post`, where no group has two states at first: a group has a state in the end
-- exactly if one of the calls in the round collected it net of its children and gave a usage, or if it
-- is the root group and had a state before the round; and `Post` changes no state that stays.
pub round-post :
    (name : Bytes) (roots : Roots) (calls : List Call)
    → HasUniqueKeys roots
    → (contains name (post (collect_each (pre roots) calls))
        ≡ (was_collected name (pre roots) calls || (same name (codes "/") && contains name roots)))
      × (lookup name (post (collect_each (pre roots) calls)) ≡ (
          if was_collected name (pre roots) calls || same name (codes "/")
          then lookup name (collect_each (pre roots) calls)
          else none))
round-post name roots calls u =
    let last = collect_each (pre roots) calls in
    let w = was_collected name (pre roots) calls in
    let top = same name (codes "/") in
    let (f, k, unique) = collect_each-Follows name (pre roots) calls in
    let marked : flagged (lookup name last) ≡ w =
      f
      ∙ ap (λ b. w || b) (ap flagged (lookup-pre name roots) ∙ flagged-begun (lookup name roots))
      ∙ or_false w in
    let stays : lookup name (post last) ≡ (if w || top then lookup name last else none) =
      lookup-post name last (unique (pre-HasUniqueKeys roots u))
      ∙ kept-flagged name (lookup name last)
      ∙ ap (λ b. if b || top then lookup name last else none) marked in
    (
      contains-lookup name (post last)
          ∙ ap is_some stays
          ∙ is_some-if (w || top) (lookup name last)
          ∙ ap (λ b. if w || top then b else false)
              (sym (contains-lookup name last) ∙ k ∙ ap (λ b. w || b) (contains-pre name roots))
          ∙ or_and w top (contains name roots),
      stays,
    )
