-- ===== src/Cgroups/Observer/Depth.antt =====
-- The fuel of a walk: it is enough where the tree of groups that the walk may enter is no deeper.
use server_metrics.Base.{
  ℕ, zero, suc, ◌≡◌, refl, Bool, true, false, List, [], ◌∷◌, Option, none, some, Bytes, bytes_eq,
  map, all, ok, err, Result, Read, found, missing, failed, Bool-cases, inl, inr, arith,
}
use server_metrics.Error.{Error}
use server_metrics.Cgroups.Races.{RaceController}
use server_metrics.Cgroups.Group.{
  FileSystem, DirEntry, Group, group_path, map_read_error, is_root, child, child_groups, children,
  has_processes,
}
use server_metrics.Cgroups.Classifier.{Classification, Classifier, Verdict, classify_slice}
use server_metrics.Cgroups.Observer.{
  Collector, State, Seen, Walk, excluded, go_on, observe_all, when_observed, observe_listed,
  observe_children, by_processes, observe_traversed, observe_excluding, observe_group,
  observe_verdict, observe, root, begin, end, collect,
}

listed : Group → Result Error (List DirEntry) → List Group
listed g (ok files) = child_groups g files
listed g (err e) = []

below_excluding : FileSystem → Group → Option (List Bytes) → List Group
unfolding listed
below_excluding fs g none = listed g (fs.read_dir (group_path g))
below_excluding fs g (some names) = map (child g) names

below_verdict : FileSystem → Group → Verdict → List Group
unfolding below_excluding
below_verdict fs g (err e) = []
below_verdict fs g (ok o) = below_excluding fs g (excluded o)

-- The groups that a walk may go to from a group.
unfoldable pub below : Classifier → FileSystem → Group → List Group
unfolding below_verdict classify_slice
below c fs g = below_verdict fs g (classify_slice c g.name)

-- The tree of those groups has at most so many levels.
unfoldable pub fits : Classifier → FileSystem → ℕ → Group → Bool
unfolding below
fits c fs zero g = false
fits c fs (suc depth) g = all (fits c fs depth) (below c fs g)

abbrev Ends : {S : Type 0} → Option (Seen S) → Type 0
Ends {S} o = (seen : Seen S) × (o ≡ some seen)

module _ {S : Type 0} (fs : FileSystem) (cs : List (Collector S)) where
  go_on-Ends :
      (rest : Walk S) (o : Option (Seen S))
      → Ends o
      → ((s : State S) → Ends (rest s))
      → Ends (go_on rest o)
  unfolding go_on
  go_on-Ends rest none (seen, h) k = cc
  go_on-Ends rest (some (failed e, s)) h k = (_, refl)
  go_on-Ends rest (some (missing, s)) h k = k s
  go_on-Ends rest (some (found u, s)) h k = k s

  when_observed-Ends :
      (next : State S → Seen S) (o : Option (Seen S)) → Ends o → Ends (when_observed next o)
  unfolding when_observed
  when_observed-Ends next none (seen, h) = cc
  when_observed-Ends next (some (failed e, s)) h = (_, refl)
  when_observed-Ends next (some (missing, s)) h = (_, refl)
  when_observed-Ends next (some (found u, s)) h = (_, refl)

  module _ (walk : Group → Walk S) (fit : Group → Bool)
      (k : (g : Group) (s : State S) → fit g ≡ true → Ends (walk g s)) where
    observe_all-Ends :
        (gs : List Group) (s : State S) → all fit gs ≡ true → Ends (observe_all walk gs s)
    unfolding observe_all
    observe_all-Ends [] s h = (_, refl)
    observe_all-Ends (g ∷ gs) s h =
        go_on-Ends (observe_all walk gs) (walk g s) (k g s (ground arith))
          (λ s'. observe_all-Ends gs s' (ground arith))

    children-Ends :
        (next : State S → Seen S) (g : Group) (r : Result Error (List DirEntry)) (s : State S)
        → fs.read_dir (group_path g) ≡ r
        → all fit (listed g r) ≡ true
        → Ends (observe_children fs walk next g s)
    unfolding observe_children observe_listed children listed
    children-Ends next g (ok files) s e h =
        rw (e, observe_children, children)
          (when_observed-Ends next _ (observe_all-Ends (child_groups g files) _ h))
    children-Ends next g (err error) s e h =
        rw (e, observe_children, children) (mapped (map_read_error error))
      where
        mapped :
            (o : Option Error)
            → let (r, races') = elim o as (λ x. Read Error (List Group) × RaceController) [
              | none ↦ (missing, s.races)
              | some e' ↦ (failed e', s.races)
            ] in
              Ends (observe_listed walk next r (record s { races = races' }))
        mapped none = (_, refl)
        mapped (some e') = (_, refl)

    processes-Ends :
        (g : Group) (o : Option Classification) (r : Read Error Bool) (s : State S)
        → all fit (listed g (fs.read_dir (group_path g))) ≡ true
        → Ends (by_processes fs cs walk g o r s)
    unfolding by_processes
    processes-Ends g o (failed e) s h = (_, refl)
    processes-Ends g o missing s h = (_, refl)
    processes-Ends g o (found true) s h = (_, refl)
    processes-Ends g o (found false) s h = children-Ends _ g (fs.read_dir (group_path g)) s refl h

    excluding-Ends :
        (g : Group) (o : Option Classification) (names : Option (List Bytes)) (s : State S)
        → all fit (below_excluding fs g names) ≡ true
        → Ends (observe_excluding fs cs walk g o names s)
    unfolding observe_excluding observe_traversed below_excluding
    excluding-Ends g o (some names) s h =
        when_observed-Ends _ _ (observe_all-Ends (map (child g) names) s h)
    excluding-Ends g o none s h = elim (Bool-cases (is_root g)) [
      | inl at_root ↦ rw at_root (children-Ends _ g (fs.read_dir (group_path g)) s refl h)
      | inr not_root ↦ rw not_root (processes-Ends g o (has_processes fs g s.races).0 _ h)
    ]

    verdict-Ends :
        (g : Group) (v : Verdict) (s : State S)
        → all fit (below_verdict fs g v) ≡ true
        → Ends (observe_verdict fs cs walk g v s)
    unfolding observe_verdict observe_group below_verdict
    verdict-Ends g (err e) s h = (_, refl)
    verdict-Ends g (ok o) s h = excluding-Ends g o (excluded o) s h

  observe-Ends :
      (c : Classifier) (fuel : ℕ) (g : Group) (s : State S)
      → fits c fs fuel g ≡ true
      → Ends (observe c fs cs fuel g s)
  unfolding observe fits below
  observe-Ends c zero g s h = cc
  observe-Ends c (suc fuel) g s h =
      verdict-Ends (observe c fs cs fuel) (fits c fs fuel) (observe-Ends c fuel) g
        (classify_slice c g.name) s h

-- A collection comes to its end, whatever the collectors do, where the fuel is no less than the number
-- of levels of the tree of groups that it may enter from the root group.
pub collect-ends :
    {S : Type 0} (c : Classifier) (fs : FileSystem) (cs : List (Collector S)) (fuel : ℕ) (s : S)
    (races : RaceController)
    → fits c fs fuel root ≡ true
    → (result : Option Error × (S × RaceController)) × (collect c fs cs fuel s races ≡ some result)
unfolding collect
collect-ends c fs cs fuel s races h =
    let (seen, e) = observe-Ends fs cs c fuel root (begin cs s races) h in
    (end cs seen, rw (e, collect) refl)
