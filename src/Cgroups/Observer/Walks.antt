-- ===== src/Cgroups/Observer/Walks.antt =====
-- What holds of the state at the start of a walk, and stays so.
use server_metrics.Base.{
  ℕ, zero, suc, Bool, true, false, List, [], ◌∷◌, Option, none, some, Bytes, bytes_eq, map, ok, err,
  Read, found, missing, failed, Bool-cases, inl, inr,
}
use server_metrics.Error.{Error}
use server_metrics.Cgroups.Races.{RaceController}
use server_metrics.Cgroups.Group.{FileSystem, Group, is_root, child, children, has_processes}
use server_metrics.Cgroups.Classifier.{Classification, Classifier, Verdict, classify_slice}
use server_metrics.Cgroups.Observer.{
  Collector, State, Seen, Walk, excluded, collect_group, go_on, observe_all, when_observed,
  observe_listed, observe_children, by_processes, observe_traversed, observe_excluding,
  observe_group, observe_verdict, observe,
}

-- A property that every state keeps that a walk leaves.
unfoldable pub Keeps : {S : Type 0} → (State S → Type 0) → Option (Seen S) → Type 0
Keeps P none = Unit
Keeps P (some (r, s)) = P s

module _ {S : Type 0} (P : State S → Type 0) (fs : FileSystem) (cs : List (Collector S))
    (moves : (s : State S) (races : RaceController) → P s → P (record s { races = races }))
    (collects : (g : Group) (o : Option Classification) (s : State S)
      → P s
      → P (collect_group cs g o s).1) where
  go_on-Keeps :
      (rest : Walk S) (o : Option (Seen S))
      → Keeps P o
      → ((s : State S) → P s → Keeps P (rest s))
      → Keeps P (go_on rest o)
  unfolding go_on Keeps
  go_on-Keeps rest none h k = h
  go_on-Keeps rest (some (failed e, s)) h k = h
  go_on-Keeps rest (some (missing, s)) h k = k s h
  go_on-Keeps rest (some (found u, s)) h k = k s h

  observe_all-Keeps :
      (walk : Group → Walk S)
      → ((g : Group) (s : State S) → P s → Keeps P (walk g s))
      → (gs : List Group) (s : State S) → P s
      → Keeps P (observe_all walk gs s)
  unfolding observe_all Keeps
  observe_all-Keeps walk k [] s h = h
  observe_all-Keeps walk k (g ∷ gs) s h =
      go_on-Keeps (observe_all walk gs) (walk g s) (k g s h) (observe_all-Keeps walk k gs)

  when_observed-Keeps :
      (next : State S → Seen S) (o : Option (Seen S))
      → Keeps P o
      → ((s : State S) → P s → P (next s).1)
      → Keeps P (when_observed next o)
  unfolding when_observed Keeps
  when_observed-Keeps next none h k = h
  when_observed-Keeps next (some (failed e, s)) h k = h
  when_observed-Keeps next (some (missing, s)) h k = h
  when_observed-Keeps next (some (found u, s)) h k = k s h

  listed-Keeps :
      (walk : Group → Walk S) (next : State S → Seen S)
      → ((g : Group) (s : State S) → P s → Keeps P (walk g s))
      → ((s : State S) → P s → P (next s).1)
      → (r : Read Error (List Group)) (s : State S) → P s
      → Keeps P (observe_listed walk next r s)
  unfolding observe_listed Keeps
  listed-Keeps walk next k n (failed e) s h = h
  listed-Keeps walk next k n missing s h = h
  listed-Keeps walk next k n (found gs) s h =
      when_observed-Keeps next (observe_all walk gs s) (observe_all-Keeps walk k gs s h) n

  children-Keeps :
      (walk : Group → Walk S) (next : State S → Seen S)
      → ((g : Group) (s : State S) → P s → Keeps P (walk g s))
      → ((s : State S) → P s → P (next s).1)
      → (g : Group) (s : State S) → P s
      → Keeps P (observe_children fs walk next g s)
  unfolding observe_children
  children-Keeps walk next k n g s h =
      listed-Keeps walk next k n (children fs g s.races).0 _ (moves s (children fs g s.races).1 h)

  processes-Keeps :
      (walk : Group → Walk S)
      → ((g : Group) (s : State S) → P s → Keeps P (walk g s))
      → (g : Group) (o : Option Classification) (r : Read Error Bool) (s : State S) → P s
      → Keeps P (by_processes fs cs walk g o r s)
  unfolding by_processes Keeps
  processes-Keeps walk k g o (failed e) s h = h
  processes-Keeps walk k g o missing s h = h
  processes-Keeps walk k g o (found true) s h = collects g o s h
  processes-Keeps walk k g o (found false) s h = children-Keeps walk _ k (λ s' h'. h') g s h

  excluding-Keeps :
      (walk : Group → Walk S)
      → ((g : Group) (s : State S) → P s → Keeps P (walk g s))
      → (g : Group) (o : Option Classification) (names : Option (List Bytes)) (s : State S) → P s
      → Keeps P (observe_excluding fs cs walk g o names s)
  unfolding observe_excluding observe_traversed
  excluding-Keeps walk k g o (some names) s h =
      when_observed-Keeps _ _ (observe_all-Keeps walk k (map (child g) names) s h) (collects g o)
  excluding-Keeps walk k g o none s h = elim (Bool-cases (is_root g)) [
    | inl at_root ↦ rw at_root (children-Keeps walk _ k (collects g o) g s h)
    | inr not_root ↦ rw not_root (
        processes-Keeps walk k g o (has_processes fs g s.races).0 _
          (moves s (has_processes fs g s.races).1 h))
  ]

  verdict-Keeps :
      (walk : Group → Walk S)
      → ((g : Group) (s : State S) → P s → Keeps P (walk g s))
      → (g : Group) (v : Verdict) (s : State S) → P s
      → Keeps P (observe_verdict fs cs walk g v s)
  unfolding observe_verdict observe_group Keeps
  verdict-Keeps walk k g (err e) s h = h
  verdict-Keeps walk k g (ok o) s h = excluding-Keeps walk k g o (excluded o) s h

  pub observe-Keeps :
      (c : Classifier) (fuel : ℕ) (g : Group) (s : State S)
      → P s
      → Keeps P (observe c fs cs fuel g s)
  unfolding observe Keeps
  observe-Keeps c zero g s h = tt
  observe-Keeps c (suc fuel) g s h =
      verdict-Keeps (observe c fs cs fuel) (observe-Keeps c fuel) g (classify_slice c g.name) s h
