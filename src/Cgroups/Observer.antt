-- ===== src/Cgroups/Observer.antt =====
-- internal/cgroups/collector/collector.go: the walk over the tree of groups, which gives each group
-- that has a service of its own to the collectors.
pub mod Walks
pub mod Once
pub mod Depth
pub mod Top
pub mod Collectors
use server_metrics.Base.{
  ℕ, zero, suc, Bool, true, false, List, [], ◌∷◌, Option, none, some, Bytes, bytes_eq, codes,
  if◌then◌else◌, map, ok, err, Read, found, missing, failed,
}
use server_metrics.Error.{Error, not_mounted}
use server_metrics.Map.{Map, insert, contains}
use server_metrics.Cgroups.Races.{RaceController, on_collection_started, on_collection_finished}
use server_metrics.Cgroups.Group.{FileSystem, Group, is_root, child, children, has_processes}
use server_metrics.Cgroups.Classifier.{Classification, Classifier, Verdict, classify_slice}

-- The interface `cgroups.Collector`, on the state `S` of all the collectors.
pub record Collector (S : Type 0) : Type 0 where
  pub pre : S → S
  pub post : S → S
  pub collect :
      Bytes → Group → List Bytes → S → RaceController → (Read Error (Unit {0}) × S) × RaceController

-- What a walk changes: the groups that the services were found in, the collectors, and the races.
pub record State (S : Type 0) : Type 0 where
  pub services : Map Bytes Bytes
  pub collectors : S
  pub races : RaceController

-- `(exists bool, err error)` of `observe`, with the state that it leaves.
abbrev pub Seen : Type 0 → Type 0
Seen S = Read Error (Unit {0}) × State S

-- A walk that runs out of fuel gives none.
abbrev pub Walk : Type 0 → Type 0
Walk S = State S → Option (Seen S)

-- The names that the usage of a group excludes, if it is the total of the group.
abbrev pub excluded : Option Classification → Option (List Bytes)
excluded none = none
excluded (some c) = c.total_excluding

-- `TotalExcluding.OrEmpty()`
abbrev pub or_empty : Option (List Bytes) → List Bytes
or_empty none = []
or_empty (some names) = names

abbrev pub root : Group
root = record { name = codes "/"; has_races = true }

module _ {S : Type 0} where
  -- A collector that has an error, or finds the group gone, is the last.
  unfoldable pub next_collector : (State S → Seen S) → Read Error (Unit {0}) → State S → Seen S
  next_collector rest (failed e) s = (failed e, s)
  next_collector rest missing s = (missing, s)
  next_collector rest (found _) s = rest s

  -- `collect` of the collectors, one after another.
  unfoldable pub collect_all : List (Collector S) → Bytes → Group → List Bytes → State S → Seen S
  unfolding next_collector
  collect_all [] service g exclude s = (found tt, s)
  collect_all (c ∷ cs) service g exclude s =
      let ((r, collectors'), races') = c.collect service g exclude s.collectors s.races in
      next_collector (collect_all cs service g exclude) r
        (record s { collectors = collectors'; races = races' })

  -- An error of the collectors is only logged.
  unfoldable pub log_failure : Seen S → Seen S
  log_failure (failed e, s) = (found tt, s)
  log_failure (missing, s) = (missing, s)
  log_failure (found u, s) = (found u, s)

  unfoldable pub collect_service : List (Collector S) → Group → Classification → State S → Seen S
  unfolding contains insert collect_all log_failure
  collect_service cs g found_as s =
      if contains found_as.service s.services
      then (found tt, s)
      else log_failure (
          collect_all cs found_as.service g (or_empty found_as.total_excluding)
            (record s { services = insert found_as.service g.name s.services }))

  -- The end of `observe`, for a group that needs to be collected.
  unfoldable pub collect_group :
      List (Collector S) → Group → Option Classification → State S → Seen S
  unfolding collect_service
  collect_group cs g none s = (found tt, s)
  collect_group cs g (some found_as) s = collect_service cs g found_as s

  -- An error ends a loop over groups, a group that is gone does not.
  unfoldable pub go_on : Walk S → Option (Seen S) → Option (Seen S)
  go_on rest none = none
  go_on rest (some (failed e, s)) = some (failed e, s)
  go_on rest (some (missing, s)) = rest s
  go_on rest (some (found _, s)) = rest s

  -- The loops over groups.
  unfoldable pub observe_all : (Group → Walk S) → List Group → Walk S
  unfolding go_on
  observe_all walk [] s = some (found tt, s)
  observe_all walk (g ∷ gs) s = go_on (observe_all walk gs) (walk g s)

  -- What follows a loop over groups that had no error.
  unfoldable pub when_observed : (State S → Seen S) → Option (Seen S) → Option (Seen S)
  when_observed next none = none
  when_observed next (some (failed e, s)) = some (failed e, s)
  when_observed next (some (missing, s)) = some (missing, s)
  when_observed next (some (found _, s)) = some (next s)

  -- The children that were read are observed.
  unfoldable pub observe_listed :
      (Group → Walk S) → (State S → Seen S) → Read Error (List Group) → Walk S
  unfolding observe_all when_observed
  observe_listed walk next (failed e) s = some (failed e, s)
  observe_listed walk next missing s = some (missing, s)
  observe_listed walk next (found gs) s = when_observed next (observe_all walk gs s)

  unfoldable pub observe_children :
      FileSystem → (Group → Walk S) → (State S → Seen S) → Group → Walk S
  unfolding observe_listed
  observe_children fs walk next g s =
      let (r, races') = children fs g s.races in
      observe_listed walk next r (record s { races = races' })

  -- A group that has processes is collected, and one that has none is descended into.
  unfoldable pub by_processes :
      FileSystem
      → List (Collector S)
      → (Group → Walk S)
      → Group
      → Option Classification
      → Read Error Bool
      → Walk S
  unfolding observe_children collect_group
  by_processes fs cs walk g classification (failed e) s = some (failed e, s)
  by_processes fs cs walk g classification missing s = some (missing, s)
  by_processes fs cs walk g classification (found true) s =
      some (collect_group cs g classification s)
  by_processes fs cs walk g classification (found false) s =
      observe_children fs walk (λ s'. (found tt, s')) g s

  unfoldable pub observe_traversed :
      FileSystem → List (Collector S) → (Group → Walk S) → Group → Option Classification → Walk S
  unfolding by_processes
  observe_traversed fs cs walk g classification s =
      if is_root g
      then observe_children fs walk (collect_group cs g classification) g s
      else (let (r, races') = has_processes fs g s.races in
          by_processes fs cs walk g classification r (record s { races = races' }))

  -- The rest of `observe`, for a group that was classified, or is of no service.
  unfoldable pub observe_excluding :
      FileSystem
      → List (Collector S)
      → (Group → Walk S)
      → Group
      → Option Classification
      → Option (List Bytes)
      → Walk S
  unfolding observe_traversed observe_all when_observed collect_group
  observe_excluding fs cs walk g classification none s =
      observe_traversed fs cs walk g classification s
  observe_excluding fs cs walk g classification (some names) s =
      when_observed (collect_group cs g classification) (observe_all walk (map (child g) names) s)

  unfoldable pub observe_group :
      FileSystem → List (Collector S) → (Group → Walk S) → Group → Option Classification → Walk S
  unfolding observe_excluding
  observe_group fs cs walk g classification =
      observe_excluding fs cs walk g classification (excluded classification)

  -- A group that cannot be classified is only logged.
  unfoldable pub observe_verdict :
      FileSystem → List (Collector S) → (Group → Walk S) → Group → Verdict → Walk S
  unfolding observe_group
  observe_verdict fs cs walk g (err e) s = some (found tt, s)
  observe_verdict fs cs walk g (ok classification) s = observe_group fs cs walk g classification s

  -- `observe`
  unfoldable pub observe : Classifier → FileSystem → List (Collector S) → ℕ → Group → Walk S
  unfolding observe_verdict classify_slice
  observe c fs cs zero g s = none
  observe c fs cs (suc fuel) g s =
      observe_verdict fs cs (observe c fs cs fuel) g (classify_slice c g.name) s

  pre_all : List (Collector S) → S → S
  pre_all [] s = s
  pre_all (c ∷ cs) s = pre_all cs (c.pre s)

  post_all : List (Collector S) → S → S
  post_all [] s = s
  post_all (c ∷ cs) s = post_all cs (c.post s)

  -- The state in which a collection starts to observe.
  unfoldable pub begin : List (Collector S) → S → RaceController → State S
  unfolding pre_all
  begin cs s races = record {
    services = [];
    collectors = pre_all cs s;
    races = on_collection_started races;
  }

  -- The error that ends a collection, and what is done where there is none.
  unfoldable pub end : List (Collector S) → Seen S → Option Error × (S × RaceController)
  unfolding post_all
  end cs (failed e, s) = (some e, (s.collectors, s.races))
  end cs (missing, s) = (some not_mounted, (s.collectors, s.races))
  end cs (found _, s) = (none, (post_all cs s.collectors, on_collection_finished s.races))

  -- `Collect`
  unfoldable pub collect :
      Classifier
      → FileSystem
      → List (Collector S)
      → ℕ
      → S
      → RaceController
      → Option (Option Error × (S × RaceController))
  unfolding observe begin end
  collect c fs cs fuel s races = elim (observe c fs cs fuel root (begin cs s races)) [
    | none ↦ none
    | some seen ↦ some (end cs seen)
  ]
