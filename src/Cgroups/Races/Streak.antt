-- ===== src/Cgroups/Races/Streak.antt =====
-- The count that the controller keeps of a group is the number of collections in a row, up to now,
-- in which the group was raced with.
use mathlib.Core.Option
use server_metrics.Base.{
  ℕ, suc, ◌+◌, ◌≡◌, refl, Bool, false, not, ◌&&◌, ◌||◌, List, [], ◌∷◌, Bytes, same, same_iff,
  if◌then◌else◌, bytes_eq, arith,
}
use server_metrics.Map.{Map, lookup, contains, lookup-insert, contains-insert, HasUniqueKeys}
use server_metrics.Cgroups.Races.{
  RaceController, on_collection_started, note_race, races_of, retain, on_collection_finished,
}

-- Whether the name is in the list.
abbrev pub mentions : Bytes → List Bytes → Bool
mentions g [] = false
mentions g (name ∷ names) = same name g || mentions g names

-- The checks of one collection, in their order.
unfoldable pub note_all : RaceController → List Bytes → RaceController
note_all c [] = c
note_all c (name ∷ names) = note_all (note_race c name) names

-- A collection that runs to its end, and that meets a race with each of `names`.
unfoldable pub run_collection : RaceController → List Bytes → RaceController
unfolding note_all on_collection_started on_collection_finished
run_collection c names = on_collection_finished (note_all (on_collection_started c) names)

-- Collections one after another, the last one first.
unfoldable pub run_history : RaceController → List (List Bytes) → RaceController
unfolding run_collection
run_history c [] = c
run_history c (names ∷ older) = run_collection (run_history c older) names

-- In how many of the latest collections, in a row, the group was raced with.
abbrev pub streak : Bytes → List (List Bytes) → ℕ
streak g [] = 0
streak g (names ∷ older) = if mentions g names then suc (streak g older) else 0

note_race-current :
    (c : RaceController) (name g : Bytes)
    → contains g (note_race c name).current ≡ (same name g || contains g c.current)
unfolding note_race
note_race-current c name g = ground (arith, contains-insert name g tt c.current, same_iff name g)

pub note_race-races :
    (c : RaceController) (name g : Bytes)
    → races_of g (note_race c name).active ≡ (
        if same name g && not (contains g c.current)
        then races_of g c.active + 1
        else races_of g c.active)
unfolding note_race races_of
note_race-races c name g = ground (
  arith,
  lookup-insert name g (Option.get_or (lookup name c.active) 0 + 1) c.active,
  same_iff name g,
)

pub note_all-current :
    (c : RaceController) (names : List Bytes) (g : Bytes)
    → contains g (note_all c names).current ≡ (mentions g names || contains g c.current)
unfolding note_all
note_all-current c [] g = refl
note_all-current c (name ∷ names) g =
    ground (arith, note_all-current (note_race c name) names g, note_race-current c name g)

pub note_all-races :
    (c : RaceController) (names : List Bytes) (g : Bytes)
    → races_of g (note_all c names).active ≡ (
        if mentions g names && not (contains g c.current)
        then races_of g c.active + 1
        else races_of g c.active)
unfolding note_all
note_all-races c [] g = refl
note_all-races c (name ∷ names) g = ground (
  arith,
  note_all-races (note_race c name) names g,
  note_race-current c name g,
  note_race-races c name g,
)

retain-races :
    (current : Map Bytes (Unit {0})) (active : Map Bytes ℕ) (g : Bytes)
    → races_of g (retain current active) ≡ (if contains g current then races_of g active else 0)
unfolding retain races_of
retain-races current [] g = ground arith
retain-races current ((name, n) ∷ active) g =
    ground (arith, retain-races current active g, same_iff name g)

pub retain-contains :
    (current : Map Bytes (Unit {0})) (active : Map Bytes ℕ) (g : Bytes)
    → contains g (retain current active) ≡ (contains g current && contains g active)
unfolding retain
retain-contains current [] g = ground arith
retain-contains current ((name, n) ∷ active) g =
    ground (arith, retain-contains current active g, same_iff name g)

pub retain-HasUniqueKeys :
    (current : Map Bytes (Unit {0})) (active : Map Bytes ℕ)
    → HasUniqueKeys active
    → HasUniqueKeys (retain current active)
unfolding retain
retain-HasUniqueKeys current [] h = tt
retain-HasUniqueKeys current ((name, n) ∷ active) (hn, h) =
    ground (arith, retain-contains current active name, retain-HasUniqueKeys current active h)

run_collection-races :
    (c : RaceController) (names : List Bytes) (g : Bytes)
    → races_of g (run_collection c names).active
      ≡ (if mentions g names then suc (races_of g c.active) else 0)
unfolding run_collection
run_collection-races c names g = ground (
  arith,
  note_all-current (on_collection_started c) names g,
  note_all-races (on_collection_started c) names g,
  retain-races (note_all (on_collection_started c) names).current
      (note_all (on_collection_started c) names).active g,
)

module _ (c : RaceController) (fresh : c.active ≡ []) where
  -- From a new controller, after any collections, the count of a group is the number of the latest
  -- collections in a row in which it was raced with.
  pub run_history-streak :
      (history : List (List Bytes)) (g : Bytes)
      → races_of g (run_history c history).active ≡ streak g history
  unfolding run_history races_of
  run_history-streak [] g = rw fresh
  run_history-streak (names ∷ older) g =
      ground (arith, run_collection-races (run_history c older) names g, run_history-streak older g)
