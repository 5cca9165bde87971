-- ===== src/Cgroups/Races/Verdict.antt =====
-- When `Check` reports an error, and which groups count as raced.
use server_metrics.Base.{
  ◌+◌, ◌<◌, ◌≤◌, ◌≡◌, ◌↔◌, refl, true, ◌||◌, List, [], ◌∷◌, none, Bytes, same, same_iff, bytes_eq,
  length, arith,
}
use server_metrics.Error.{Error}
use server_metrics.Map.{contains, contains-insert, HasUniqueKeys, insert-HasUniqueKeys}
use server_metrics.Cgroups.Races.{RaceController, on_collection_started, note_race, races_of, check}
use server_metrics.Cgroups.Races.Streak.{
  mentions, note_all, note_all-current, note_all-races, note_race-races, run_collection,
  run_history, streak, run_history-streak, retain-contains, retain-HasUniqueKeys,
}

-- The limits never change.
note_all-limits :
    (c : RaceController) (names : List Bytes)
    → ((note_all c names).max_retries ≡ c.max_retries)
      × ((note_all c names).max_active_races ≡ c.max_active_races)
unfolding note_all note_race
note_all-limits c [] = (refl, refl)
note_all-limits c (name ∷ names) = ground (arith, note_all-limits (note_race c name) names)

run_history-limits :
    (c : RaceController) (history : List (List Bytes))
    → ((run_history c history).max_retries ≡ c.max_retries)
      × ((run_history c history).max_active_races ≡ c.max_active_races)
unfolding run_history
run_history-limits c [] = (refl, refl)
run_history-limits c (names ∷ older) = ground (
  arith,
  run_history-limits c older,
  note_all-limits (on_collection_started (run_history c older)) names,
)

-- A group is counted once, and counted if it was raced with in the running collection.
pub record IsConsistent (c : RaceController) : Type 0 where
  pub unique : HasUniqueKeys c.active
  pub counted : (g : Bytes) → contains g c.current ≡ true → contains g c.active ≡ true

note_race-active :
    (c : RaceController) (name g : Bytes)
    → IsConsistent c
    → contains g (note_race c name).active ≡ (same name g || contains g c.active)
unfolding note_race
note_race-active c name g v = ground (
  arith,
  contains-insert name g (races_of name c.active + 1) c.active,
  same_iff name g,
  v.counted g,
)

note_race-current :
    (c : RaceController) (name g : Bytes)
    → contains g (note_race c name).current ≡ (same name g || contains g c.current)
unfolding note_race
note_race-current c name g = ground (arith, contains-insert name g tt c.current, same_iff name g)

pub note_race-IsConsistent :
    (c : RaceController) (name : Bytes) → IsConsistent c → IsConsistent (note_race c name)
note_race-IsConsistent c name v = record {
  unique =
      unfold note_race in
      ground
        (arith, v.unique, insert-HasUniqueKeys name (races_of name c.active + 1) c.active v.unique);
  counted =
      λ g h. ground (arith, note_race-active c name g v, note_race-current c name g, v.counted g);
}

pub note_all-IsConsistent :
    (c : RaceController) (names : List Bytes) → IsConsistent c → IsConsistent (note_all c names)
unfolding note_all
note_all-IsConsistent c [] v = v
note_all-IsConsistent c (name ∷ names) v =
    note_all-IsConsistent (note_race c name) names (note_race-IsConsistent c name v)

note_all-active :
    (c : RaceController) (names : List Bytes) (g : Bytes)
    → IsConsistent c
    → contains g (note_all c names).active ≡ (mentions g names || contains g c.active)
unfolding note_all
note_all-active c [] g v = refl
note_all-active c (name ∷ names) g v = ground (
  arith,
  note_race-active c name g v,
  note_all-active (note_race c name) names g (note_race-IsConsistent c name v),
)

started-IsConsistent :
    (c : RaceController) → IsConsistent c → IsConsistent (on_collection_started c)
unfolding on_collection_started contains
started-IsConsistent c v = record { unique = v.unique; counted = λ g h. cc }

run_collection-IsConsistent :
    (c : RaceController) (names : List Bytes)
    → IsConsistent c
    → IsConsistent (run_collection c names)
unfolding run_collection
run_collection-IsConsistent c names v =
    let w = note_all-IsConsistent (on_collection_started c) names (started-IsConsistent c v) in
    record { unique = retain-HasUniqueKeys _ _ w.unique; counted = λ g h. cc }

run_collection-active :
    (c : RaceController) (names : List Bytes) (g : Bytes)
    → IsConsistent c
    → contains g (run_collection c names).active ≡ mentions g names
unfolding run_collection
run_collection-active c names g v =
    let s = on_collection_started c in
    ground (
      arith,
      retain-contains (note_all s names).current (note_all s names).active g,
      note_all-current s names g,
      note_all-active s names g (started-IsConsistent c v),
    )

run_history-IsConsistent :
    (c : RaceController) (history : List (List Bytes))
    → IsConsistent c
    → IsConsistent (run_history c history)
unfolding run_history
run_history-IsConsistent c [] v = v
run_history-IsConsistent c (names ∷ older) v =
    run_collection-IsConsistent (run_history c older) names (run_history-IsConsistent c older v)

new-IsConsistent : (c : RaceController) → c.active ≡ [] → c.current ≡ [] → IsConsistent c
unfolding contains
new-IsConsistent c a h = record { unique = rw a tt; counted = λ g k. cc (rw h at k) }

-- The controller in the middle of a collection that has met races with `earlier`.
abbrev pub underway : RaceController → List (List Bytes) → List Bytes → RaceController
underway c history earlier = note_all (on_collection_started (run_history c history)) earlier

module _ (c : RaceController) (no_active : c.active ≡ []) where
  -- From a new controller, through any collections and any earlier checks of the running one: a
  -- race is suppressed exactly if not too many groups are raced with, and the group was raced with
  -- in fewer than `max_retries` of the latest collections in a row.
  pub check_verdict :
      (history : List (List Bytes)) (earlier : List Bytes) (g : Bytes) (e : Error)
      → ((check (underway c history earlier) g e).0 ≡ none) ↔ (
          (length (note_race (underway c history earlier) g).active ≤ c.max_active_races)
          × (streak g history < c.max_retries))
  unfolding check on_collection_started contains
  check_verdict history earlier g e =
      let s = on_collection_started (run_history c history) in
      ground (
        arith,
        run_history-limits c history,
        note_all-limits s earlier,
        note_race-races (note_all s earlier) g g,
        note_all-current s earlier g,
        note_all-races s earlier g,
        run_history-streak c no_active history g,
        same_iff g g,
      )

  -- The groups that count as raced are those of the last collection and of the running one, each
  -- counted once.
  pub active_groups :
      c.current ≡ []
      → (last : List Bytes) (older : List (List Bytes)) (earlier : List Bytes)
      → HasUniqueKeys (underway c (last ∷ older) earlier).active
        × ((g : Bytes)
            → contains g (underway c (last ∷ older) earlier).active
              ≡ (mentions g earlier || mentions g last))
  active_groups no_current last older earlier =
      let v = run_history-IsConsistent c older (new-IsConsistent c no_active no_current) in
      let w = started-IsConsistent _ (run_collection-IsConsistent _ last v) in
      (
        unfold run_history in (note_all-IsConsistent _ earlier w).unique,
        λ g.
            unfold run_history in
            ground (arith, note_all-active _ earlier g w, run_collection-active _ last g v),
      )
