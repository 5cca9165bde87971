-- ===== src/Cgroups/Races.antt =====
-- internal/cgroups/races.go: a group that is raced with in a few collections in a row is passed over
-- silently, and is reported after that.
pub mod Streak
pub mod Verdict
use mathlib.Core.Option
use server_metrics.Base.{
  ℕ, ◌+◌, Bool, true, false, not, List, [], ◌∷◌, Option, none, some, Bytes, ltb, if◌then◌else◌,
  bytes_eq, length,
}
use server_metrics.Error.{Error}
use server_metrics.Map.{Map, lookup, insert, contains}

pub record RaceController : Type 0 where
  pub max_retries : ℕ
  pub max_active_races : ℕ
  -- the groups that were raced with in the running collection
  pub current : Map Bytes (Unit {0})
  -- for each raced group, in how many collections in a row
  pub active : Map Bytes ℕ

-- `NewRaceController`
unfoldable pub new_race_controller : ℕ → ℕ → RaceController
new_race_controller retries races = record {
  max_retries = retries;
  max_active_races = races;
  current = [];
  active = [];
}

-- `OnCollectionStarted`
unfoldable pub on_collection_started : RaceController → RaceController
on_collection_started c = record c { current = [] }

-- An entry that is missing counts as 0.
unfoldable pub races_of : Bytes → Map Bytes ℕ → ℕ
unfolding lookup
races_of name active = Option.get_or (lookup name active) 0

-- The state that `Check` leaves behind.
unfoldable pub note_race : RaceController → Bytes → RaceController
unfolding races_of contains insert
note_race c name = if contains name c.current then c else record c {
  current = insert name tt c.current;
  active = insert name (races_of name c.active + 1) c.active;
}

-- `Check`: `none` means that the race is suppressed.
unfoldable pub check : RaceController → Bytes → Error → Option Error × RaceController
check c name e =
    let c' = note_race c name in
    (
      if ltb c.max_active_races (length c'.active)
          then some e
          else if ltb c.max_retries (races_of name c'.active)
          then some e
          else none,
      c',
    )

unfoldable pub retain : Map Bytes (Unit {0}) → Map Bytes ℕ → Map Bytes ℕ
unfolding contains
retain current [] = []
retain current ((name, races) ∷ active) =
    let rest = retain current active in if contains name current then (name, races) ∷ rest else rest

-- `OnCollectionFinished`
unfoldable pub on_collection_finished : RaceController → RaceController
unfolding retain
on_collection_finished c = record c { active = retain c.current c.active; current = [] }
