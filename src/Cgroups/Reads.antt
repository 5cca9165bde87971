-- ===== src/Cgroups/Reads.antt =====
-- Reading cgroups: each step may find its group gone, and may tell the race controller of it.
use server_metrics.Base.{Option, none, some, Bytes, Read, found, missing, failed, Result, ok, err}
use server_metrics.Error.{Error}
use server_metrics.Cgroups.Races.{RaceController, check}

-- The race controller is the state; every group that refers to one refers to this one.
abbrev pub Reads {ℓ} : Type ℓ → Type ℓ
Reads A = RaceController → Read Error A × RaceController

abbrev pub pure {ℓ} : {A : Type ℓ} → A → Reads A
pure a c = (found a, c)

-- `return …, false, err`
abbrev pub fail {ℓ} : {A : Type ℓ} → Error → Reads A
fail e c = (failed e, c)

-- `return …, false, nil`
abbrev pub absent {ℓ} : {A : Type ℓ} → Reads A
absent c = (missing, c)

module _ {ℓ κ} {A : Type ℓ} {B : Type κ} where
  abbrev pub proceed : Read Error A → (A → Reads B) → Reads B
  proceed (found a) f = f a
  proceed missing f = absent
  proceed (failed e) f = fail e

  -- `if err != nil || !exists { return …, exists, err }` between two steps.
  infixl 5 ◌>>=◌
  abbrev pub ◌>>=◌ : Reads A → (A → Reads B) → Reads B
  ◌>>=◌ m f c = let (r, c') = m c in proceed r f c'

unfoldable pub verdict {ℓ} : {A : Type ℓ} → Option Error → Read Error A
verdict none = missing
verdict (some e) = failed e

-- `return …, false, races.Check(…)`
unfoldable pub check_race {ℓ} : {A : Type ℓ} → Bytes → Error → Reads A
unfolding verdict
check_race name e c = let (answer, c') = check c name e in (verdict answer, c')

-- `if err != nil { return …, true, err }`
abbrev pub lift {ℓ} : {A : Type ℓ} → Result Error A → Reads A
lift (ok a) = pure a
lift (err e) = fail e
