-- ===== src/Network/Deletion.antt =====
-- internal/network/collector.go, deleteBanned: the elements of banned addresses leave their sets, in
-- batches.
pub mod Batches
use server_metrics.Base.{
  ℕ, zero, suc, List, [], ◌∷◌, ◌++◌, Option, none, some, Bytes, length, take, drop,
}
use server_metrics.Error.{Error}

abbrev pub batch_size : ℕ
batch_size = 1000

-- A call of `SetDeleteElements` with the `Flush` after it: the set, and the elements.
abbrev pub Call : Type 0
Call = Bytes × List Bytes

-- The calls made so far, in their order, and the error that ended them.
pub record Deletion : Type 0 where
  pub calls : List Call
  pub failure : Option Error

abbrev pub proceed : Option Error → List Call → Deletion → Deletion
proceed none calls rest = rest
proceed (some e) calls rest = record { calls = calls; failure = some e }

-- The loop over the batches of one set. `answer n` is what the connection answers to the call with
-- number n. An element leaves in every batch, so the number of the elements is fuel enough.
unfoldable pub delete_set : (ℕ → Option Error) → Bytes → ℕ → List Bytes → List Call → Deletion
delete_set answer set fuel [] calls = record { calls = calls; failure = none }
delete_set answer set zero (key ∷ keys) calls = record { calls = calls; failure = none }
delete_set answer set (suc fuel) (key ∷ keys) calls =
    let now = calls ++ ((set, take batch_size (key ∷ keys)) ∷ []) in
    let rest = delete_set answer set fuel (drop batch_size (key ∷ keys)) now in
    proceed (answer (length calls)) now rest

abbrev pub then_sets : Deletion → (List Call → Deletion) → Deletion
then_sets d next = proceed d.failure d.calls (next d.calls)

-- The loop over the sets, in an order that Go leaves open.
unfoldable pub delete_sets : (ℕ → Option Error) → List Call → List Call → Deletion
unfolding delete_set
delete_sets answer [] calls = record { calls = calls; failure = none }
delete_sets answer ((set, keys) ∷ sets) calls =
    then_sets (delete_set answer set (length keys) keys calls) (λ now. delete_sets answer sets now)

unfoldable pub delete_banned : (ℕ → Option Error) → List Call → Deletion
unfolding delete_sets
delete_banned answer sets = delete_sets answer sets []
