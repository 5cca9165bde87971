-- ===== src/Slab/Details.antt =====
-- internal/slab/detailscache.go and internal/slab/collector.go: which slabs are reclaimable.
pub mod Cached
use server_metrics.Base.{
  Bool, true, false, List, [], ◌∷◌, none, some, Bytes, bytes_eq, ◌==◌, if◌then◌else◌, Result, ok,
  err,
}
use server_metrics.Error.{Error, unexpected_line}
use server_metrics.Map.{Map, lookup, insert}
use server_metrics.Text.{drop_while_end}
use server_metrics.Slab.Info.{SlabInfo}

-- `cache`
abbrev pub Cache : Type 0
Cache = Map Bytes Bool

-- The contents of the file `reclaim_account` of a slab, `0` or `1`.
unfoldable pub parse_reclaim_account : Bytes → Result Error Bool
parse_reclaim_account content = parse_flag (drop_while_end (λ c. c == b'\n') content)
  where
    parse_flag : Bytes → Result Error Bool
    parse_flag (c ∷ []) =
        if c == b'0' then ok false else if c == b'1' then ok true else err (unexpected_line content)
    parse_flag _ = err (unexpected_line content)

remember : Cache → Bytes → Result Error Bool → Result Error Bool × Cache
remember cache name (err e) = (err e, cache)
remember cache name (ok reclaimable) = (ok reclaimable, insert name reclaimable cache)

read_details : Cache → Bytes → Result Error Bytes → Result Error Bool × Cache
unfolding remember
read_details cache name (err e) = (err e, cache)
read_details cache name (ok content) = remember cache name (parse_reclaim_account content)

-- `isReclaimable`; `files` gives what the file of a slab holds.
unfoldable pub is_reclaimable :
    (Bytes → Result Error Bytes) → Cache → Bytes → Result Error Bool × Cache
unfolding read_details
is_reclaimable files cache name = elim (lookup name cache) [
  | some reclaimable ↦ (ok reclaimable, cache)
  | none ↦ read_details cache name (files name)
]

add_slab :
    SlabInfo
    → Result Error Bool
    → Cache
    → Result Error (List (SlabInfo × Bool)) × Cache
    → Result Error (List (SlabInfo × Bool)) × Cache
add_slab info (err e) cache later = (err e, cache)
add_slab info (ok reclaimable) cache (ok slabs, later) = (ok ((info, reclaimable) ∷ slabs), later)
add_slab info (ok reclaimable) cache (err e, later) = (err e, later)

-- The loop of `observe`: the slabs with their types, and the cache it leaves.
unfoldable pub observe_slabs :
    (Bytes → Result Error Bytes)
    → Cache
    → List SlabInfo
    → Result Error (List (SlabInfo × Bool)) × Cache
unfolding add_slab
observe_slabs files cache [] = (ok [], cache)
observe_slabs files cache (info ∷ infos) =
    let (r, cache') = is_reclaimable files cache info.name in
    add_slab info r cache' (observe_slabs files cache' infos)
