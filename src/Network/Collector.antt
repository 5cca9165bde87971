-- ===== src/Network/Collector.antt =====
-- internal/network/collector.go, Collector: the bans that a collection leaves for the next one.
pub mod Decides
pub mod Succeeds
use server_metrics.Base.{
  ℕ, Bool, true, false, List, [], ◌∷◌, Option, none, some, Bytes, codes, if◌then◌else◌, Result, ok,
  err, ◌>>=◌,
}
use server_metrics.Error.{Error}
use server_metrics.Network.Address.{Network}
use server_metrics.Network.Rejects.{Family, ipv4, ipv6, Banned, Sets, FamilyScan, scan_family}
use server_metrics.Network.Bans.{review_family}
use server_metrics.Network.Deletion.{Call, Deletion, delete_banned}

-- What a collection meets outside the program: the networks of the interfaces, the sets, and the
-- answers to the calls that delete.
pub record Outside : Type 0 where
  pub networks : Result Error (List Network)
  pub sets4 : Sets
  pub sets6 : Sets
  pub answer : ℕ → Option Error

-- `toDelete`, with the name of each set.
abbrev pub to_delete : FamilyScan → FamilyScan → List Call
to_delete a b =
    (codes "tcp4_rejects", a.tcp_deleted)
    ∷ (codes "udp4_rejects", a.udp_deleted)
    ∷ (codes "tcp6_rejects", b.tcp_deleted)
    ∷ (codes "udp6_rejects", b.udp_deleted)
    ∷ []

abbrev pub unless_failed : Option Error → Banned → Result Error Banned
unless_failed none to_ban = ok to_ban
unless_failed (some e) to_ban = err e

-- `collectInputRejects`
unfoldable pub collect_input_rejects : Banned → Outside → Result Error Banned
collect_input_rejects banned o = do
  networks ← o.networks
  a ← scan_family ipv4 banned o.sets4
  b ← scan_family ipv6 banned o.sets6
  unless_failed (delete_banned o.answer (to_delete a b)).failure
      (review_family networks (review_family networks [] a.stats).to_ban b.stats).to_ban

-- `Collector`, with the connection open or not.
pub record Collector : Type 0 where
  pub is_open : Bool
  pub dry_run : Bool
  pub banned : Banned

-- `toBan`, which is nil after an error.
abbrev pub bans_of : Result Error Banned → Banned
bans_of (ok to_ban) = to_ban
bans_of (err e) = []

-- `Collect`
unfoldable pub collect : Collector → Outside → Collector
unfolding collect_input_rejects
collect c o =
    if c.is_open
    then (if c.dry_run then c else record c { banned = bans_of (collect_input_rejects c.banned o) })
    else c
