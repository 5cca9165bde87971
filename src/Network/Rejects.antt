-- ===== src/Network/Rejects.antt =====
-- internal/network/collector.go, collectInputRejects: the scan of the sets of rejected connections.
pub mod Ports
use server_metrics.Base.{
  ℕ, ◌+◌, ◌*◌, Bool, true, false, not, List, [], ◌∷◌, ◌++◌, Option, none, some, Bytes, bytes_eq,
  ◌==◌, if◌then◌else◌, length, take, drop, Result, ok, err, ◌>>=◌,
}
use server_metrics.Error.{Error, unexpected_size}
use server_metrics.Map.{Map, lookup, insert, contains}
use server_metrics.Network.Address.{Address, canonical}

pub data Family : Type 0 where
  ipv4 ipv6 : Family

pub data Protocol : Type 0 where
  tcp udp : Protocol

-- `family.size`
abbrev pub address_size : Family → ℕ
address_size ipv4 = 4
address_size ipv6 = 16

-- The address, the port, and two bytes of padding.
abbrev pub element_size : Family → ℕ
element_size f = address_size f + 4

-- `ipStat`
pub record IpStat : Type 0 where
  pub tcp_ports : List ℕ
  pub udp_ports : List ℕ

abbrev pub Stats : Type 0
Stats = Map Address IpStat

abbrev pub Banned : Type 0
Banned = Map Address (Unit {0})

-- `getPorts`
abbrev pub ports_of : Protocol → IpStat → List ℕ
ports_of tcp s = s.tcp_ports
ports_of udp s = s.udp_ports

-- `*ipPorts = append(*ipPorts, port)`
abbrev pub add_port : Protocol → ℕ → IpStat → IpStat
add_port tcp port s = record s { tcp_ports = s.tcp_ports ++ (port ∷ []) }
add_port udp port s = record s { udp_ports = s.udp_ports ++ (port ∷ []) }

abbrev pub no_stat : IpStat
no_stat = record { tcp_ports = []; udp_ports = [] }

abbrev pub stat_or_new : Option IpStat → IpStat
stat_or_new none = no_stat
stat_or_new (some s) = s

-- The key of a set element.
unfoldable pub element_address : Family → Bytes → Address
element_address f key = canonical (take (address_size f) key)

unfoldable pub big_endian : Bytes → ℕ
big_endian (hi ∷ lo ∷ _) = hi * 256 + lo
big_endian _ = 0

unfoldable pub element_port : Family → Bytes → ℕ
unfolding big_endian
element_port f key = big_endian (drop (address_size f) key)

-- The variables of the scan of one set: the statistics of its family, and the elements of the set
-- that are to be deleted.
pub record Scan : Type 0 where
  pub stats : Stats
  pub to_delete : List Bytes

-- An element whose size is right.
unfoldable pub take_element : Family → Protocol → Banned → Scan → Bytes → Scan
take_element f p banned s key =
    if contains (element_address f key) banned
    then record s { to_delete = s.to_delete ++ (key ∷ []) }
    else record s {
      stats =
          insert (element_address f key)
            (add_port p (element_port f key) (stat_or_new (lookup (element_address f key) s.stats)))
            s.stats;
    }

-- The loop over the elements of a set.
unfoldable pub scan_elements : Family → Protocol → Banned → Scan → List Bytes → Result Error Scan
scan_elements f p banned s [] = ok s
scan_elements f p banned s (key ∷ keys) =
    let rest = scan_elements f p banned (take_element f p banned s key) keys in
    if length key == element_size f then rest else err (unexpected_size (length key))

-- The sets of one family, one for each protocol, as `getSet` gives them.
pub record Sets : Type 0 where
  pub tcp_set : Result Error (List Bytes)
  pub udp_set : Result Error (List Bytes)

-- What the scan of a family leaves.
pub record FamilyScan : Type 0 where
  pub stats : Stats
  pub tcp_deleted : List Bytes
  pub udp_deleted : List Bytes

-- The loop over the protocols, for one family.
unfoldable pub scan_family : Family → Banned → Sets → Result Error FamilyScan
scan_family f banned sets = do
  tcp_elements ← sets.tcp_set
  t ← scan_elements f tcp banned (record { stats = []; to_delete = [] }) tcp_elements
  udp_elements ← sets.udp_set
  u ← scan_elements f udp banned (record { stats = t.stats; to_delete = [] }) udp_elements
  ok (record { stats = u.stats; tcp_deleted = t.to_delete; udp_deleted = u.to_delete })
