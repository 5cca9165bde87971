-- ===== src/Network/Forward.antt =====
-- internal/network/collector.go, collectForwardIPs: the address with the most forwarded connections.
pub mod Top
use server_metrics.Base.{
  ℕ, ◌+◌, ◌*◌, Bool, true, false, List, [], ◌∷◌, Option, none, some, Bytes, bytes_eq, nat_eq, ltb,
  ◌==◌, if◌then◌else◌, length, take, drop, get_elem?, Result, ok, err, ◌>>=◌,
}
use server_metrics.Error.{Error, unexpected_size, unexpected_protocol, index_out_of_range}
use server_metrics.Map.{Map, lookup, insert}
use server_metrics.Network.Address.{Address, canonical}
use server_metrics.Network.Rejects.{Family, ipv4, ipv6, address_size, big_endian}

-- `forwardIPStat`
pub record ForwardIpStat : Type 0 where
  pub tcp : Map ℕ ℕ
  pub udp : Map ℕ ℕ
  pub total : ℕ

abbrev pub ForwardStats : Type 0
ForwardStats = Map Address ForwardIpStat

-- `newForwardIPStat`
abbrev pub new_forward_ip_stat : ForwardIpStat
new_forward_ip_stat = record { tcp = []; udp = []; total = 0 }

abbrev pub count_of : Option ℕ → ℕ
count_of none = 0
count_of (some n) = n

-- `ports[port]++`
unfoldable pub count_port : ℕ → Map ℕ ℕ → Map ℕ ℕ
count_port port ports = insert port (count_of (lookup port ports) + 1) ports

-- Two addresses, the protocol with three bytes of padding, and the port with two.
abbrev pub forward_element_size : Family → ℕ
forward_element_size f = address_size f + address_size f + 4 + 4

unfoldable pub forward_address : Family → Bytes → Address
forward_address f key = canonical (take (address_size f) key)

abbrev pub forward_protocol : Family → Bytes → Option ℕ
forward_protocol f key = get_elem? (drop (address_size f + address_size f) key) 0

unfoldable pub forward_port : Family → Bytes → ℕ
forward_port f key = big_endian (drop (address_size f + address_size f + 4) key)

-- IPPROTO_TCP and IPPROTO_UDP
abbrev pub tcp_number : ℕ
tcp_number = 6

abbrev pub udp_number : ℕ
udp_number = 17

-- The `switch`, and the count of the connection.
unfoldable pub count_connection : Option ℕ → ℕ → ForwardIpStat → Result Error ForwardIpStat
unfolding count_port
count_connection none port s = err index_out_of_range
count_connection (some protocol) port s =
    if protocol == tcp_number
    then ok (record s { tcp = count_port port s.tcp; total = s.total + 1 })
    else if protocol == udp_number
    then ok (record s { udp = count_port port s.udp; total = s.total + 1 })
    else err (unexpected_protocol protocol)

abbrev pub forward_stat_or_new : Option ForwardIpStat → ForwardIpStat
forward_stat_or_new none = new_forward_ip_stat
forward_stat_or_new (some s) = s

-- An element whose size is right.
unfoldable pub take_connection : Family → ForwardStats → Bytes → Result Error ForwardStats
unfolding count_connection
take_connection f stats key =
    count_connection (forward_protocol f key) (forward_port f key)
      (forward_stat_or_new (lookup (forward_address f key) stats))
    >>= λ s. ok (insert (forward_address f key) s stats)

-- The loop over the elements of a set.
unfoldable pub scan_connections : Family → ForwardStats → List Bytes → Result Error ForwardStats
unfolding take_connection
scan_connections f stats [] = ok stats
scan_connections f stats (key ∷ keys) =
    if length key == forward_element_size f
    then (take_connection f stats key >>= λ stats'. scan_connections f stats' keys)
    else err (unexpected_size (length key))

-- `if topStat, ok := top.Get(); !ok || topStat.total < stat.total`
abbrev pub better : Option ForwardIpStat → ForwardIpStat → Option ForwardIpStat
better none s = some s
better (some top) s = if ltb top.total s.total then some s else some top

-- The loop that picks the top.
unfoldable pub pick_top : Option ForwardIpStat → ForwardStats → Option ForwardIpStat
pick_top top [] = top
pick_top top ((ip, s) ∷ stats) = pick_top (better top s) stats

-- `collectForwardIPs`, on the sets that `getSet` gives: the statistics of the top address, whose total
-- is the metric.
unfoldable pub collect_forward_ips :
    Result Error (List Bytes) → Result Error (List Bytes) → Result Error (Option ForwardIpStat)
unfolding scan_connections pick_top
collect_forward_ips set4 set6 = do
  keys4 ← set4
  a ← scan_connections ipv4 [] keys4
  keys6 ← set6
  b ← scan_connections ipv6 a keys6
  ok (pick_top none b)
