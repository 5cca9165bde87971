-- ===== src/Network/Forward/Top.antt =====
-- The top address has as many connections as any.
use server_metrics.Base.{
  ℕ, ◌+◌, ◌≤◌, ◌≡◌, ◌∙◌, ap, sym, List, [], ◌∷◌, Option, none, some, Bytes, bytes_eq, same,
  same_iff, ◌==◌, if◌then◌else◌, length, arith, Bool-cases, inl, inr, ok, bind-eq-ok, ok_cancel,
}
use server_metrics.Map.{lookup, lookup-insert}
use server_metrics.Network.Address.{Address}
use server_metrics.Network.Rejects.{Family, ipv4, ipv6}
use server_metrics.Network.Forward.{
  ForwardIpStat, ForwardStats, count_connection, forward_stat_or_new, forward_address,
  forward_protocol, forward_port, take_connection, scan_connections, better, pick_top,
  collect_forward_ips, forward_element_size,
}

-- The connections of an address among the elements of a set.
abbrev pub connections : Family → Address → List Bytes → ℕ
connections f ip [] = 0
connections f ip (key ∷ keys) =
    (if same (forward_address f key) ip then 1 else 0) + connections f ip keys

abbrev pub total_of : Option ForwardIpStat → ℕ
total_of o = (forward_stat_or_new o).total

count_connection-total :
    (protocol : Option ℕ) (port : ℕ) (s : ForwardIpStat) {t : ForwardIpStat}
    → count_connection protocol port s ≡ ok t
    → t.total ≡ s.total + 1
unfolding count_connection
count_connection-total none port s h = absurd (cc h)
count_connection-total (some protocol) port s h = ground arith

take_connection-total :
    (f : Family) (stats : ForwardStats) (key : Bytes) {after : ForwardStats} (ip : Address)
    → take_connection f stats key ≡ ok after
    → total_of (lookup ip after)
      ≡ total_of (lookup ip stats) + (if same (forward_address f key) ip then 1 else 0)
unfolding take_connection
take_connection-total f stats key {after} ip h =
    let old : ForwardIpStat = forward_stat_or_new (lookup (forward_address f key) stats) in
    let (s, counted, e) =
      bind-eq-ok (count_connection (forward_protocol f key) (forward_port f key) old) _ h in
    rw (sym (ok_cancel e), lookup-insert (forward_address f key) ip s stats)
      (elim (Bool-cases (same (forward_address f key) ip)) [
        | inl same_ip ↦ rw same_ip (
            count_connection-total (forward_protocol f key) (forward_port f key) old counted
            ∙ ap (λ x. total_of (lookup x stats) + 1)
                ((same_iff (forward_address f key) ip).0 same_ip))
        | inr other ↦ rw other (omega arith)
      ])

scan_connections-total :
    (f : Family) (stats : ForwardStats) (keys : List Bytes) {after : ForwardStats} (ip : Address)
    → scan_connections f stats keys ≡ ok after
    → total_of (lookup ip after) ≡ total_of (lookup ip stats) + connections f ip keys
unfolding scan_connections
scan_connections-total f stats [] ip h = rw (sym (ok_cancel h)) (omega arith)
scan_connections-total f stats (key ∷ keys) ip h =
    elim (Bool-cases (length key == forward_element_size f)) [
      | inr other ↦ absurd (cc (rw other at h))
      | inl fits ↦
          let (next, first, rest) = bind-eq-ok (take_connection f stats key) _ (rw fits at h) in
          omega (
            arith,
            take_connection-total f stats key ip first,
            scan_connections-total f next keys ip rest,
          )
    ]

better-total :
    (top : Option ForwardIpStat) (s : ForwardIpStat)
    → (total_of top ≤ total_of (better top s)) × (s.total ≤ total_of (better top s))
better-total none s = (omega arith, omega arith)
better-total (some top) s = ground arith

pick_top-total :
    (top : Option ForwardIpStat) (stats : ForwardStats) (ip : Address)
    → (total_of top ≤ total_of (pick_top top stats))
      × (total_of (lookup ip stats) ≤ total_of (pick_top top stats))
unfolding pick_top lookup
pick_top-total top [] ip = (omega arith, omega arith)
pick_top-total top ((j, s) ∷ stats) ip =
    let (low, high) = better-total top s in
    let (rest_low, rest_high) = pick_top-total (better top s) stats ip in
    elim (Bool-cases (same j ip)) [
      | inl here ↦ rw here (omega arith, omega arith)
      | inr other ↦ rw other (omega arith, rest_high)
    ]

-- When the collection of forwarded connections succeeds, no address has more connections, in the sets
-- of both families together, than the top address that it found counts.
pub collect_forward_ips-total :
    (keys4 keys6 : List Bytes) (ip : Address) {top : Option ForwardIpStat}
    → collect_forward_ips (ok keys4) (ok keys6) ≡ ok top
    → connections ipv4 ip keys4 + connections ipv6 ip keys6 ≤ total_of top
unfolding collect_forward_ips lookup
collect_forward_ips-total keys4 keys6 ip {top} h =
    let (a, ha, h2) = bind-eq-ok (scan_connections ipv4 [] keys4) _ h in
    let (b, hb, h3) = bind-eq-ok (scan_connections ipv6 a keys6) _ h2 in
    rw (sym (ok_cancel h3)) (
      omega (
        arith,
        scan_connections-total ipv4 [] keys4 ip ha,
        scan_connections-total ipv6 a keys6 ip hb,
        pick_top-total none b ip,
      ))
