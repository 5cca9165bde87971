-- ===== src/Network/Collector/Decides.antt =====
-- What a collection decides of an address, from the elements of the sets alone.
use server_metrics.Base.{
  ℕ, ◌≡◌, ◌∙◌, ap, sym, refl, Bool, true, false, not, ◌&&◌, ◌||◌, List, [], ◌++◌, append-nil,
  Option, none, some, Bytes, bytes_eq, if◌then◌else◌, Result, ok, err, bind-eq-ok,
}
use server_metrics.Error.{Error}
use server_metrics.Map.{lookup, contains, HasUniqueKeys}
use server_metrics.Network.Address.{Address, Network, classify_address}
use server_metrics.Network.Scoring.{score_ports_usage}
use server_metrics.Network.Rejects.{
  Family, ipv4, ipv6, tcp, udp, IpStat, Stats, Banned, stat_or_new, no_stat, scan_elements,
  FamilyScan, scan_family,
}
use server_metrics.Network.Rejects.Ports.{ports_from, ports_at, gathered, scan_elements-eq-ok}
use server_metrics.Network.Bans.{is_port_scan, review_family}
use server_metrics.Network.Bans.Verdict.{should_ban, should_ban?, contains-review_stats}
use server_metrics.Network.Deletion.{delete_banned}
use server_metrics.Network.Collector.{collect_input_rejects, to_delete, unless_failed}

-- The rejected ports of an address in the sets of a family, none for an address that is banned.
abbrev pub rejected : Family → Banned → List Bytes → List Bytes → Address → IpStat
rejected f banned tcp_keys udp_keys ip =
    if contains ip banned
    then no_stat
    else record { tcp_ports = ports_from f ip tcp_keys; udp_ports = ports_from f ip udp_keys }

no_ports_no_ban : (a local : Bool) → false ≡ (not a && is_port_scan local no_stat)
unfolding is_port_scan score_ports_usage
no_ports_no_ban true local = refl
no_ports_no_ban false true = refl
no_ports_no_ban false false = refl

should_ban?-stat_or_new :
    (networks : List Network) (ip : Address) (o : Option IpStat)
    → should_ban? networks ip o ≡ should_ban networks ip (stat_or_new o)
should_ban?-stat_or_new networks ip none =
    no_ports_no_ban (classify_address networks ip).0 (classify_address networks ip).1
should_ban?-stat_or_new networks ip (some s) = refl

stat-eq :
    (b : Bool) (s : IpStat) (tcp_ports udp_ports : List ℕ)
    → s.tcp_ports ≡ (if not b && true then tcp_ports else [])
    → s.udp_ports ≡ (if not b && true then udp_ports else [])
    → s ≡ (if b then no_stat else record { tcp_ports = tcp_ports; udp_ports = udp_ports })
stat-eq true s tcp_ports udp_ports t u = λ i. record { tcp_ports = t i; udp_ports = u i }
stat-eq false s tcp_ports udp_ports t u = λ i. record { tcp_ports = t i; udp_ports = u i }

never : (b : Bool) (ports : List ℕ) → (if not b && false then ports else []) ≡ []
never true ports = refl
never false ports = refl

abbrev stats_of : Result Error FamilyScan → Stats
stats_of (ok a) = a.stats
stats_of (err e) = []

-- The scan of a family.
scan_family-eq-ok :
    (f : Family) (banned : Banned) (tcp_keys udp_keys : List Bytes) {a : FamilyScan}
    → scan_family f banned (record { tcp_set = ok tcp_keys; udp_set = ok udp_keys }) ≡ ok a
    → HasUniqueKeys a.stats
      × ((ip : Address) → stat_or_new (lookup ip a.stats) ≡ rejected f banned tcp_keys udp_keys ip)
unfolding scan_family lookup
scan_family-eq-ok f banned tcp_keys udp_keys {a} h =
    let (t, ht, h2) =
      bind-eq-ok (scan_elements f tcp banned (record { stats = []; to_delete = [] }) tcp_keys) _
        h in
    let (u, hu, h3) =
      bind-eq-ok (scan_elements f udp banned (record { stats = t.stats; to_delete = [] }) udp_keys)
        _ h2 in
    let (unique_t, _, ports_t) = scan_elements-eq-ok f tcp banned _ tcp_keys ht tt in
    let (unique_u, _, ports_u) = scan_elements-eq-ok f udp banned _ udp_keys hu unique_t in
    let stats : a.stats ≡ u.stats = sym (ap stats_of h3) in
    rw stats (
      unique_u,
      λ ip.
          stat-eq (contains ip banned) (stat_or_new (lookup ip u.stats)) (ports_from f ip tcp_keys)
            (ports_from f ip udp_keys)
            (ports_u tcp ip
              ∙ ap (λ l. ports_at tcp ip t.stats ++ l)
                  (never (contains ip banned) (ports_from f ip udp_keys))
              ∙ append-nil (ports_at tcp ip t.stats)
              ∙ ports_t tcp ip)
            (ports_u udp ip
              ∙ ap (λ l. l ++ gathered f udp banned udp_keys udp ip)
                  (ports_t udp ip ∙ never (contains ip banned) (ports_from f ip tcp_keys))),
    )

contains-review_family :
    (networks : List Network) (to_ban : Banned) (stats : Stats) (g : Address) {s : IpStat}
    → HasUniqueKeys stats
    → stat_or_new (lookup g stats) ≡ s
    → contains g (review_family networks to_ban stats).to_ban
      ≡ (should_ban networks g s || contains g to_ban)
unfolding review_family
contains-review_family networks to_ban stats g unique stat =
    contains-review_stats networks stats _ g unique
    ∙ ap (λ x. x || contains g to_ban)
        (should_ban?-stat_or_new networks g (lookup g stats)
          ∙ ap (λ s. should_ban networks g s) stat)

or_nothing : (b : Bool) → (b || false) ≡ b
or_nothing true = refl
or_nothing false = refl

unless_failed-eq-ok :
    (e : Option Error) (a : Banned) {b : Banned} → unless_failed e a ≡ ok b → a ≡ b
unless_failed-eq-ok none a h = cc
unless_failed-eq-ok (some e) a h = absurd (cc h)

-- When the collection of input rejects succeeds, it bans an address exactly if, in one family, the
-- address is none of the host and the ports of its elements look like a scan, where the elements of
-- an address that is banned already do not count.
pub collect_input_rejects-contains :
    (networks : List Network) (tcp4 udp4 tcp6 udp6 : List Bytes) (answer : ℕ → Option Error)
    (banned to_ban : Banned) (g : Address)
    → collect_input_rejects banned (record {
      networks = ok networks;
      sets4 = record { tcp_set = ok tcp4; udp_set = ok udp4 };
      sets6 = record { tcp_set = ok tcp6; udp_set = ok udp6 };
      answer = answer;
    })
      ≡ ok to_ban
    → contains g to_ban ≡ (
        should_ban networks g (rejected ipv6 banned tcp6 udp6 g)
        || should_ban networks g (rejected ipv4 banned tcp4 udp4 g))
unfolding collect_input_rejects review_family lookup contains
collect_input_rejects-contains networks tcp4 udp4 tcp6 udp6 answer banned to_ban g h =
    let (a, ha, h2) =
      bind-eq-ok (scan_family ipv4 banned (record { tcp_set = ok tcp4; udp_set = ok udp4 })) _ h in
    let (b, hb, h3) =
      bind-eq-ok (scan_family ipv6 banned (record { tcp_set = ok tcp6; udp_set = ok udp6 })) _ h2 in
    let (unique_a, stats_a) = scan_family-eq-ok ipv4 banned tcp4 udp4 ha in
    let (unique_b, stats_b) = scan_family-eq-ok ipv6 banned tcp6 udp6 hb in
    let same_bans = unless_failed-eq-ok (delete_banned answer (to_delete a b)).failure _ h3 in
    ap (λ m. contains g m) (sym same_bans)
    ∙ contains-review_family networks _ b.stats g unique_b (stats_b g)
    ∙ ap (λ x. should_ban networks g (rejected ipv6 banned tcp6 udp6 g) || x)
        (contains-review_family networks [] a.stats g unique_a (stats_a g)
          ∙ or_nothing (should_ban networks g (rejected ipv4 banned tcp4 udp4 g)))
