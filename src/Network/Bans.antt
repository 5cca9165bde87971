-- ===== src/Network/Bans.antt =====
-- internal/network/collector.go, collectInputRejects: the addresses to ban, and what is measured of
-- the others.
pub mod Few
pub mod Verdict
use server_metrics.Base.{
  ℕ, suc, ◌+◌, Bool, true, false, ◌||◌, List, [], ◌∷◌, ◌++◌, Option, none, some, Bytes, bytes_eq,
  ltb, if◌then◌else◌, length,
}
use server_metrics.Map.{insert}
use server_metrics.Network.Scoring.{score_ports_usage, score_tcp_port, score_udp_port}
use server_metrics.Network.Address.{Address, Network, classify_address}
use server_metrics.Network.Rejects.{
  Family, Protocol, tcp, udp, IpStat, Stats, Banned, ports_of, no_stat,
}

abbrev pub local_tcp_threshold : ℕ
local_tcp_threshold = 10

abbrev pub remote_tcp_threshold : ℕ
remote_tcp_threshold = 5

abbrev pub local_udp_threshold : ℕ
local_udp_threshold = 10

abbrev pub remote_udp_threshold : ℕ
remote_udp_threshold = 5

-- `tcpScore > tcpThreshold || udpScore > udpThreshold`
unfoldable pub is_port_scan : Bool → IpStat → Bool
is_port_scan local s =
    ltb (if local then local_tcp_threshold else remote_tcp_threshold)
      (score_ports_usage s.tcp_ports local score_tcp_port)
    || ltb (if local then local_udp_threshold else remote_udp_threshold)
        (score_ports_usage s.udp_ports local score_udp_port)

-- `topIPStat`
pub record TopIpStat : Type 0 where
  pub ip : Option Address
  pub stat : IpStat

-- `addressFamilyStat`
pub record AddressFamilyStat : Type 0 where
  pub ips : ℕ
  pub top_tcp : TopIpStat
  pub top_udp : TopIpStat

abbrev pub no_top : TopIpStat
no_top = record { ip = none; stat = no_stat }

abbrev pub new_family_stat : AddressFamilyStat
new_family_stat = record { ips = 0; top_tcp = no_top; top_udp = no_top }

-- An observation of the histogram of rejects: local or remote, the protocol, the number of ports.
abbrev pub Observation : Type 0
Observation = Bool × Protocol × ℕ

-- The variables of the loop over the addresses of a family.
pub record Review : Type 0 where
  pub to_ban : Banned
  pub local_stat : AddressFamilyStat
  pub remote_stat : AddressFamilyStat
  pub observed : List Observation

-- `if ports > len(*protocol.getPorts(&top.stat))`
unfoldable pub update_top : Protocol → Address → IpStat → TopIpStat → TopIpStat
update_top p ip s top =
    if ltb (length (ports_of p top.stat)) (length (ports_of p s))
    then record { ip = some ip; stat = s }
    else top

abbrev pub count_ip : AddressFamilyStat → AddressFamilyStat
count_ip f = record f { ips = f.ips + 1 }

-- The loop over the protocols, for an address that is not banned.
unfoldable pub update_tops : Address → IpStat → AddressFamilyStat → AddressFamilyStat
unfolding update_top
update_tops ip s f = record f {
  top_tcp = update_top tcp ip s f.top_tcp;
  top_udp = update_top udp ip s f.top_udp;
}

abbrev pub update_stat : Bool → (AddressFamilyStat → AddressFamilyStat) → Review → Review
update_stat true f r = record r { local_stat = f r.local_stat }
update_stat false f r = record r { remote_stat = f r.remote_stat }

abbrev pub observe : Bool → IpStat → Review → Review
observe local s r = record r {
  observed =
      r.observed ++ ((local, tcp, length s.tcp_ports) ∷ (local, udp, length s.udp_ports) ∷ []);
}

-- An address that is not one of the host.
unfoldable pub review_foreign : Bool → Address → IpStat → Review → Review
unfolding update_tops
review_foreign local ip s r =
    let counted = update_stat local count_ip r in
    if is_port_scan local s
    then record counted { to_ban = insert ip tt counted.to_ban }
    else update_stat local (update_tops ip s) (observe local s counted)

unfoldable pub review_address : Bool × Bool → Address → IpStat → Review → Review
unfolding review_foreign
review_address (local_address, local_network) ip s r =
    if local_address then r else review_foreign local_network ip s r

-- The loop over the addresses of a family.
unfoldable pub review_stats : List Network → Stats → Review → Review
unfolding review_address
review_stats networks [] r = r
review_stats networks ((ip, s) ∷ stats) r =
    review_stats networks stats (review_address (classify_address networks ip) ip s r)

-- The review of a family starts from the bans of the families before.
unfoldable pub review_family : List Network → Banned → Stats → Review
unfolding review_stats
review_family networks to_ban stats = review_stats networks stats (record {
  to_ban = to_ban;
  local_stat = new_family_stat;
  remote_stat = new_family_stat;
  observed = [];
})
