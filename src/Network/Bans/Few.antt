-- ===== src/Network/Bans/Few.antt =====
-- Few ports are no scan.
use server_metrics.Base.{ℕ, ◌≤◌, ◌≡◌, Bool, true, false, arith, if◌then◌else◌, length}
use server_metrics.Network.Scoring.{score_tcp_port, score_udp_port}
use server_metrics.Network.Scoring.Bounds.{
  score_tcp_port-le, score_udp_port-le, total_score-le, score_ports_usage-total,
}
use server_metrics.Network.Rejects.{IpStat}
use server_metrics.Network.Bans.{is_port_scan}

-- Three ports of each protocol in a local network, one elsewhere.
abbrev pub few : Bool → ℕ
few local = if local then 3 else 1

-- An address is not taken for a scanner as long as it was rejected at no more than three ports of
-- each protocol if it is in a local network, and at no more than one if it is not.
pub is_port_scan-few :
    (local : Bool) (s : IpStat)
    → length s.tcp_ports ≤ few local
    → length s.udp_ports ≤ few local
    → is_port_scan local s ≡ false
unfolding is_port_scan
is_port_scan-few true s t u = ground (
  arith,
  total_score-le true score_tcp_port (λ p. score_tcp_port-le p true) s.tcp_ports,
  total_score-le true score_udp_port (λ p. score_udp_port-le p true) s.udp_ports,
  score_ports_usage-total true score_tcp_port s.tcp_ports,
  score_ports_usage-total true score_udp_port s.udp_ports,
)
is_port_scan-few false s t u = ground (
  arith,
  total_score-le false score_tcp_port (λ p. score_tcp_port-le p false) s.tcp_ports,
  total_score-le false score_udp_port (λ p. score_udp_port-le p false) s.udp_ports,
  score_ports_usage-total false score_tcp_port s.tcp_ports,
  score_ports_usage-total false score_udp_port s.udp_ports,
)
