-- ===== src/Network/Scoring.antt =====
-- internal/network/scoring.go: how suspicious a rejected port is.
pub mod Bounds
use server_metrics.Base.{ℕ, ◌+◌, Bool, true, false, ◌||◌, List, [], ◌∷◌, ◌==◌, if◌then◌else◌}

-- `scorePortFunc`; the flag tells whether the address is in a local network.
abbrev pub ScorePort : Type 0
ScorePort = ℕ → Bool → ℕ

abbrev pub allowed_port_score : ℕ
allowed_port_score = 0

abbrev pub unknown_port_score : ℕ
unknown_port_score = 1

abbrev pub port_scan_score : ℕ
port_scan_score = 3

-- The `case` of a `switch` that lists the port.
abbrev pub is_one_of : ℕ → List ℕ → Bool
is_one_of port [] = false
is_one_of port (p ∷ ps) = port == p || is_one_of port ps

-- `localOnlyPort`
unfoldable pub local_only_port : Bool → ℕ
local_only_port local = if local then allowed_port_score else port_scan_score

abbrev pub local_tcp_ports : List ℕ
local_tcp_ports = 7 ∷ 53 ∷ []

abbrev pub scanned_tcp_ports : List ℕ
scanned_tcp_ports =
    21 ∷ 23 ∷ 25 ∷ 110 ∷ 139 ∷ 445 ∷ 143 ∷ 389 ∷ 465 ∷ 500 ∷ 631 ∷ 993 ∷ 995 ∷ 1433 ∷ 2376 ∷ 3128
    ∷ 3306 ∷ 3389 ∷ 4899 ∷ 5432 ∷ 5900 ∷ 5901 ∷ 6443 ∷ 6881 ∷ 8000 ∷ 8008 ∷ 8080 ∷ 8443 ∷ 8888
    ∷ 10250 ∷ []

-- `scoreTCPPort`
unfoldable pub score_tcp_port : ScorePort
unfolding local_only_port
score_tcp_port port local =
    if is_one_of port local_tcp_ports
    then local_only_port local
    else if is_one_of port scanned_tcp_ports
    then port_scan_score
    else unknown_port_score

abbrev pub local_udp_ports : List ℕ
local_udp_ports = 5353 ∷ 32412 ∷ 32414 ∷ []

abbrev pub scanned_udp_ports : List ℕ
scanned_udp_ports = 53 ∷ 137 ∷ 138 ∷ 5060 ∷ []

-- `scoreUDPPort`
unfoldable pub score_udp_port : ScorePort
unfolding local_only_port
score_udp_port port local =
    if is_one_of port local_udp_ports
    then local_only_port local
    else if is_one_of port scanned_udp_ports
    then port_scan_score
    else unknown_port_score

-- The loop of `scorePortsUsage`.
unfoldable pub add_scores : ℕ → List ℕ → Bool → ScorePort → ℕ
add_scores score [] local score_func = score
add_scores score (port ∷ ports) local score_func =
    add_scores (score + score_func port local) ports local score_func

-- `scorePortsUsage`. An int holds the score of any list of ports that fits in memory.
unfoldable pub score_ports_usage : List ℕ → Bool → ScorePort → ℕ
unfolding add_scores
score_ports_usage ports local score_func = add_scores 0 ports local score_func
