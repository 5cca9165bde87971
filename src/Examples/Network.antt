-- ===== src/Examples/Network.antt =====
-- The theorems on rejected connections at concrete inputs.
use server_metrics.Base.{
  ℕ, ◌+◌, ◌≤◌, ◌≡◌, refl, false, ◌||◌, List, [], ◌∷◌, ◌++◌, Option, none, some, Bytes, codes, arith,
  All, ok, bytes_eq,
}
use server_metrics.Network.Forward.{
  ForwardIpStat, collect_forward_ips, forward_address, forward_port,
}
use server_metrics.Network.Forward.Top.{connections, collect_forward_ips-total}
use server_metrics.Network.Rejects.{big_endian}
use server_metrics.Error.{Error}
use server_metrics.Map.{lookup, insert, contains}
use server_metrics.Network.Scoring.{score_ports_usage, score_tcp_port, score_udp_port}
use server_metrics.Network.Address.{
  Address, canonical, classify_address, is_loopback, is_link_local_unicast, is_unspecified,
}
use server_metrics.Network.Rejects.{
  ipv4, ipv6, Banned, scan_family, scan_elements, take_element, element_address, element_port,
}
use server_metrics.Network.Bans.{is_port_scan, review_family}
use server_metrics.Network.Bans.Few.{is_port_scan-few}
use server_metrics.Network.Bans.Verdict.{should_ban}
use server_metrics.Network.Deletion.{Call, delete_banned}
use server_metrics.Network.Deletion.Batches.{
  Fitting, flat, delete_banned-batches, delete_banned-whole,
}
use server_metrics.Network.Collector.{Outside, collect_input_rejects}
use server_metrics.Network.Collector.Decides.{rejected, collect_input_rejects-contains}
use server_metrics.Network.Collector.Succeeds.{collect_input_rejects-HasSize}

-- Two ports of one address: telnet and Samba.
abbrev scanner : Address
scanner = 1 ∷ 2 ∷ 3 ∷ 4 ∷ []

abbrev telnet : Bytes
telnet = 1 ∷ 2 ∷ 3 ∷ 4 ∷ 0 ∷ 23 ∷ 0 ∷ 0 ∷ []

abbrev samba : Bytes
samba = 1 ∷ 2 ∷ 3 ∷ 4 ∷ 1 ∷ 189 ∷ 0 ∷ 0 ∷ []

abbrev always : ℕ → Option Error
always n = none

abbrev bans : Banned
bans = (scanner, tt) ∷ []

abbrev elements_left : Outside
elements_left = record {
  networks = ok [];
  sets4 = record { tcp_set = ok (telnet ∷ samba ∷ []); udp_set = ok [] };
  sets6 = record { tcp_set = ok []; udp_set = ok [] };
  answer = always;
}

collect_input_rejects-contains_example : contains scanner bans ≡ (
    should_ban [] scanner (rejected ipv6 [] [] [] scanner)
    || should_ban [] scanner (rejected ipv4 [] (telnet ∷ samba ∷ []) [] scanner))
unfolding collect_input_rejects scan_family scan_elements take_element element_address element_port
    canonical lookup insert contains review_family is_port_scan classify_address is_loopback
    is_link_local_unicast is_unspecified score_tcp_port score_udp_port score_ports_usage
    delete_banned
collect_input_rejects-contains_example =
    collect_input_rejects-contains [] (telnet ∷ samba ∷ []) [] [] [] always [] bans scanner refl

collect_input_rejects-HasSize_example :
    (to_ban : Banned) × (collect_input_rejects [] elements_left ≡ ok to_ban)
collect_input_rejects-HasSize_example =
    collect_input_rejects-HasSize [] (telnet ∷ samba ∷ []) [] [] [] always [] (refl, (refl, tt)) tt
      tt tt (λ n. refl)

abbrev sets : List Call
sets = (codes "tcp4_rejects", telnet ∷ samba ∷ []) ∷ []

delete_banned-batches_example :
    All Fitting (delete_banned always sets).calls
    × (left : List (Bytes × Bytes)) × (flat (delete_banned always sets).calls ++ left ≡ flat sets)
delete_banned-batches_example = delete_banned-batches always sets

delete_banned-whole_example : flat (delete_banned always sets).calls ≡ flat sets
unfolding delete_banned
delete_banned-whole_example = delete_banned-whole always sets refl

is_port_scan-few_example :
    is_port_scan false (record { tcp_ports = 23 ∷ []; udp_ports = 53 ∷ [] }) ≡ false
is_port_scan-few_example =
    is_port_scan-few false (record { tcp_ports = 23 ∷ []; udp_ports = 53 ∷ [] }) (omega arith)
      (omega arith)

-- A connection from the scanner's address over TCP to port 80.
abbrev connection : Bytes
connection = 1 ∷ 2 ∷ 3 ∷ 4 ∷ 8 ∷ 8 ∷ 8 ∷ 8 ∷ 6 ∷ 0 ∷ 0 ∷ 0 ∷ 0 ∷ 80 ∷ 0 ∷ 0 ∷ []

abbrev top_stat : ForwardIpStat
top_stat = record { tcp = (80, 1) ∷ []; udp = []; total = 1 }

collect_forward_ips-total_example :
    connections ipv4 scanner (connection ∷ []) + connections ipv6 scanner [] ≤ 1
unfolding collect_forward_ips forward_address forward_port big_endian canonical lookup insert
collect_forward_ips-total_example =
    collect_forward_ips-total (connection ∷ []) [] scanner {top = some top_stat} refl
