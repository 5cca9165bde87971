-- ===== src/Network/Scoring/Bounds.antt =====
-- Scores add up, and no port counts more than three.

use server_metrics.Base.{
  ℕ, ◌+◌, ◌*◌, ◌≤◌, ◌≡◌, Bool, true, false, List, [], ◌∷◌, arith, length, Bool-cases, inl, inr,
}
use server_metrics.Network.Scoring.{
  ScorePort, is_one_of, local_tcp_ports, scanned_tcp_ports, local_udp_ports, scanned_udp_ports,
  score_tcp_port, score_udp_port, add_scores, score_ports_usage, local_only_port,
}

local_only_port-le : (local : Bool) → local_only_port local ≤ 3
unfolding local_only_port
local_only_port-le true = omega arith
local_only_port-le false = omega arith

pub score_tcp_port-le : (port : ℕ) (local : Bool) → score_tcp_port port local ≤ 3
unfolding score_tcp_port
score_tcp_port-le port local = elim (Bool-cases (is_one_of port local_tcp_ports)) [
  | inl a ↦ rw a (local_only_port-le local)
  | inr a ↦ elim (Bool-cases (is_one_of port scanned_tcp_ports)) [
    | inl b ↦ rw (a, b) (omega arith)
    | inr b ↦ rw (a, b) (omega arith)
  ]
]

pub score_udp_port-le : (port : ℕ) (local : Bool) → score_udp_port port local ≤ 3
unfolding score_udp_port
score_udp_port-le port local = elim (Bool-cases (is_one_of port local_udp_ports)) [
  | inl a ↦ rw a (local_only_port-le local)
  | inr a ↦ elim (Bool-cases (is_one_of port scanned_udp_ports)) [
    | inl b ↦ rw (a, b) (omega arith)
    | inr b ↦ rw (a, b) (omega arith)
  ]
]

module _ (local : Bool) (score_func : ScorePort) where
  -- The scores of the ports, added up.
  abbrev pub total_score : List ℕ → ℕ
  total_score [] = 0
  total_score (p ∷ ps) = score_func p local + total_score ps

  add_scores-total :
      (score : ℕ) (ports : List ℕ)
      → add_scores score ports local score_func ≡ score + total_score ports
  unfolding add_scores
  add_scores-total score [] = omega arith
  add_scores-total score (p ∷ ps) = omega (arith, add_scores-total (score + score_func p local) ps)

  pub score_ports_usage-total :
      (ports : List ℕ) → score_ports_usage ports local score_func ≡ total_score ports
  unfolding score_ports_usage
  score_ports_usage-total ports = omega (arith, add_scores-total 0 ports)

  pub total_score-le :
      ((port : ℕ) → score_func port local ≤ 3)
      → (ports : List ℕ) → total_score ports ≤ 3 * length ports
  total_score-le h [] = omega arith
  total_score-le h (p ∷ ps) = omega (arith, h p, total_score-le h ps)
