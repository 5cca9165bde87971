-- ===== src/Network/Collector/Succeeds.antt =====
-- The collection succeeds where the networks are known, the sets are read and hold elements of the
-- right size, and no call fails.
use server_metrics.Base.{
  ℕ, zero, suc, ◌≡◌, refl, List, [], ◌∷◌, Option, none, Bytes, length, ok, arith, All,
}
use server_metrics.Error.{Error}
use server_metrics.Network.Address.{Network}
use server_metrics.Network.Rejects.{
  Family, ipv4, ipv6, Protocol, tcp, udp, Banned, element_size, take_element, Scan, scan_elements,
  FamilyScan, scan_family,
}
use server_metrics.Network.Bans.{review_family}
use server_metrics.Network.Deletion.{
  Call, then_sets, Deletion, delete_set, delete_sets, delete_banned,
}
use server_metrics.Network.Collector.{collect_input_rejects, to_delete}

-- Every element has the size of an address, a port and two bytes of padding.
abbrev pub HasSize : Family → List Bytes → Type 0
HasSize f keys = All (λ key. length key ≡ element_size f) keys

scan_elements-HasSize :
    (f : Family) (p : Protocol) (banned : Banned) (s : Scan) (keys : List Bytes)
    → HasSize f keys
    → (t : Scan) × (scan_elements f p banned s keys ≡ ok t)
unfolding scan_elements
scan_elements-HasSize f p banned s [] h = (s, refl)
scan_elements-HasSize f p banned s (key ∷ keys) (e, h) =
    let (t, rest) = scan_elements-HasSize f p banned (take_element f p banned s key) keys h in
    (t, ground (arith, e, rest))

scan_family-HasSize :
    (f : Family) (banned : Banned) (tcp_keys udp_keys : List Bytes)
    → HasSize f tcp_keys
    → HasSize f udp_keys
    → (a : FamilyScan) × (scan_family f banned
          (record { tcp_set = ok tcp_keys; udp_set = ok udp_keys })
        ≡ ok a)
unfolding scan_family
scan_family-HasSize f banned tcp_keys udp_keys ht hu =
    let (t, pt) =
      scan_elements-HasSize f tcp banned (record { stats = []; to_delete = [] }) tcp_keys ht in
    let (u, pu) =
      scan_elements-HasSize f udp banned (record { stats = t.stats; to_delete = [] }) udp_keys hu in
    (
      record { stats = u.stats; tcp_deleted = t.to_delete; udp_deleted = u.to_delete },
      rw (pt, pu) refl,
    )

module _ (answer : ℕ → Option Error) (fine : (n : ℕ) → answer n ≡ none) where
  delete_set-failure :
      (set : Bytes) (fuel : ℕ) (keys : List Bytes) (calls : List Call)
      → (delete_set answer set fuel keys calls).failure ≡ none
  unfolding delete_set
  delete_set-failure set zero [] calls = refl
  delete_set-failure set (suc fuel) [] calls = refl
  delete_set-failure set zero (key ∷ keys) calls = refl
  delete_set-failure set (suc fuel) (key ∷ keys) calls =
      rw (fine (length calls)) (delete_set-failure set fuel _ _)

  then_sets-failure :
      (d : Deletion) (next : List Call → Deletion)
      → d.failure ≡ none
      → ((calls : List Call) → (next calls).failure ≡ none)
      → (then_sets d next).failure ≡ none
  then_sets-failure d next h k = rw h (k d.calls)

  delete_sets-failure : (sets calls : List Call) → (delete_sets answer sets calls).failure ≡ none
  unfolding delete_sets
  delete_sets-failure [] calls = refl
  delete_sets-failure ((set, keys) ∷ sets) calls =
      then_sets-failure (delete_set answer set (length keys) keys calls)
        (λ now. delete_sets answer sets now) (delete_set-failure set (length keys) keys calls)
        (delete_sets-failure sets)

-- The collection of input rejects succeeds when the networks of the interfaces are known, all four
-- sets are read without an error, every element of a set has the size of an address of its family, a
-- port and two bytes of padding, and every call that deletes elements succeeds.
pub collect_input_rejects-HasSize :
    (networks : List Network) (tcp4 udp4 tcp6 udp6 : List Bytes) (answer : ℕ → Option Error)
    (banned : Banned)
    → HasSize ipv4 tcp4
    → HasSize ipv4 udp4
    → HasSize ipv6 tcp6
    → HasSize ipv6 udp6
    → ((n : ℕ) → answer n ≡ none)
    → (to_ban : Banned) × (collect_input_rejects banned (record {
      networks = ok networks;
      sets4 = record { tcp_set = ok tcp4; udp_set = ok udp4 };
      sets6 = record { tcp_set = ok tcp6; udp_set = ok udp6 };
      answer = answer;
    })
        ≡ ok to_ban)
unfolding collect_input_rejects delete_banned
collect_input_rejects-HasSize networks tcp4 udp4 tcp6 udp6 answer banned t4 u4 t6 u6 fine =
    let (a, ha) = scan_family-HasSize ipv4 banned tcp4 udp4 t4 u4 in
    let (b, hb) = scan_family-HasSize ipv6 banned tcp6 udp6 t6 u6 in
    (
      (review_family networks (review_family networks [] a.stats).to_ban b.stats).to_ban,
      rw (ha, hb, delete_sets-failure answer fine (to_delete a b) []) refl,
    )
