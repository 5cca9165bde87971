-- ===== src/Network/Rejects/Ports.antt =====
-- The scan gathers, for each address that is not banned, the ports of its elements in their order.
use server_metrics.Base.{
  ℕ, ◌≡◌, ◌∙◌, ap, sym, refl, Bool, true, false, not, ◌&&◌, List, [], ◌∷◌, ◌++◌, append_assoc,
  append-nil, some, Bytes, bytes_eq, same, same_iff, ◌==◌, if◌then◌else◌, length, Bool-cases, inl,
  inr, Result, ok, err,
}
use server_metrics.Error.{Error}
use server_metrics.Map.{lookup, contains, lookup-insert, HasUniqueKeys, insert-HasUniqueKeys}
use server_metrics.Network.Address.{Address}
use server_metrics.Network.Rejects.{
  Family, Protocol, tcp, udp, IpStat, Stats, Banned, ports_of, add_port, stat_or_new,
  element_address, element_port, element_size, Scan, take_element, scan_elements,
}

-- The ports of the elements of one address.
abbrev pub ports_from : Family → Address → List Bytes → List ℕ
ports_from f ip [] = []
ports_from f ip (key ∷ keys) =
    if same (element_address f key) ip
    then element_port f key ∷ ports_from f ip keys
    else ports_from f ip keys

-- The elements of banned addresses.
abbrev pub banned_elements : Family → Banned → List Bytes → List Bytes
banned_elements f banned [] = []
banned_elements f banned (key ∷ keys) =
    if contains (element_address f key) banned
    then key ∷ banned_elements f banned keys
    else banned_elements f banned keys

abbrev pub ports_at : Protocol → Address → Stats → List ℕ
ports_at p ip stats = ports_of p (stat_or_new (lookup ip stats))

abbrev is_same : Protocol → Protocol → Bool
is_same tcp tcp = true
is_same udp udp = true
is_same _ _ = false

-- The ports that an element adds to those of an address and a protocol.
abbrev added : Family → Protocol → Banned → Bytes → Protocol → Address → List ℕ
added f p banned key q ip =
    if not (contains (element_address f key) banned)
      && same (element_address f key) ip
      && is_same p q
    then element_port f key ∷ []
    else []

ports_of-add_port :
    (p q : Protocol) (port : ℕ) (s : IpStat)
    → ports_of q (add_port p port s) ≡ ports_of q s ++ (if is_same p q then port ∷ [] else [])
ports_of-add_port tcp tcp port s = refl
ports_of-add_port tcp udp port s = sym (append-nil s.udp_ports)
ports_of-add_port udp tcp port s = sym (append-nil s.tcp_ports)
ports_of-add_port udp udp port s = refl

ports_at-entry :
    (f : Family) (p : Protocol) (s : Scan) (key : Bytes) (q : Protocol) (ip : Address)
    → ports_of q (
        stat_or_new (
          if same (element_address f key) ip
          then some (
              add_port p
                (element_port f key)
                (stat_or_new (lookup (element_address f key) s.stats)))
          else lookup ip s.stats))
      ≡ ports_at q ip s.stats
        ++ (if same (element_address f key) ip && is_same p q then element_port f key ∷ [] else [])
ports_at-entry f p s key q ip = elim (Bool-cases (same (element_address f key) ip)) [
  | inl e ↦ rw (
    e,
    ports_of-add_port p q (element_port f key)
        (stat_or_new (lookup (element_address f key) s.stats)),
    (same_iff (element_address f key) ip).0 e,
  )
  | inr d ↦ rw d (sym (append-nil (ports_at q ip s.stats)))
]

ports_at-take_element :
    (f : Family) (p : Protocol) (banned : Banned) (s : Scan) (key : Bytes) (q : Protocol)
    (ip : Address)
    → ports_at q ip (take_element f p banned s key).stats
      ≡ ports_at q ip s.stats ++ added f p banned key q ip
unfolding take_element
ports_at-take_element f p banned s key q ip =
    elim (Bool-cases (contains (element_address f key) banned)) [
      | inl b ↦ rw b (sym (append-nil (ports_at q ip s.stats)))
      | inr b ↦
          rw
            (
              b,
              lookup-insert (element_address f key) ip
                  (add_port p (element_port f key)
                    (stat_or_new (lookup (element_address f key) s.stats)))
                  s.stats,
            )
            (ports_at-entry f p s key q ip)
    ]

take_element-deleted :
    (f : Family) (p : Protocol) (banned : Banned) (s : Scan) (key : Bytes)
    → (take_element f p banned s key).to_delete ≡ s.to_delete ++ banned_elements f banned (key ∷ [])
unfolding take_element
take_element-deleted f p banned s key =
    elim (Bool-cases (contains (element_address f key) banned)) [
      | inl b ↦ rw b refl
      | inr b ↦ rw b (sym (append-nil s.to_delete))
    ]

take_element_unique :
    (f : Family) (p : Protocol) (banned : Banned) (s : Scan) (key : Bytes)
    → HasUniqueKeys s.stats
    → HasUniqueKeys (take_element f p banned s key).stats
unfolding take_element
take_element_unique f p banned s key u =
    elim (Bool-cases (contains (element_address f key) banned)) [
      | inl b ↦ rw b u
      | inr b ↦ rw b (insert-HasUniqueKeys (element_address f key) _ s.stats u)
    ]

-- What a scan of a set adds to the ports of an address and a protocol.
abbrev pub gathered : Family → Protocol → Banned → List Bytes → Protocol → Address → List ℕ
gathered f p banned keys q ip =
    if not (contains ip banned) && is_same p q then ports_from f ip keys else []

when_same :
    (b c : Bool) (port : ℕ) (ports : List ℕ)
    → (if b && true && c then port ∷ [] else []) ++ (if b && c then ports else [])
      ≡ (if b && c then port ∷ ports else [])
when_same true true port ports = refl
when_same true false port ports = refl
when_same false c port ports = refl

when_other :
    (b c : Bool) (port : ℕ) (ports : List ℕ)
    → (if b && false && c then port ∷ [] else []) ++ ports ≡ ports
when_other true c port ports = refl
when_other false c port ports = refl

gathered-step :
    (f : Family) (p : Protocol) (banned : Banned) (key : Bytes) (keys : List Bytes) (q : Protocol)
    (ip : Address)
    → added f p banned key q ip ++ gathered f p banned keys q ip
      ≡ gathered f p banned (key ∷ keys) q ip
gathered-step f p banned key keys q ip = elim (Bool-cases (same (element_address f key) ip)) [
  | inl e ↦
      rw (e, (same_iff (element_address f key) ip).0 e)
        (when_same (not (contains ip banned)) (is_same p q) (element_port f key)
          (ports_from f ip keys))
  | inr d ↦ rw d (
      when_other (not (contains (element_address f key) banned)) (is_same p q) (element_port f key)
        (gathered f p banned keys q ip))
]

nothing_gathered :
    (f : Family) (p : Protocol) (banned : Banned) (q : Protocol) (ip : Address) (ports : List ℕ)
    → ports ≡ ports ++ gathered f p banned [] q ip
nothing_gathered f p banned q ip ports = neither (not (contains ip banned) && is_same p q)
  where
    neither : (b : Bool) → ports ≡ ports ++ (if b then [] else [])
    neither true = sym (append-nil ports)
    neither false = sym (append-nil ports)

banned_elements-cons :
    (f : Family) (banned : Banned) (key : Bytes) (keys : List Bytes)
    → banned_elements f banned (key ∷ []) ++ banned_elements f banned keys
      ≡ banned_elements f banned (key ∷ keys)
banned_elements-cons f banned key keys = by_test (contains (element_address f key) banned)
  where
    by_test :
        (b : Bool)
        → (if b then key ∷ [] else []) ++ banned_elements f banned keys
          ≡ (if b then key ∷ banned_elements f banned keys else banned_elements f banned keys)
    by_test true = refl
    by_test false = refl

ok_cancel : {s t : Scan} → Path (Result Error Scan) (ok s) (ok t) → s ≡ t
ok_cancel h = cc

if-eq-ok :
    (b : Bool) (m : Result Error Scan) (e : Error) {t : Scan}
    → (if b then m else err e) ≡ ok t
    → m ≡ ok t
if-eq-ok true m e h = h
if-eq-ok false m e h = absurd (cc h)

-- A scan that succeeds adds to the ports of each address those of its elements, and to the elements
-- to delete those of banned addresses.
pub scan_elements-eq-ok :
    (f : Family) (p : Protocol) (banned : Banned) (s : Scan) (keys : List Bytes) {t : Scan}
    → scan_elements f p banned s keys ≡ ok t
    → HasUniqueKeys s.stats
    → HasUniqueKeys t.stats
      × (t.to_delete ≡ s.to_delete ++ banned_elements f banned keys)
      × ((q : Protocol) (ip : Address)
          → ports_at q ip t.stats ≡ ports_at q ip s.stats ++ gathered f p banned keys q ip)
unfolding scan_elements
scan_elements-eq-ok f p banned s [] {t} h u = rw (sym (ok_cancel h)) (
  u,
  sym (append-nil s.to_delete),
  λ q ip. nothing_gathered f p banned q ip (ports_at q ip s.stats),
)
scan_elements-eq-ok f p banned s (key ∷ keys) {t} h u =
    let next : Scan = take_element f p banned s key in
    let (unique, deleted, ports) =
      scan_elements-eq-ok f p banned next keys (if-eq-ok (length key == element_size f) _ _ h)
        (take_element_unique f p banned s key u) in
    (
      unique,
      deleted
          ∙ ap (λ l. l ++ banned_elements f banned keys) (take_element-deleted f p banned s key)
          ∙ append_assoc s.to_delete (banned_elements f banned (key ∷ []))
              (banned_elements f banned keys)
          ∙ ap (λ l. s.to_delete ++ l) (banned_elements-cons f banned key keys),
      λ q ip.
          ports q ip
          ∙ ap (λ l. l ++ gathered f p banned keys q ip)
              (ports_at-take_element f p banned s key q ip)
          ∙ append_assoc (ports_at q ip s.stats) (added f p banned key q ip)
              (gathered f p banned keys q ip)
          ∙ ap (λ l. ports_at q ip s.stats ++ l) (gathered-step f p banned key keys q ip),
    )
