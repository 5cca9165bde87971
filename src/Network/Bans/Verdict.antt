-- ===== src/Network/Bans/Verdict.antt =====
-- An address is banned exactly if it is none of the host's own and its rejected ports look like a
-- scan.
use server_metrics.Base.{
  ◌≡◌, ◌∙◌, ap, refl, sym, Bool, true, false, not, ◌&&◌, ◌||◌, List, [], ◌∷◌, Option, none, some,
  bytes_eq, same, same_iff, if◌then◌else◌, arith, Bool-cases, inl, inr,
}
use server_metrics.Map.{lookup, contains, contains-insert, HasUniqueKeys, lookup_of_contains}
use server_metrics.Network.Address.{Address, Network, classify_address}
use server_metrics.Network.Rejects.{IpStat, Stats}
use server_metrics.Network.Bans.{is_port_scan, Review, review_foreign, review_address, review_stats}

-- What the review decides of an address with these ports.
abbrev pub should_ban : List Network → Address → IpStat → Bool
should_ban networks ip s =
    not (classify_address networks ip).0 && is_port_scan (classify_address networks ip).1 s

abbrev pub should_ban? : List Network → Address → Option IpStat → Bool
should_ban? networks ip none = false
should_ban? networks ip (some s) = should_ban networks ip s

and_true : (b : Bool) → b ≡ (b && true)
and_true true = refl
and_true false = refl

or_false : (a b : Bool) → a ≡ (a || (b && false))
or_false true b = refl
or_false false true = refl
or_false false false = refl

contains-review_foreign :
    (local : Bool) (ip : Address) (s : IpStat) (r : Review) (g : Address)
    → contains g (review_foreign local ip s r).to_ban
      ≡ ((is_port_scan local s && same ip g) || contains g r.to_ban)
unfolding review_foreign
contains-review_foreign true ip s r g =
    ground (arith, contains-insert ip g tt r.to_ban, same_iff ip g)
contains-review_foreign false ip s r g =
    ground (arith, contains-insert ip g tt r.to_ban, same_iff ip g)

contains-review_address :
    (c : Bool × Bool) (ip : Address) (s : IpStat) (r : Review) (g : Address)
    → contains g (review_address c ip s r).to_ban
      ≡ ((not c.0 && is_port_scan c.1 s && same ip g) || contains g r.to_ban)
unfolding review_address
contains-review_address (true, local) ip s r g = refl
contains-review_address (false, local) ip s r g = contains-review_foreign local ip s r g

-- An entry that is met is decided by its own ports.
should_ban?-entry :
    (networks : List Network) (ip : Address) (s : IpStat) (stats : Stats) (g : Address)
    → contains ip stats ≡ false
    → should_ban? networks g (if same ip g then some s else lookup g stats)
      ≡ (should_ban? networks g (lookup g stats) || (should_ban networks ip s && same ip g))
should_ban?-entry networks ip s stats g new = elim (Bool-cases (same ip g)) [
  | inl e ↦
      let p : ip ≡ g = (same_iff ip g).0 e in
      let absent : lookup g stats ≡ none =
        lookup_of_contains g stats (ap (λ x. contains x stats) (sym p) ∙ new) in
      rw (e, absent)
        (ap (λ x. should_ban networks x s) (sym p) ∙ and_true (should_ban networks ip s))
  | inr d ↦ rw d (or_false (should_ban? networks g (lookup g stats)) (should_ban networks ip s))
]

-- The review adds to the bans the addresses that should be banned, and no other.
pub contains-review_stats :
    (networks : List Network) (stats : Stats) (r : Review) (g : Address)
    → HasUniqueKeys stats
    → contains g (review_stats networks stats r).to_ban
      ≡ (should_ban? networks g (lookup g stats) || contains g r.to_ban)
unfolding review_stats lookup
contains-review_stats networks [] r g u = refl
contains-review_stats networks ((ip, s) ∷ stats) r g (new, u) = ground (
  arith,
  contains-review_stats networks stats (review_address (classify_address networks ip) ip s r) g u,
  contains-review_address (classify_address networks ip) ip s r g,
  should_ban?-entry networks ip s stats g new,
)
