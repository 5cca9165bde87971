-- ===== src/Map.antt =====
-- A Go map: its entries, in the order in which a `range` loop meets them. A write to a key that is
-- there keeps the place, a new key comes last. Go leaves the order open, so a theorem about a loop
-- holds for every list of entries.
pub mod New
use server_metrics.Base.{
  ◌++◌, ◌||◌, ◌≡◌, refl, subst, Bool, true, false, Option, none, some, List, [], ◌∷◌, arith,
  if◌then◌else◌, Eq,
}

abbrev pub Map {ℓ κ} : Type ℓ → Type κ → Type (ℓ ⊔ κ)
Map K V = List (K × V)

module _ {ℓ κ} {K : Type ℓ} {V : Type κ} ⦃e : Eq K⦄ where
  unfoldable pub lookup : K → Map K V → Option V
  lookup k [] = none
  lookup k ((j, v) ∷ m) = if e.beq j k then some v else lookup k m

  unfoldable pub insert : K → V → Map K V → Map K V
  insert k v [] = (k, v) ∷ []
  insert k v ((j, w) ∷ m) = if e.beq j k then (j, v) ∷ m else (j, w) ∷ insert k v m

  unfoldable pub delete : K → Map K V → Map K V
  delete k [] = []
  delete k ((j, w) ∷ m) = let rest = delete k m in if e.beq j k then rest else (j, w) ∷ rest

  unfoldable pub contains : K → Map K V → Bool
  contains k [] = false
  contains k ((j, v) ∷ m) = if e.beq j k then true else contains k m

  pub lookup-insert :
      (k j : K) (v : V) (m : Map K V)
      → lookup j (insert k v m) ≡ (if e.beq k j then some v else lookup j m)
  unfolding lookup insert
  lookup-insert k j v [] = refl
  lookup-insert k j v ((i, w) ∷ m) =
      ground (arith, e.beq_iff k j, e.beq_iff i k, e.beq_iff i j, lookup-insert k j v m)

  pub lookup-insert_self : (k : K) (v : V) (m : Map K V) → lookup k (insert k v m) ≡ some v
  lookup-insert_self k v m = ground (arith, lookup-insert k k v m, e.beq_iff k k)

  pub lookup-delete :
      (k j : K) (m : Map K V) → lookup j (delete k m) ≡ (if e.beq k j then none else lookup j m)
  unfolding lookup delete
  lookup-delete k j [] = ground arith
  lookup-delete k j ((i, w) ∷ m) =
      ground (arith, e.beq_iff k j, e.beq_iff i k, e.beq_iff i j, lookup-delete k j m)

  pub contains-insert :
      (k j : K) (v : V) (m : Map K V)
      → contains j (insert k v m) ≡ (if e.beq k j then true else contains j m)
  unfolding contains insert
  contains-insert k j v [] = refl
  contains-insert k j v ((i, w) ∷ m) =
      ground (arith, e.beq_iff k j, e.beq_iff i k, e.beq_iff i j, contains-insert k j v m)

  pub contains_of_lookup : (k : K) (m : Map K V) {v : V} → lookup k m ≡ some v → contains k m ≡ true
  unfolding contains lookup
  contains_of_lookup k [] h = cc
  contains_of_lookup k ((j, w) ∷ m) {v} h = ground (arith, contains_of_lookup k m {v = v})

  pub lookup_of_contains : (k : K) (m : Map K V) → contains k m ≡ false → lookup k m ≡ none
  unfolding contains lookup
  lookup_of_contains k [] h = refl
  lookup_of_contains k ((j, w) ∷ m) h = ground (arith, lookup_of_contains k m)

  -- No key stands twice.
  abbrev pub HasUniqueKeys : Map K V → Type 0
  HasUniqueKeys [] = Unit
  HasUniqueKeys ((k, v) ∷ m) = (contains k m ≡ false) × HasUniqueKeys m

  pub insert-HasUniqueKeys :
      (k : K) (v : V) (m : Map K V) → HasUniqueKeys m → HasUniqueKeys (insert k v m)
  unfolding insert contains
  insert-HasUniqueKeys k v [] h = (refl, tt)
  insert-HasUniqueKeys k v ((j, w) ∷ m) (hj, hm) =
      ground (
        arith,
        e.beq_iff j k,
        e.beq_iff k j,
        contains-insert k j v m,
        insert-HasUniqueKeys k v m hm,
      )

  -- A new key comes last.
  pub insert_new :
      (k : K) (v : V) (m : Map K V) → contains k m ≡ false → insert k v m ≡ m ++ ((k, v) ∷ [])
  unfolding insert contains
  insert_new k v [] h = refl
  insert_new k v ((j, w) ∷ m) h = ground (arith, insert_new k v m)

  pub contains-append :
      (k : K) (m n : Map K V) → contains k (m ++ n) ≡ (contains k m || contains k n)
  unfolding contains
  contains-append k [] n = refl
  contains-append k ((j, w) ∷ m) n = ground (arith, contains-append k m n)

  pub HasUniqueKeys-snoc :
      (m : Map K V) (k : K) (v : V)
      → contains k m ≡ false
      → HasUniqueKeys m
      → HasUniqueKeys (m ++ ((k, v) ∷ []))
  HasUniqueKeys-snoc m k v new u =
      subst HasUniqueKeys (insert_new k v m new) (insert-HasUniqueKeys k v m u)
