-- ===== src/Map/New.antt =====
-- Entries that a map does not have yet.
use server_metrics.Base.{◌≡◌, refl, false, [], ◌∷◌, ◌++◌, Bytes, bytes_eq, arith, same_iff}
use server_metrics.Map.{Map, contains, contains-append, HasUniqueKeys}

module _ {ℓ} {V : Type ℓ} where
  -- No key of the second is a key of the first.
  abbrev pub AreNew : Map Bytes V → Map Bytes V → Type 0
  AreNew m [] = Unit
  AreNew m ((name, value) ∷ more) = (contains name m ≡ false) × AreNew m more

  pub AreNew-snoc :
      (m : Map Bytes V) (name : Bytes) (value : V) (more : Map Bytes V)
      → HasUniqueKeys ((name, value) ∷ more)
      → AreNew m more
      → AreNew (m ++ ((name, value) ∷ [])) more
  unfolding contains
  AreNew-snoc m name value [] u h = tt
  AreNew-snoc m name value ((n, v) ∷ more) u (hn, h) = ground (
    arith,
    contains-append n m ((name, value) ∷ []),
    same_iff name n,
    same_iff n name,
    AreNew-snoc m name value more,
  )

  pub AreNew-unsnoc :
      (m : Map Bytes V) (name : Bytes) (value : V) (more : Map Bytes V)
      → AreNew (m ++ ((name, value) ∷ [])) more
      → AreNew m more × (contains name more ≡ false)
  unfolding contains
  AreNew-unsnoc m name value [] h = (tt, refl)
  AreNew-unsnoc m name value ((n, v) ∷ more) (hn, h) = ground (
    arith,
    contains-append n m ((name, value) ∷ []),
    same_iff name n,
    same_iff n name,
    AreNew-unsnoc m name value more,
  )

  pub AreNew-nil : (more : Map Bytes V) → AreNew [] more
  unfolding contains
  AreNew-nil [] = tt
  AreNew-nil (e ∷ more) = (refl, AreNew-nil more)
