-- ===== src/Resolvers.antt =====
-- internal/containers/cache.go, internal/users/resolver.go: resolvers that remember their answers in a
-- cache of a library, which may forget an entry at any time.
pub mod Truthful
pub mod Containers
pub mod Users
use server_metrics.Base.{◌≡◌, ◌⊎◌, Option, none, some, Result, ok, err}
use server_metrics.Error.{Error}

-- The libraries golang-lru, with what the resolvers rely on: an entry that is read was added, reading
-- adds none, and adding one adds no other.
pub record Lru (K V C : Type 0) : Type 1 where
  pub get : C → K → Option V × C
  pub add : C → K → V → C
  pub Has : C → K → V → Type 0
  pub get_found : (c : C) (k : K) {v : V} → (get c k).0 ≡ some v → Has c k v
  pub get_keeps : (c : C) (k j : K) (v : V) → Has (get c k).1 j v → Has c j v
  pub add_keeps :
      (c : C) (k j : K) (v w : V) → Has (add c k v) j w → ((j ≡ k) × (w ≡ v)) ⊎ Has c j w

module _ {K V C D : Type 0} (lru : Lru K V C) where
  -- What is done with the answer of the resolver behind the cache, which has a state of its own.
  unfoldable pub remember : C → K → Result Error V × D → Result Error V × (C × D)
  remember c k (err e, d) = (err e, (c, d))
  remember c k (ok v, d) = (ok v, (lru.add c k v, d))

  unfoldable pub answered :
      (D → K → Result Error V × D) → D → K → Option V × C → Result Error V × (C × D)
  unfolding remember
  answered inner d k (some v, c) = (ok v, (c, d))
  answered inner d k (none, c) = remember c k (inner d k)

  -- `cachingResolver.Resolve`
  unfoldable pub cached : (D → K → Result Error V × D) → C × D → K → Result Error V × (C × D)
  unfolding answered
  cached inner (c, d) k = answered inner d k (lru.get c k)
