-- ===== src/Resolvers/Truthful.antt =====
-- A cache gives no answer that the resolver behind it did not give.
use server_metrics.Base.{◌≡◌, inl, inr, ap, refl, Option, none, some, Result, ok, err, ok_cancel}
use server_metrics.Error.{Error}
use server_metrics.Resolvers.{Lru, remember, answered, cached}

module _ {K V C D : Type 0} (lru : Lru K V C) (inner : D → K → Result Error V × D)
    (Answers : K → V → Type 0) where
  -- Every entry of the cache is an answer.
  abbrev pub IsTruthful : C → Type 0
  IsTruthful c = (k : K) (v : V) → lru.Has c k v → Answers k v

  -- The result is an answer, or an error, and the cache stays truthful.
  abbrev pub IsFair : K → Result Error V × (C × D) → Type 0
  IsFair k (r, (c, d)) = ((v : V) → r ≡ ok v → Answers k v) × IsTruthful c

  module _ (honest : (d : D) (k : K) (v : V) → (inner d k).0 ≡ ok v → Answers k v) where
    remember-IsFair :
        (c : C) (k : K) (answer : Result Error V × D)
        → ((v : V) → answer.0 ≡ ok v → Answers k v)
        → IsTruthful c
        → IsFair k (remember lru c k answer)
    unfolding remember
    remember-IsFair c k (err e, d) true_answer h = (λ v e. cc, h)
    remember-IsFair c k (ok v, d) true_answer h = (
      true_answer,
      λ j w has. elim (lru.add_keeps c k j v w has) [
        | inl (same_key, same_value) ↦ rw (same_key, same_value) (true_answer v refl)
        | inr earlier ↦ h j w earlier
      ],
    )

    answered-IsFair :
        (d : D) (k : K) (read : Option V × C)
        → ((v : V) → read.0 ≡ some v → Answers k v)
        → IsTruthful read.1
        → IsFair k (answered lru inner d k read)
    unfolding answered
    answered-IsFair d k (some v, c) held h = (λ w e. held w (ap some (ok_cancel e)), h)
    answered-IsFair d k (none, c) held h = remember-IsFair c k (inner d k) (honest d k) h

    -- Where the resolver behind the cache only gives true answers, and all entries of the cache are
    -- such answers, the caching resolver returns a true answer or an error, and leaves such a cache.
    pub cached-IsFair :
        (c : C) (d : D) (k : K) → IsTruthful c → IsFair k (cached lru inner (c, d) k)
    unfolding cached
    cached-IsFair c d k h =
        answered-IsFair d k (lru.get c k) (λ v e. h k v (lru.get_found c k e))
          (λ j v has. h j v (lru.get_keeps c k j v has))
