-- ===== src/Resolvers/Users/Answers.antt =====
-- The names of users are those that the operating system gives.
use server_metrics.Base.{ℤ, ◌≡◌, ap, Bytes, ok, ok_cancel}
use server_metrics.Resolvers.{Lru}
use server_metrics.Resolvers.Truthful.{IsTruthful, IsFair, cached-IsFair}
use server_metrics.Resolvers.Users.{
  Lookup, user, unknown_user, lookup_error, user_name, look_up, resolve,
}

abbrev pub Names : (ℤ → Lookup) → ℤ → Bytes → Type 0
Names lookup_id uid name = lookup_id uid ≡ user name

user_name-ok : (l : Lookup) (name : Bytes) → user_name l ≡ ok name → l ≡ user name
unfolding user_name
user_name-ok (user n) name h = ap user (ok_cancel h)
user_name-ok unknown_user name h = cc
user_name-ok (lookup_error e) name h = cc

look_up-Names :
    (lookup_id : ℤ → Lookup) (d : Unit {0}) (uid : ℤ) (name : Bytes)
    → (look_up lookup_id d uid).0 ≡ ok name
    → Names lookup_id uid name
unfolding look_up
look_up-Names lookup_id d uid name h = user_name-ok (lookup_id uid) name h

-- Where every entry of the cache is the name of its user, the resolver of users returns the name of the
-- user that it is asked for, or an error, and leaves such a cache.
pub resolve_user-IsFair :
    {C : Type 0} (lru : Lru ℤ Bytes C) (lookup_id : ℤ → Lookup) (c : C) (uid : ℤ)
    → IsTruthful lru (look_up lookup_id) (Names lookup_id) c
    → IsFair lru (look_up lookup_id) (Names lookup_id) uid (resolve lru lookup_id (c, tt) uid)
unfolding resolve
resolve_user-IsFair lru lookup_id c uid h =
    cached-IsFair lru (look_up lookup_id) (Names lookup_id) (look_up-Names lookup_id) c tt uid h
