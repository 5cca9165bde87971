-- ===== src/Resolvers/Users.antt =====
-- internal/users/resolver.go: the names of users.
pub mod Answers
use server_metrics.Base.{ℤ, Bytes, Result, ok, err}
use server_metrics.Error.{Error, invalid_user_id}
use server_metrics.Resolvers.{Lru, cached}

-- What `user.LookupId` answers.
pub data Lookup : Type 0 where
  user : Bytes → Lookup
  -- UnknownUserIdError
  unknown_user : Lookup
  lookup_error : Error → Lookup

unfoldable pub user_name : Lookup → Result Error Bytes
user_name (user name) = ok name
user_name unknown_user = err invalid_user_id
user_name (lookup_error e) = err e

-- The lookup of the operating system has no state.
unfoldable pub look_up : (ℤ → Lookup) → Unit {0} → ℤ → Result Error Bytes × Unit {0}
unfolding user_name
look_up lookup_id d uid = (user_name (lookup_id uid), d)

-- `Resolve`
unfoldable pub resolve :
    {C : Type 0}
    → Lru ℤ Bytes C
    → (ℤ → Lookup)
    → C × Unit {0}
    → ℤ
    → Result Error Bytes × (C × Unit {0})
unfolding cached look_up
resolve lru lookup_id s uid = cached lru (look_up lookup_id) s uid
