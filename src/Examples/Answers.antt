-- ===== src/Examples/Answers.antt =====
-- The theorems on resolvers, and on zswap, at concrete inputs.
use mathlib.Core.List.Permᴰ.{swap}
use server_metrics.Base.{
  ◌==◌, same, ◌⊎◌, ◌∙◌, sym, ap, inl, inr, Bool-cases, some_cancel, Eq, ℕ, ◌+◌, ◌*◌, ◌≡◌, ◌↔◌, refl,
  Bool, true, false, [], ◌∷◌, none, some, Bytes, codes, arith, ℤ, pos, negsuc, Result, ok, err,
  if◌then◌else◌, bytes_eq,
}
use server_metrics.Error.{Error, system}
use server_metrics.Map.{Map, lookup, insert, lookup-insert}
use server_metrics.Util.{File}
use server_metrics.Text.{drop_while}
use server_metrics.Cgroups.Classifier.{Container}
use server_metrics.Resolvers.{Lru}
use server_metrics.Resolvers.Truthful.{IsTruthful, IsFair}
use server_metrics.Resolvers.Containers.{
  Service, Inspection, docker_container, podman_container, resolve_docker, resolve_podman,
}
use server_metrics.Resolvers.Containers
use server_metrics.Resolvers.Containers.Answers.{Tells, resolve_containers-IsFair}
use server_metrics.Resolvers.Users.{Lookup, user, look_up}
use server_metrics.Resolvers.Users
use server_metrics.Resolvers.Users.Answers.{Names, resolve_user-IsFair}
use server_metrics.Util.Formatting.{format_list, format_list-Perm}
use server_metrics.Network.Formatting.{format_ip_stat}
use server_metrics.Zswap.{Floats, Files, parameter, observe, read_string}
use server_metrics.Zswap.Disabled.{observe-off}

same_int : ℤ → ℤ → Bool
same_int (pos a) (pos b) = a == b
same_int (negsuc a) (negsuc b) = a == b
same_int _ _ = false

same_int_iff : (a b : ℤ) → (same_int a b ≡ true) ↔ (a ≡ b)
unfolding same_int
same_int_iff (pos a) (pos b) = ground arith
same_int_iff (negsuc a) (negsuc b) = ground arith
same_int_iff (pos a) (negsuc b) = ground arith
same_int_iff (negsuc a) (pos b) = ground arith

instance abbrev int_eq : Eq ℤ
unfolding same_int
int_eq = record { beq = same_int; beq_iff = same_int_iff }

module _ {K V : Type 0} ⦃e : Eq K⦄ where
  inserted :
      (c : Map K V) (k j : K) (v w : V)
      → lookup j (insert k v c) ≡ some w
      → ((j ≡ k) × (w ≡ v)) ⊎ (lookup j c ≡ some w)
  inserted c k j v w h = elim (Bool-cases (e.beq k j)) [
    | inl here ↦
        inl
          (sym ((e.beq_iff k j).0 here), some_cancel (sym h ∙ lookup-insert k j v c ∙ rw here refl))
    | inr there ↦ inr (sym (lookup-insert k j v c ∙ rw there refl) ∙ h)
  ]

  -- A cache that forgets nothing.
  abbrev memory : Lru K V (Map K V)
  memory = record {
    get = λ c k. (lookup k c, c);
    add = λ c k v. insert k v c;
    Has = λ c k v. lookup k c ≡ some v;
    get_found = λ c k h. h;
    get_keeps = λ c k j v h. h;
    add_keeps = inserted;
  }

only_entry : {V : Type 0} (b : Bool) (w v : V) → (if b then some w else none) ≡ some v → w ≡ v
only_entry true w v h = some_cancel h
only_entry false w v h = cc

abbrev docker : Service (Unit {0})
docker = record {
  connect = ok tt;
  inspect =
      λ client id. ok (record { name = codes "/web"; auto_remove = some false; labels = none });
  close = λ client. none;
}

abbrev web : Container
web = record { name = codes "web"; temporary = false }

-- Docker's cache has an entry, and Podman's is empty.
abbrev cache : Map Bytes Container
cache = (codes "1", web) ∷ []

cache-IsTruthful :
    IsTruthful memory
      (Containers.resolve docker docker_container)
      (Tells docker docker_container)
      cache
unfolding docker_container lookup drop_while
cache-IsTruthful k v h = (
  tt,
  record { name = codes "/web"; auto_remove = some false; labels = none },
  refl,
  sym (only_entry (same (codes "1") k) web v h),
)

resolve_containers-IsFair_example :
    IsFair memory
      (Containers.resolve docker docker_container)
      (Tells docker docker_container)
      (codes "1")
      (resolve_docker docker memory (cache, none) (codes "1"))
    × IsFair memory
        (Containers.resolve docker podman_container)
        (Tells docker podman_container)
        (codes "1")
        (resolve_podman docker memory ([], none) (codes "1"))
unfolding lookup
resolve_containers-IsFair_example =
    resolve_containers-IsFair docker docker memory cache [] none none (codes "1") cache-IsTruthful
      (λ k v h. cc)

abbrev lookup_id : ℤ → Lookup
lookup_id uid = user (codes "dmitry")

users-IsTruthful :
    IsTruthful memory (look_up lookup_id) (Names lookup_id) ((pos 1000, codes "dmitry") ∷ [])
unfolding lookup same_int int_eq
users-IsTruthful k v h = ap user (only_entry (same_int (pos 1000) k) (codes "dmitry") v h)

resolve_user-IsFair_example :
    IsFair memory
      (look_up lookup_id)
      (Names lookup_id)
      (pos 1000)
      (Users.resolve memory lookup_id ((pos 1000, codes "dmitry") ∷ [], tt) (pos 1000))
resolve_user-IsFair_example =
    resolve_user-IsFair memory lookup_id ((pos 1000, codes "dmitry") ∷ []) (pos 1000)
      users-IsTruthful

-- Values are kept as they are, and all arithmetic is that of natural numbers.
abbrev floats : Floats ℕ
floats = record {
  of_uint = λ n. n;
  plus = ◌+◌;
  times = ◌*◌;
  over = λ a b. a;
  is_zero = λ a. a == 0;
}

abbrev text_file : Bytes → Result Error File
text_file content =
    ok (record { reader = record { content = content; failure = none }; close_failure = none })

-- It is disabled, and there are no statistics.
abbrev parameters : Files
parameters path =
    if same path (parameter (codes "enabled"))
    then text_file (codes "N")
    else if same path (parameter (codes "compressor"))
    then text_file (codes "lzo")
    else if same path (parameter (codes "max_pool_percent"))
    then text_file (codes "20")
    else err (system 2)

-- The same, with statistics.
abbrev statistics : Files
statistics path = elim (parameters path) [ ok f ↦ ok f | err e ↦ text_file (codes "77") ]

observe-off_example : observe floats parameters 4096 ≡ observe floats statistics 8192
unfolding read_string
observe-off_example = observe-off floats parameters statistics 4096 8192 refl refl refl refl

format_list-Perm_example : format_list (443 ∷ 80 ∷ []) true ≡ format_list (80 ∷ 443 ∷ []) true
format_list-Perm_example = format_list-Perm (swap refl refl)

format_ip_stat_test :
    format_ip_stat (record { tcp_ports = 443 ∷ 80 ∷ []; udp_ports = [] })
    ≡ codes "2 TCP (80, 443), 0 UDP ()"
unfolding format_ip_stat
format_ip_stat_test = refl
