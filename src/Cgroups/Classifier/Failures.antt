-- ===== src/Cgroups/Classifier/Failures.antt =====
-- Which errors a classification may return: its parts.
pub mod Groups
use server_metrics.Base.{
  ◌≡◌, subst, refl, Bool, true, false, ◌&&◌, List, [], ◌∷◌, ◌++◌, Option, none, some, Bytes, codes,
  ℤ, Result, ok, err, ◌>>=◌, if◌then◌else◌, arith, is_empty, same,
}
use server_metrics.Error.{Error, invalid_number, unresolved_user}
use server_metrics.Text.{has_prefix, has_suffix, replace_all, parse_int}
use server_metrics.Regexp.{Captures, find_submatch, captured}
use server_metrics.Cgroups.Classifier.Patterns.{
  system_slice_path, podman_builder_path, podman_container_path, podman_healthcheck_path,
  user_slice_name, user_slice_path, snap_scope_name,
}
use server_metrics.Cgroups.Classifier.Paths.{split_path, clean_path}
use server_metrics.Cgroups.Classifier.Trims.{trim-docker, trim-service}
use server_metrics.Cgroups.Classifier.{
  Container, Classifier, Context, Verdict, classify, classify_total, unclassified, session,
  system_context, trim, resolved_user, user_context, get_user_context, classify_supplementary_child,
  dbus_service, container_service, docker_container, classify_other_child,
  classify_service_slice_child, classify_slice_child, matched_context, podman_service,
  podman_builder, podman_container, podman_healthcheck, user_service, classify_user,
  classify_user_child, classify_user_slice, classify_by_parent, classify_nested, classify_path,
  classify_slice,
}

-- The resolver that an error comes from, or the user ID that is no number of the machine.
pub data Fails (c : Classifier) : Error → Type 0 where
  docker_failed : (id : Bytes) {e : Error} → c.docker id ≡ err e → Fails c e
  podman_failed : (id : Bytes) {e : Error} → c.podman id ≡ err e → Fails c e
  user_failed : (uid : ℤ) {e : Error} → c.users uid ≡ err e → Fails c (unresolved_user uid e)
  not_a_number : (uid : Bytes) → parse_int uid ≡ none → Fails c (invalid_number uid)

module _ (c : Classifier) where
  -- The error of a result, if it has one, is one of those.
  unfoldable pub Explained {ℓ} : {A : Type ℓ} → Result Error A → Type 0
  Explained (ok a) = Unit
  Explained (err e) = Fails c e

  pub bind-Explained {ℓ κ} :
      {A : Type ℓ} {B : Type κ} (m : Result Error A) (f : A → Result Error B)
      → Explained m
      → ((a : A) → Explained (f a))
      → Explained (m >>= f)
  unfolding Explained
  bind-Explained (ok a) f h k = k a
  bind-Explained (err e) f h k = h

  pub if-Explained {ℓ} :
      {A : Type ℓ} (b : Bool) (x y : Result Error A)
      → (b ≡ true → Explained x)
      → Explained y
      → Explained (if b then x else y)
  if-Explained true x y h k = h refl
  if-Explained false x y h k = k

  succeeds-Explained {ℓ} : {A : Type ℓ} (m : Result Error A) → (a : A) × (m ≡ ok a) → Explained m
  unfolding Explained
  succeeds-Explained m (a, h) = rw h tt

  resolved_user-Explained :
      (uid : ℤ) (r : Result Error Bytes) → c.users uid ≡ r → Explained (resolved_user uid r)
  unfolding Explained resolved_user
  resolved_user-Explained uid (ok name) h = tt
  resolved_user-Explained uid (err e) h = user_failed uid h

  user_context-Explained :
      (uid_match : Bytes) (o : Option ℤ)
      → parse_int uid_match ≡ o
      → Explained (user_context c o uid_match)
  unfolding Explained user_context
  user_context-Explained uid_match none h = not_a_number uid_match h
  user_context-Explained uid_match (some uid) h = resolved_user-Explained uid (c.users uid) refl

  pub get_user_context-Explained : (uid_match : Bytes) → Explained (get_user_context c uid_match)
  unfolding get_user_context
  get_user_context-Explained uid_match = user_context-Explained uid_match (parse_int uid_match) refl

  docker-Explained :
      (id text : Bytes) (r : Result Error Container)
      → c.docker id ≡ r
      → Explained (container_service r text)
  unfolding Explained
  docker-Explained id text (ok found) h = tt
  docker-Explained id text (err e) h = docker_failed id h

  pub podman-Explained :
      (id text : Bytes) (r : Result Error Container)
      → c.podman id ≡ r
      → Explained (container_service r text)
  unfolding Explained
  podman-Explained id text (ok found) h = tt
  podman-Explained id text (err e) h = podman_failed id h

  pub classify_total-Explained :
      (ctx : Context) (service : Bytes) (exclude : List Bytes)
      → Explained (classify_total ctx service exclude)
  unfolding Explained classify_total
  classify_total-Explained ctx service exclude = tt

  pub classify-Explained : (ctx : Context) (service : Bytes) → Explained (classify ctx service)
  unfolding Explained classify
  classify-Explained ctx service = tt

  pub unclassified-Explained : Explained unclassified
  unfolding Explained
  unclassified-Explained = tt

  pub session-Explained : (user : Context) → Explained (session user)
  unfolding Explained
  session-Explained user = tt

  pub supplementary-Explained :
      (ctx : Context) (name : Bytes) → Explained (classify_supplementary_child ctx name)
  unfolding classify_supplementary_child
  supplementary-Explained ctx name =
      if-Explained _ _ _ (λ h. classify-Explained ctx name) unclassified-Explained

  docker_container-Explained :
      (ctx : Context) (name : Bytes)
      → has_prefix name (codes "docker-") ≡ true
      → has_suffix name (codes ".scope") ≡ true
      → Explained (docker_container c ctx name)
  unfolding docker_container
  docker_container-Explained ctx name p s =
      bind-Explained _ _ (succeeds-Explained _ (trim-docker name p s)) (λ id.
        bind-Explained _ _ (docker-Explained id _ (c.docker id) refl)
          (λ service. classify-Explained ctx service))

  snap-Explained :
      (ctx : Context) (o : Option (Bytes × Captures))
      → Explained (elim o [ none ↦ unclassified | some (_, caps) ↦ classify ctx (captured 1 caps) ])
  snap-Explained ctx none = unclassified-Explained
  snap-Explained ctx (some (rest, caps)) = classify-Explained ctx (captured 1 caps)

  other_child-Explained : (ctx : Context) (name : Bytes) → Explained (classify_other_child ctx name)
  unfolding classify_other_child
  other_child-Explained ctx name =
      if-Explained _ _ _ (λ h. classify-Explained ctx (codes "docker-builder"))
        (snap-Explained ctx (find_submatch snap_scope_name name))

  by_suffix-Explained :
      (ctx : Context) (name : Bytes)
      → Explained (
          if has_suffix name (codes ".service")
          then (trim [] name (codes ".service") >>= λ service. classify_total ctx service [])
          else if has_prefix name (codes "docker-") && has_suffix name (codes ".scope")
          then docker_container c ctx name
          else classify_other_child ctx name)
  by_suffix-Explained ctx name =
      if-Explained _ _ _
        (λ s.
          bind-Explained _ _ (succeeds-Explained _ (trim-service name s))
            (λ service. classify_total-Explained ctx service []))
        (if-Explained _ _ _ (λ h. docker_container-Explained ctx name (ground arith) (ground arith))
          (other_child-Explained ctx name))

  service_child-Explained :
      (ctx : Context) (name : Bytes) → Explained (classify_service_slice_child c ctx name)
  unfolding classify_service_slice_child
  service_child-Explained ctx name = activated (dbus_service ctx name)
    where
      activated :
          (o : Option Bytes)
          → Explained (elim o [
            | some service ↦ classify_total ctx service []
            | none ↦
                if has_suffix name (codes ".service")
                then (trim [] name (codes ".service") >>= λ service. classify_total ctx service [])
                else if has_prefix name (codes "docker-") && has_suffix name (codes ".scope")
                then docker_container c ctx name
                else classify_other_child ctx name
          ])
      activated (some service) = classify_total-Explained ctx service []
      activated none = by_suffix-Explained ctx name

  pub slice_child-Explained :
      (ctx : Context) (child : Bytes) → Explained (classify_slice_child c ctx child)
  unfolding classify_slice_child
  slice_child-Explained ctx child =
      or_supplementary (classify_service_slice_child c ctx child)
        (service_child-Explained ctx child)
    where
      or_supplementary :
          (v : Verdict)
          → Explained v
          → Explained (elim v [
            | err e ↦ err e
            | ok (some found) ↦ ok (some found)
            | ok none ↦ classify_supplementary_child ctx child
          ])
      or_supplementary (err e) h = h
      or_supplementary (ok (some found)) h = h
      or_supplementary (ok none) h = supplementary-Explained ctx child
