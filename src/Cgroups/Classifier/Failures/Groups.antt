-- ===== src/Cgroups/Classifier/Failures/Groups.antt =====
-- Which errors a classification may return.
use server_metrics.Base.{
  ◌≡◌, subst, refl, [], ◌∷◌, ◌++◌, Option, none, some, Bytes, codes, ok, err, ◌>>=◌, if◌then◌else◌,
  is_empty, same,
}
use server_metrics.Error.{Error}
use server_metrics.Text.{replace_all}
use server_metrics.Regexp.{Captures, find_submatch, captured}
use server_metrics.Cgroups.Classifier.Patterns.{
  system_slice_path, podman_builder_path, podman_container_path, podman_healthcheck_path,
  user_slice_name, user_slice_path,
}
use server_metrics.Cgroups.Classifier.Paths.{split_path, clean_path}
use server_metrics.Cgroups.Classifier.{
  Classifier, Context, classify, classify_total, unclassified, session, system_context,
  get_user_context, classify_supplementary_child, classify_slice_child, matched_context,
  podman_service, podman_builder, podman_container, podman_healthcheck, user_service, classify_user,
  classify_user_child, classify_user_slice, classify_by_parent, classify_nested, classify_path,
  classify_slice,
}
use server_metrics.Cgroups.Classifier.Failures.{
  Fails, Explained, bind-Explained, if-Explained, get_user_context-Explained, podman-Explained,
  classify_total-Explained, classify-Explained, unclassified-Explained, session-Explained,
  supplementary-Explained, slice_child-Explained,
}

module _ (c : Classifier) where
  matched_context-Explained : (uid_match : Bytes) → Explained c (matched_context c uid_match)
  unfolding matched_context Explained
  matched_context-Explained uid_match =
      if-Explained c (is_empty uid_match) (ok system_context) _ (λ h. tt)
        (get_user_context-Explained c uid_match)

  podman_service-Explained : (id : Bytes) → Explained c (podman_service c id)
  podman_service-Explained id = podman-Explained c id _ (c.podman id) refl

  builder-Explained : (caps : Captures) → Explained c (podman_builder c caps)
  unfolding podman_builder
  builder-Explained caps =
      bind-Explained c _ _ (matched_context-Explained (captured 1 caps))
        (λ slice. classify_total-Explained c slice _ [])

  container-Explained : (caps : Captures) → Explained c (podman_container c caps)
  unfolding podman_container
  container-Explained caps =
      bind-Explained c _ _ (podman_service-Explained (captured 2 caps))
        (λ service. classify_total-Explained c system_context _ [])

  healthcheck-Explained : (caps : Captures) → Explained c (podman_healthcheck c caps)
  unfolding podman_healthcheck
  healthcheck-Explained caps =
      if-Explained c (is_empty (captured 1 caps))
        (podman_service c (captured 2 caps) >>= λ service.
          classify_total system_context (service ++ codes "/healthcheck") [])
        _
        (λ h. bind-Explained c _ _ (podman_service-Explained (captured 2 caps)) (λ service.
          classify_total-Explained c system_context (service ++ codes "/healthcheck") []))
        (bind-Explained c _ _ (get_user_context-Explained c (captured 1 caps))
          (λ user. classify_total-Explained c user (codes "podman-containers/healthcheck") []))

  user-Explained : (child : Bytes) → Explained c (classify_user c child)
  unfolding classify_user
  user-Explained child = found_user (find_submatch user_slice_name child)
    where
      found_user :
          (o : Option (Bytes × Captures))
          → Explained c (elim o [
            | none ↦ unclassified
            | some (_, caps) ↦ get_user_context c (captured 1 caps) >>= λ user.
                classify_total user (codes "sessions") (user_service (captured 1 caps) ∷ [])
          ])
      found_user none = (unclassified-Explained c)
      found_user (some (rest, caps)) =
          bind-Explained c _ _ (get_user_context-Explained c (captured 1 caps))
            (λ user. classify_total-Explained c user _ _)

  user_child-Explained :
      (user : Context) (caps : Captures) (child : Bytes)
      → Explained c (classify_user_child c user caps child)
  unfolding classify_user_child
  user_child-Explained user caps child =
      if-Explained c (is_empty (captured 3 caps))
        (if same child (user_service (captured 2 caps)) then session user else unclassified) _
        (λ h.
          if-Explained c (same child (user_service (captured 2 caps))) _ _
            (λ k. session-Explained c user) (unclassified-Explained c))
        (if-Explained c (is_empty (captured 4 caps))
          (if same child (codes "init.scope") then classify user (codes "init") else unclassified) _
          (λ h.
            if-Explained c (same child (codes "init.scope")) _ _
              (λ k. classify-Explained c user (codes "init")) (unclassified-Explained c))
          (slice_child-Explained c user child))

  user_slice-Explained :
      (caps : Captures) (child : Bytes) → Explained c (classify_user_slice c caps child)
  unfolding classify_user_slice
  user_slice-Explained caps child =
      if-Explained c (is_empty (captured 1 caps)) (classify_user c child) _
        (λ h. user-Explained child)
        (bind-Explained c _ _ (get_user_context-Explained c (captured 2 caps))
          (λ user. user_child-Explained user caps child))

  by_parent-Explained : (parent child : Bytes) → Explained c (classify_by_parent c parent child)
  unfolding classify_by_parent
  by_parent-Explained parent child = in_system (find_submatch system_slice_path parent)
    where
      in_user :
          (o : Option (Bytes × Captures))
          → Explained c
              (elim o [ some (_, caps) ↦ classify_user_slice c caps child | none ↦ unclassified ])
      in_user none = (unclassified-Explained c)
      in_user (some (rest, caps)) = user_slice-Explained caps child

      in_system :
          (o : Option (Bytes × Captures))
          → Explained c (elim o [
            | some _ ↦ classify_slice_child c system_context child
            | none ↦ elim (find_submatch user_slice_path parent) [
              | some (_, caps) ↦ classify_user_slice c caps child
              | none ↦ unclassified
            ]
          ])
      in_system (some found) = slice_child-Explained c system_context child
      in_system none = in_user (find_submatch user_slice_path parent)

  nested-Explained : (name parent child : Bytes) → Explained c (classify_nested c name parent child)
  unfolding classify_nested
  nested-Explained name parent child = container (find_submatch podman_container_path name)
    where
      healthcheck :
          (o : Option (Bytes × Captures))
          → Explained c (elim o [
            | some (_, caps) ↦ podman_healthcheck c caps
            | none ↦ classify_by_parent c parent child
          ])
      healthcheck none = by_parent-Explained parent child
      healthcheck (some (rest, caps)) = healthcheck-Explained caps

      container :
          (o : Option (Bytes × Captures))
          → Explained c (elim o [
            | some (_, caps) ↦ podman_container c caps
            | none ↦ elim (find_submatch podman_healthcheck_path name) [
              | some (_, caps) ↦ podman_healthcheck c caps
              | none ↦ classify_by_parent c parent child
            ]
          ])
      container (some (rest, caps)) = container-Explained caps
      container none = healthcheck (find_submatch podman_healthcheck_path name)

  behind_builder-Explained :
      (name parent child : Bytes)
      → Explained c (
          if same parent (codes "/")
          then (if same child (codes "init.scope")
              then classify system_context (codes "init")
              else classify_supplementary_child system_context child)
          else classify_nested c name parent child)
  behind_builder-Explained name parent child =
      if-Explained c (same parent (codes "/")) _ _
        (λ h.
          if-Explained c (same child (codes "init.scope")) _ _
            (λ k. classify-Explained c system_context (codes "init"))
            (supplementary-Explained c system_context child))
        (nested-Explained name parent child)

  path-Explained : (name : Bytes) → Explained c (classify_path c name)
  unfolding classify_path
  path-Explained name =
      builder (clean_path (split_path name).0) (split_path name).1
        (find_submatch podman_builder_path name)
    where
      builder :
          (parent child : Bytes) (o : Option (Bytes × Captures))
          → Explained c (elim o [
            | some (_, caps) ↦ podman_builder c caps
            | none ↦
                if same parent (codes "/")
                then (if same child (codes "init.scope")
                    then classify system_context (codes "init")
                    else classify_supplementary_child system_context child)
                else classify_nested c name parent child
          ])
      builder parent child (some (rest, caps)) = builder-Explained caps
      builder parent child none = behind_builder-Explained name parent child

  slice-Explained : (name : Bytes) → Explained c (classify_slice c name)
  unfolding classify_slice
  slice-Explained name =
      if-Explained c (same (replace_all name (codes "\\x2d") (codes "-")) (codes "/")) _ _
        (λ h. classify-Explained c system_context (codes "kernel"))
        (path-Explained (replace_all name (codes "\\x2d") (codes "-")))

-- When a group cannot be classified because of an error, then the error is the one that a container
-- resolver returned for some ID, or wraps the one that the resolver of users returned for some user
-- ID, or is that of a user ID that is no number of 64 bits. No other error, and no panic, is possible.
pub classify_slice-Fails :
    (c : Classifier) (name : Bytes) {e : Error} → classify_slice c name ≡ err e → Fails c e
unfolding Explained
classify_slice-Fails c name h = subst (λ r. Explained c r) h (slice-Explained c name)
