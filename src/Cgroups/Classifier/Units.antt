-- ===== src/Cgroups/Classifier/Units.antt =====
-- The services of the units of systemd.
use server_metrics.Base.{
  ◌==◌, ℕ, suc, ◌-◌, ◌≡◌, ◌≢◌, ◌∙◌, ap, refl, true, false, ◌&&◌, [], ◌∷◌, ◌++◌, none, some, Bytes,
  codes, same, same_iff, if◌then◌else◌, ok, err, arith, length, length-append, take, drop,
  drop-append, All-append, ◌>>=◌,
}
use server_metrics.Text.{has_prefix, has_suffix, replace_all, replace_from}
use server_metrics.Text.Split.{Lacks}
use server_metrics.Text.Find.{last_index_byte-append, take-append, drop-append_cons}
use server_metrics.Regexp.{find_submatch, literal}
use server_metrics.Cgroups.Classifier.Patterns.{
  podman_builder_path, podman_container_path, podman_healthcheck_path,
}
use server_metrics.Cgroups.Classifier.Paths.{split_path, clean_path}
use server_metrics.Cgroups.Classifier.{
  Classifier, Context, classify, classify_supplementary_child, podman_builder, podman_container,
  podman_healthcheck, docker_container, classify_other_child, Verdict, classify_total,
  system_context, trim, dbus_service, classify_service_slice_child, classify_slice_child,
  classify_by_parent, classify_nested, classify_path, classify_slice,
}

-- A text without backslashes is left as it is.
replace_all-Lacks : (s new : Bytes) → Lacks b'\\' s → replace_all s (codes "\\x2d") new ≡ s
unfolding replace_all replace_from has_prefix
replace_all-Lacks [] new h = refl
replace_all-Lacks (c ∷ s) new (hc, h) =
    let no_backslash : (c == b'\\') ≡ false = ground arith in
    rw (no_backslash, replace_all, replace_from, has_prefix)
      (ap (◌∷◌ c) (replace_all-Lacks s new h))

take-append_cons :
    (p : Bytes) (b : ℕ) (s : Bytes) → take (suc (length p)) (p ++ (b ∷ s)) ≡ p ++ (b ∷ [])
take-append_cons [] b s = refl
take-append_cons (c ∷ p) b s = ap (◌∷◌ c) (take-append_cons p b s)

split_path-append :
    (dir child : Bytes)
    → Lacks b'/' child
    → split_path (dir ++ (b'/' ∷ child)) ≡ (dir ++ (b'/' ∷ []), child)
unfolding split_path
split_path-append dir child h =
    rw (last_index_byte-append dir b'/' child h, split_path)
      (ap (λ front. (front, drop (suc (length dir)) (dir ++ (b'/' ∷ child))))
          (take-append_cons dir b'/' child)
        ∙ ap (λ rest. (dir ++ (b'/' ∷ []), rest)) (drop-append_cons dir b'/' child))

rest_length : (s suffix : Bytes) → length (s ++ suffix) - length suffix ≡ length s
rest_length s suffix = omega (arith, length-append s suffix)

has_suffix-append : (s suffix : Bytes) → has_suffix (s ++ suffix) suffix ≡ true
unfolding has_suffix
has_suffix-append s suffix =
    let all_there : same (drop (length s) (s ++ suffix)) suffix ≡ true =
      rw (drop-append s suffix) ((same_iff suffix suffix).1 refl) in
    rw (rest_length s suffix) (ground (arith, length-append s suffix))

trim-append : (s suffix : Bytes) → trim [] (s ++ suffix) suffix ≡ ok s
unfolding trim
trim-append s suffix =
    let whole : length (s ++ suffix) - length suffix - 0 ≡ length s =
      omega (arith, length-append s suffix) in
    rw whole (rw (take-append s suffix) (ground (arith, length-append s suffix)))

system_dir : clean_path (codes "/system.slice/") ≡ codes "/system.slice"
unfolding clean_path
system_dir = refl

module _ (c : Classifier) where
  by_suffix : Context → Bytes → Verdict
  by_suffix ctx name =
      if has_suffix name (codes ".service")
      then (trim [] name (codes ".service") >>= λ service. classify_total ctx service [])
      else if has_prefix name (codes "docker-") && has_suffix name (codes ".scope")
      then docker_container c ctx name
      else classify_other_child ctx name

  behind_builder :
      (name dir parent child : Bytes)
      → find_submatch podman_builder_path name ≡ none
      → split_path name ≡ (dir, child)
      → clean_path dir ≡ parent
      → same parent (codes "/") ≡ false
      → classify_path c name ≡ classify_nested c name parent child
  unfolding classify_path
  behind_builder name dir parent child no_build parts clean not_root =
      ap
        (λ o. elim o [
          | some (_, caps) ↦ podman_builder c caps
          | none ↦
              if same (clean_path (split_path name).0) (codes "/")
              then (if same (split_path name).1 (codes "init.scope")
                  then classify system_context (codes "init")
                  else classify_supplementary_child system_context (split_path name).1)
              else classify_nested c name (clean_path (split_path name).0) (split_path name).1
        ])
        no_build
      ∙ ap
          (λ p.
            if same (clean_path p.0) (codes "/")
            then (if same p.1 (codes "init.scope")
                then classify system_context (codes "init")
                else classify_supplementary_child system_context p.1)
            else classify_nested c name (clean_path p.0) p.1)
          parts
      ∙ ap
          (λ q.
            if same q (codes "/")
            then (if same child (codes "init.scope")
                then classify system_context (codes "init")
                else classify_supplementary_child system_context child)
            else classify_nested c name q child)
          clean
      ∙ rw not_root refl

  behind_podman :
      (name parent child : Bytes)
      → find_submatch podman_container_path name ≡ none
      → find_submatch podman_healthcheck_path name ≡ none
      → classify_nested c name parent child ≡ classify_by_parent c parent child
  unfolding classify_nested
  behind_podman name parent child no_container no_check =
      ap
        (λ o. elim o [
          | some (_, caps) ↦ podman_container c caps
          | none ↦ elim (find_submatch podman_healthcheck_path name) [
            | some (_, caps) ↦ podman_healthcheck c caps
            | none ↦ classify_by_parent c parent child
          ]
        ])
        no_container
      ∙ ap
          (λ o. elim o [
            | some (_, caps) ↦ podman_healthcheck c caps
            | none ↦ classify_by_parent c parent child
          ])
          no_check

  in_system_slice :
      (child : Bytes)
      → classify_by_parent c (codes "/system.slice") child
        ≡ classify_slice_child c system_context child
  unfolding classify_by_parent literal
  in_system_slice child = refl

  service_unit :
      (unit : Bytes)
      → dbus_service system_context (unit ++ codes ".service") ≡ none
      → classify_service_slice_child c system_context (unit ++ codes ".service")
        ≡ classify_total system_context unit []
  unfolding classify_service_slice_child by_suffix
  service_unit unit no_dbus =
      ap
        (λ o. elim o [
          | some service ↦ classify_total system_context service []
          | none ↦ by_suffix system_context (unit ++ codes ".service")
        ])
        no_dbus
      ∙ rw (has_suffix-append unit (codes ".service")) (
          ap (λ r. r >>= λ service. classify_total system_context service [])
            (trim-append unit (codes ".service")))

  unit_child :
      (unit : Bytes)
      → dbus_service system_context (unit ++ codes ".service") ≡ none
      → classify_slice_child c system_context (unit ++ codes ".service")
        ≡ ok (some (record { service = unit; total_excluding = some [] }))
  unfolding classify_slice_child classify_total
  unit_child unit no_dbus =
      ap
        (λ v. elim v [
          | err e ↦ err e
          | ok (some found) ↦ ok (some found)
          | ok none ↦ classify_supplementary_child system_context (unit ++ codes ".service")
        ])
        (service_unit unit no_dbus)

  plain_path :
      (name : Bytes)
      → replace_all name (codes "\\x2d") (codes "-") ≡ name
      → same name (codes "/") ≡ false
      → classify_slice c name ≡ classify_path c name
  unfolding classify_slice
  plain_path name plain not_root =
      ap
        (λ n.
          if same n (codes "/")
          then classify system_context (codes "kernel")
          else classify_path c n)
        plain
      ∙ rw not_root refl

  no_container :
      (child : Bytes)
      → find_submatch podman_container_path (codes "/system.slice" ++ (b'/' ∷ child)) ≡ none
  unfolding find_submatch literal
  no_container child = refl

-- A group directly in `/system.slice` whose name ends in `.service`, and has neither a slash nor a
-- backslash, is collected with all its groups as the service named by what stands in front of
-- `.service`, whatever the resolvers say, where its path is matched by neither of the expressions for
-- the builds and the health checks of Podman, and its name is not taken for that of a service that
-- DBus activates.
pub classify_slice-unit :
    (c : Classifier) (unit : Bytes)
    → Lacks b'/' (unit ++ codes ".service")
    → Lacks b'\\' (unit ++ codes ".service")
    → find_submatch podman_builder_path (codes "/system.slice" ++ (b'/' ∷ unit ++ codes ".service"))
      ≡ none
    → find_submatch podman_healthcheck_path
        (codes "/system.slice" ++ (b'/' ∷ unit ++ codes ".service"))
      ≡ none
    → dbus_service system_context (unit ++ codes ".service") ≡ none
    → classify_slice c (codes "/system.slice" ++ (b'/' ∷ unit ++ codes ".service"))
      ≡ ok (some (record { service = unit; total_excluding = some [] }))
classify_slice-unit c unit no_slash no_backslash no_build no_check no_dbus =
    let child : Bytes = unit ++ codes ".service" in
    let name : Bytes = codes "/system.slice" ++ (b'/' ∷ child) in
    plain_path c name
      (replace_all-Lacks name (codes "-")
        (All-append (λ b. b ≢ b'\\') (codes "/system.slice/") child (ground arith) no_backslash))
      refl
    ∙ behind_builder c name (codes "/system.slice/") (codes "/system.slice") child no_build
        (split_path-append (codes "/system.slice") child no_slash) system_dir refl
    ∙ behind_podman c name (codes "/system.slice") child (no_container c child) no_check
    ∙ in_system_slice c child
    ∙ unit_child c unit no_dbus
