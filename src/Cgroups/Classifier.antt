-- ===== src/Cgroups/Classifier.antt =====
-- internal/cgroups/classifier/classifier.go: the service that a group belongs to, by its path.
pub mod Paths
pub mod Patterns
pub mod Trims
pub mod Failures
pub mod Units
use server_metrics.Base.{
  ℕ, ◌+◌, ◌-◌, Bool, true, false, ◌&&◌, ◌||◌, List, [], ◌∷◌, ◌++◌, Option, none, some, Bytes, codes,
  ltb, same, if◌then◌else◌, length, take, drop, is_empty, ℤ, Result, ok, err, ◌>>=◌,
}
use server_metrics.Error.{Error, index_out_of_range, invalid_number, unresolved_user}
use server_metrics.Text.{has_prefix, has_suffix, replace_all, parse_int}
use server_metrics.Regexp.{Captures, find_submatch, captured}
use server_metrics.Cgroups.Classifier.Paths.{split_path, clean_path, path_ext}
use server_metrics.Cgroups.Classifier.Patterns.{
  system_slice_path, podman_builder_path, podman_container_path, podman_healthcheck_path,
  user_slice_name, user_slice_path, dbus_activation, snap_scope_name,
}

pub record Classification : Type 0 where
  pub service : Bytes
  pub total_excluding : Option (List Bytes)

pub record Container : Type 0 where
  pub name : Bytes
  pub temporary : Bool

-- The resolvers of users and containers, as they answer during one classification, which asks each of
-- them at most once.
pub record Classifier : Type 0 where
  pub users : ℤ → Result Error Bytes
  pub docker : Bytes → Result Error Container
  pub podman : Bytes → Result Error Container

-- `classifyContext`
pub record Context : Type 0 where
  pub slice : Bytes
  pub user : Bytes

-- `(Classification, bool, error)`; the classification of a group that is not classified is empty.
abbrev pub Verdict : Type 0
Verdict = Result Error (Option Classification)

abbrev pub unclassified : Verdict
unclassified = ok none

abbrev pub in_context : Context → Bytes → Bytes
in_context ctx service = if is_empty ctx.user then service else ctx.user ++ (b'/' ∷ service)

-- `classify`
unfoldable pub classify : Context → Bytes → Verdict
classify ctx service =
    ok (some (record { service = in_context ctx service; total_excluding = none }))

-- `classifyTotal`
unfoldable pub classify_total : Context → Bytes → List Bytes → Verdict
classify_total ctx service exclude =
    ok (some (record { service = in_context ctx service; total_excluding = some exclude }))

abbrev pub system_context : Context
system_context = record { slice = codes "system"; user = [] }

-- `trim`; it panics where the two parts overlap.
unfoldable pub trim : Bytes → Bytes → Bytes → Result Error Bytes
trim prefix name suffix =
    if ltb (length name) (length prefix + length suffix)
    then err index_out_of_range
    else ok (take (length name - length suffix - length prefix) (drop (length prefix) name))

resolved_user : ℤ → Result Error Bytes → Result Error Context
resolved_user uid (err e) = err (unresolved_user uid e)
resolved_user uid (ok name) = ok (record { slice = codes "app"; user = name })

user_context : Classifier → Option ℤ → Bytes → Result Error Context
unfolding resolved_user
user_context c none uid_match = err (invalid_number uid_match)
user_context c (some uid) uid_match = resolved_user uid (c.users uid)

-- `getUserContext`
unfoldable pub get_user_context : Classifier → Bytes → Result Error Context
unfolding user_context parse_int
get_user_context c uid_match = user_context c (parse_int uid_match) uid_match

-- `classifySupplementaryChild`
unfoldable pub classify_supplementary_child : Context → Bytes → Verdict
unfolding classify has_suffix
classify_supplementary_child ctx name =
    if has_suffix name (codes ".mount") || has_suffix name (codes ".socket")
    then classify ctx name
    else unclassified

-- The service of a group that DBus activates.
unfoldable pub dbus_service : Context → Bytes → Option Bytes
unfolding has_prefix find_submatch captured
dbus_service ctx name =
    let prefix = ctx.slice ++ codes "-dbus-:" in
    if has_prefix name prefix
    then (elim (find_submatch dbus_activation (drop (length prefix) name)) [
      | none ↦ none
      | some (_, caps) ↦ some (codes "dbus:" ++ captured 1 caps)
    ])
    else none

abbrev pub container_service : Result Error Container → Bytes → Result Error Bytes
container_service (err e) temporary = err e
container_service (ok c) temporary = ok (if c.temporary then temporary else c.name)

unfoldable pub docker_container : Classifier → Context → Bytes → Verdict
unfolding trim classify
docker_container c ctx name = do
  container_id ← trim (codes "docker-") name (codes ".scope")
  service ← container_service (c.docker container_id) (codes "docker-containers")
  classify ctx service

-- The rest of `classifyServiceSliceChild`, for a group that is neither a service nor a container.
unfoldable pub classify_other_child : Context → Bytes → Verdict
unfolding classify has_prefix path_ext find_submatch captured
classify_other_child ctx name =
    let prefix = ctx.slice ++ codes ".slice:docker:" in
    if has_prefix name prefix && is_empty (path_ext (drop (length prefix) name))
    then classify ctx (codes "docker-builder")
    else elim (find_submatch snap_scope_name name) [
      | none ↦ unclassified
      | some (_, caps) ↦ classify ctx (captured 1 caps)
    ]

-- `classifyServiceSliceChild`
unfoldable pub classify_service_slice_child : Classifier → Context → Bytes → Verdict
unfolding dbus_service classify_total has_suffix has_prefix trim docker_container
    classify_other_child
classify_service_slice_child c ctx name = elim (dbus_service ctx name) [
  | some service ↦ classify_total ctx service []
  | none ↦
      if has_suffix name (codes ".service")
      then (trim [] name (codes ".service") >>= λ service. classify_total ctx service [])
      else if has_prefix name (codes "docker-") && has_suffix name (codes ".scope")
      then docker_container c ctx name
      else classify_other_child ctx name
]

-- The last step for the groups in a slice of services.
unfoldable pub classify_slice_child : Classifier → Context → Bytes → Verdict
unfolding classify_service_slice_child classify_supplementary_child
classify_slice_child c ctx child = elim (classify_service_slice_child c ctx child) [
  | err e ↦ err e
  | ok (some found) ↦ ok (some found)
  | ok none ↦ classify_supplementary_child ctx child
]

-- The context that the user ID of a match gives, where it has one.
unfoldable pub matched_context : Classifier → Bytes → Result Error Context
unfolding get_user_context
matched_context c uid_match =
    if is_empty uid_match then ok system_context else get_user_context c uid_match

abbrev pub podman_service : Classifier → Bytes → Result Error Bytes
podman_service c id = container_service (c.podman id) (codes "podman-containers")

unfoldable pub podman_builder : Classifier → Captures → Verdict
unfolding matched_context classify_total captured
podman_builder c caps = do
  slice ← matched_context c (captured 1 caps)
  classify_total slice (codes "podman-builder") []

unfoldable pub podman_container : Classifier → Captures → Verdict
unfolding classify_total captured
podman_container c caps = do
  service ← podman_service c (captured 2 caps)
  classify_total system_context
      (service ++ (if is_empty (captured 1 caps) then [] else codes "/supervisor")) []

-- The containers of users are not resolved.
unfoldable pub podman_healthcheck : Classifier → Captures → Verdict
unfolding get_user_context classify_total captured
podman_healthcheck c caps =
    if is_empty (captured 1 caps)
    then (podman_service c (captured 2 caps) >>= λ service.
        classify_total system_context (service ++ codes "/healthcheck") [])
    else (get_user_context c (captured 1 caps) >>= λ user.
        classify_total user (codes "podman-containers/healthcheck") [])

abbrev pub user_service : Bytes → Bytes
user_service uid = codes "user@" ++ (uid ++ codes ".service")

-- `/user.slice/*`
unfoldable pub classify_user : Classifier → Bytes → Verdict
unfolding find_submatch captured get_user_context classify_total
classify_user c child = elim (find_submatch user_slice_name child) [
  | none ↦ unclassified
  | some (_, caps) ↦ get_user_context c (captured 1 caps) >>= λ user.
      classify_total user (codes "sessions") (user_service (captured 1 caps) ∷ [])
]

abbrev pub session : Context → Verdict
session user = ok (
    some (record {
      service = user.user;
      total_excluding = some (codes "app.slice" ∷ codes "init.scope" ∷ []);
    }))

-- The groups inside the slice of a user.
unfoldable pub classify_user_child : Classifier → Context → Captures → Bytes → Verdict
unfolding captured classify classify_slice_child
classify_user_child c user caps child =
    if is_empty (captured 3 caps)
    then (if same child (user_service (captured 2 caps)) then session user else unclassified)
    else if is_empty (captured 4 caps)
    then (if same child (codes "init.scope") then classify user (codes "init") else unclassified)
    else classify_slice_child c user child

unfoldable pub classify_user_slice : Classifier → Captures → Bytes → Verdict
unfolding captured classify_user classify_user_child get_user_context
classify_user_slice c caps child =
    if is_empty (captured 1 caps)
    then classify_user c child
    else get_user_context c (captured 2 caps) >>= λ user. classify_user_child c user caps child

-- The last two cases of `ClassifySlice`, by the group's parent.
unfoldable pub classify_by_parent : Classifier → Bytes → Bytes → Verdict
unfolding find_submatch classify_slice_child classify_user_slice
classify_by_parent c parent child = elim (find_submatch system_slice_path parent) [
  | some _ ↦ classify_slice_child c system_context child
  | none ↦ elim (find_submatch user_slice_path parent) [
    | some (_, caps) ↦ classify_user_slice c caps child
    | none ↦ unclassified
  ]
]

-- The cases behind the one of the groups in the root group.
unfoldable pub classify_nested : Classifier → Bytes → Bytes → Bytes → Verdict
unfolding find_submatch podman_container podman_healthcheck classify_by_parent
classify_nested c name parent child = elim (find_submatch podman_container_path name) [
  | some (_, caps) ↦ podman_container c caps
  | none ↦ elim (find_submatch podman_healthcheck_path name) [
    | some (_, caps) ↦ podman_healthcheck c caps
    | none ↦ classify_by_parent c parent child
  ]
]

unfoldable pub classify_path : Classifier → Bytes → Verdict
unfolding split_path clean_path find_submatch podman_builder classify classify_supplementary_child
    classify_nested
classify_path c name =
    let parent = clean_path (split_path name).0 in
    let child = (split_path name).1 in
    elim (find_submatch podman_builder_path name) [
      | some (_, caps) ↦ podman_builder c caps
      | none ↦
          if same parent (codes "/")
          then (if same child (codes "init.scope")
              then classify system_context (codes "init")
              else classify_supplementary_child system_context child)
          else classify_nested c name parent child
    ]

-- `ClassifySlice`
unfoldable pub classify_slice : Classifier → Bytes → Verdict
unfolding replace_all classify classify_path
classify_slice c name =
    let plain = replace_all name (codes "\\x2d") (codes "-") in
    if same plain (codes "/")
    then classify system_context (codes "kernel")
    else classify_path c plain
