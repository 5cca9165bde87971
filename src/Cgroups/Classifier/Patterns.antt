-- ===== src/Cgroups/Classifier/Patterns.antt =====
-- The regular expressions of internal/cgroups/classifier/classifier.go.
use server_metrics.Base.{ℕ, Bool, not, ◌&&◌, ◌||◌, List, [], ◌∷◌, codes, leb, ◌==◌}
use server_metrics.Text.{is_digit}
use server_metrics.Regexp.{
  Regex, empty, many, seq, optional, either, group, end_of_text, literal, repeated,
}

-- One expression after another.
abbrev pub chain : List Regex → Regex
chain [] = empty
chain (r ∷ []) = r
chain (r ∷ q ∷ rs) = seq r (chain (q ∷ rs))

abbrev pub is_not : ℕ → ℕ → Bool
is_not c d = not (d == c)

-- `[0-9a-f]`
abbrev pub is_hex : ℕ → Bool
is_hex c = is_digit c || leb b'a' c && leb c b'f'

-- `^/system\.slice(/system-[^/]+\.slice)?$`
abbrev pub system_slice_path : Regex
system_slice_path = chain (
    literal (codes "/system.slice")
    ∷ optional (
        group 1
          (chain (literal (codes "/system-") ∷ many (is_not b'/') ∷ literal (codes ".slice") ∷ [])))
    ∷ end_of_text
    ∷ [])

-- `/user-(\d+)\.slice/user@\d+\.service/app\.slice`, behind `/user.slice`
abbrev pub user_app_slice : Regex
user_app_slice = chain (
    literal (codes "/user-")
    ∷ group 1 (many is_digit)
    ∷ literal (codes ".slice/user@")
    ∷ many is_digit
    ∷ literal (codes ".service/app.slice")
    ∷ [])

-- `(?:/system\.slice|/user\.slice/user-(\d+)\.slice/user@\d+\.service/app\.slice)`
abbrev pub service_slice : Regex
service_slice =
    either (literal (codes "/system.slice")) (seq (literal (codes "/user.slice")) user_app_slice)

-- `podmanBuilderPathRegex`
abbrev pub podman_builder_path : Regex
podman_builder_path = chain (
    optional service_slice
    ∷ literal (codes "/")
    ∷ optional (literal (codes "crun-"))
    ∷ literal (codes "buildah-")
    ∷ many (is_not b'/')
    ∷ end_of_text
    ∷ [])

-- `podmanContainerPathRegex`
abbrev pub podman_container_path : Regex
podman_container_path = chain (
    literal (codes "/machine.slice/libpod")
    ∷ optional (group 1 (literal (codes "-conmon")))
    ∷ literal (codes "-")
    ∷ group 2 (many (is_not b'/'))
    ∷ literal (codes ".scope")
    ∷ end_of_text
    ∷ [])

-- `podmanHealthcheckPathRegex`
abbrev pub podman_healthcheck_path : Regex
podman_healthcheck_path = chain (
    literal (codes "/")
    ∷ either (literal (codes "system.slice")) (seq (literal (codes "user.slice")) user_app_slice)
    ∷ literal (codes "/")
    ∷ group 2 (repeated 64 is_hex)
    ∷ literal (codes "-")
    ∷ repeated 16 is_hex
    ∷ literal (codes ".service")
    ∷ end_of_text
    ∷ [])

-- `userSliceNameRegex`
abbrev pub user_slice_name : Regex
user_slice_name = chain (
    literal (codes "user-") ∷ group 1 (many is_digit) ∷ literal (codes ".slice") ∷ end_of_text ∷ [])

-- `(?:app|session)`
abbrev pub app_or_session : Regex
app_or_session = either (literal (codes "app")) (literal (codes "session"))

-- The fourth group of `userSlicePathRegex`.
abbrev pub user_services : Regex
user_services = group 4 (
    chain (
      literal (codes "/")
      ∷ app_or_session
      ∷ literal (codes ".slice")
      ∷ optional (
          chain (
            literal (codes "/")
            ∷ app_or_session
            ∷ literal (codes "-")
            ∷ many (is_not b'/')
            ∷ literal (codes ".slice")
            ∷ []))
      ∷ []))

-- `userSlicePathRegex`
abbrev pub user_slice_path : Regex
user_slice_path = chain (
    literal (codes "/user.slice")
    ∷ optional (
        group 1 (
          chain (
            literal (codes "/user-")
            ∷ group 2 (many is_digit)
            ∷ literal (codes ".slice")
            ∷ optional (
                group 3 (
                  chain (
                    literal (codes "/user@")
                    ∷ many is_digit
                    ∷ literal (codes ".service")
                    ∷ optional user_services
                    ∷ [])))
            ∷ [])))
    ∷ end_of_text
    ∷ [])

-- `dbusActivationRegex`
abbrev pub dbus_activation : Regex
dbus_activation = chain (
    many is_digit
    ∷ literal (codes ".")
    ∷ many is_digit
    ∷ literal (codes "-")
    ∷ group 1 (many (is_not 10))
    ∷ literal (codes ".slice")
    ∷ end_of_text
    ∷ [])

-- `uuidRegex`
abbrev pub uuid : Regex
uuid = chain (
    repeated 8 is_hex
    ∷ literal (codes "-")
    ∷ repeated 4 is_hex
    ∷ literal (codes "-")
    ∷ repeated 4 is_hex
    ∷ literal (codes "-")
    ∷ repeated 4 is_hex
    ∷ literal (codes "-")
    ∷ repeated 12 is_hex
    ∷ [])

-- `snapScopeNameRegex`
abbrev pub snap_scope_name : Regex
snap_scope_name = chain (
    literal (codes "snap.")
    ∷ many (is_not b'.')
    ∷ literal (codes ".")
    ∷ group 1 (many (is_not b'.'))
    ∷ literal (codes "-")
    ∷ uuid
    ∷ literal (codes ".scope")
    ∷ end_of_text
    ∷ [])
