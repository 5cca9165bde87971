-- ===== src/Cgroups/Io/Resolver.antt =====
-- internal/cgroups/io/resolver.go: the names of the devices, each looked up once in a collection.
use server_metrics.Base.{
  ℕ, suc, Bool, ◌≡◌, refl, ◌++◌, Option, none, some, Option-cases, inl, inr, Bytes, bytes_eq, codes,
  ◌==◌, if◌then◌else◌, is_empty, drop, Result, ok, err,
}
use server_metrics.Error.{Error}
use server_metrics.Map.{Map, lookup, insert, lookup-insert_self}
use server_metrics.Cgroups.Classifier.Paths.{clean_path}
use server_metrics.Text.{drop_while_end, last_index_byte}

-- `os.Readlink`
abbrev pub Links : Type 0
Links = Bytes → Result Error Bytes

abbrev pub is_slash : ℕ → Bool
is_slash c = c == b'/'

abbrev pub behind : Option ℕ → Bytes → Bytes
behind none s = s
behind (some i) s = drop (suc i) s

base_of_trimmed : Bytes → Bytes
unfolding last_index_byte
base_of_trimmed s =
    let name = behind (last_index_byte s b'/') s in if is_empty name then codes "/" else name

-- `path.Base`
unfoldable pub path_base : Bytes → Bytes
unfolding base_of_trimmed drop_while_end
path_base s = if is_empty s then codes "." else base_of_trimmed (drop_while_end is_slash s)

-- The name that the link of a device gives; a device that has none keeps its number.
unfoldable pub linked_name : Bytes → Result Error Bytes → Bytes
unfolding path_base
linked_name device (ok target) = path_base target
linked_name device (err e) = device

-- The field `devices`.
abbrev pub Devices : Type 0
Devices = Map Bytes Bytes

abbrev pub known_or_linked : Devices → Links → Bytes → Option Bytes → Bytes × Devices
known_or_linked devices links device (some name) = (name, devices)
known_or_linked devices links device none =
    let name = linked_name device (links (clean_path (codes "/dev/block/" ++ device))) in
    (name, insert device name devices)

-- `getDeviceName`, with the names that are known afterwards.
unfoldable pub get_device_name : Devices → Links → Bytes → Bytes × Devices
unfolding lookup insert linked_name
get_device_name devices links device = known_or_linked devices links device (lookup device devices)

-- A device keeps its name until the names are reset, whatever its link has become.
pub get_device_name_again :
    (devices : Devices) (links links' : Links) (device : Bytes)
    → let (name, devices') = get_device_name devices links device in
      get_device_name devices' links' device ≡ (name, devices')
unfolding get_device_name
get_device_name_again devices links links' device = elim (Option-cases (lookup device devices)) [
  | inl new ↦
      let name = linked_name device (links (clean_path (codes "/dev/block/" ++ device))) in
      rw (new, get_device_name) (rw (lookup-insert_self device name devices) refl)
  | inr (name, known) ↦ rw (known, get_device_name) (rw known refl)
]
