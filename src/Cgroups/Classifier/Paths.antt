-- ===== src/Cgroups/Classifier/Paths.antt =====
-- The functions of Go's package path, which work on slashes.
use server_metrics.Base.{
  suc, Bool, List, [], ◌∷◌, ◌++◌, none, some, Bytes, codes, same, if◌then◌else◌, is_empty, take,
  drop,
}
use server_metrics.Text.{last_index_byte, has_prefix, split}

-- `path.Split`: the directory with its slash, and the name behind it.
unfoldable pub split_path : Bytes → Bytes × Bytes
unfolding last_index_byte
split_path s = elim (last_index_byte s b'/') [
  | none ↦ ([], s)
  | some i ↦ (take (suc i) s, drop (suc i) s)
]

abbrev pub up : Bytes
up = codes ".."

-- `..` removes the last component that is kept, if there is one that it can remove.
unfoldable pub go_up : Bool → List Bytes → List Bytes
go_up rooted [] = if rooted then [] else up ∷ []
go_up rooted (last ∷ kept) = if same last up then up ∷ last ∷ kept else kept

-- One component, with those that are kept so far, the last of them first.
unfoldable pub clean_component : Bool → List Bytes → Bytes → List Bytes
unfolding go_up
clean_component rooted kept part =
    if is_empty part
    then kept
    else if same part (codes ".")
    then kept
    else if same part up
    then go_up rooted kept
    else part ∷ kept

unfoldable pub clean_components : Bool → List Bytes → List Bytes → List Bytes
unfolding clean_component
clean_components rooted kept [] = kept
clean_components rooted kept (part ∷ parts) =
    clean_components rooted (clean_component rooted kept part) parts

-- The components joined again, of which the last comes first.
unfoldable pub joined_after : Bytes → List Bytes → Bytes
joined_after rest [] = rest
joined_after rest (part ∷ parts) =
    joined_after (part ++ (if is_empty rest then [] else b'/' ∷ rest)) parts

-- `path.Clean`
unfoldable pub clean_path : Bytes → Bytes
unfolding clean_components joined_after has_prefix split
clean_path s =
    let rooted = has_prefix s (codes "/") in
    let kept = joined_after [] (clean_components rooted [] (split s b'/')) in
    if rooted then b'/' ∷ kept else if is_empty kept then codes "." else kept

-- `path.Ext`: what the last name has from its last point on.
unfoldable pub path_ext : Bytes → Bytes
unfolding split_path last_index_byte
path_ext s =
    let name = (split_path s).1 in
    elim (last_index_byte name b'.') [ none ↦ [] | some i ↦ drop i name ]
