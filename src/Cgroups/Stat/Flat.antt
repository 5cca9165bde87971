-- ===== src/Cgroups/Stat/Flat.antt =====
-- internal/cgroups/cgroupsutil/stat.go: lines `name value`.
pub mod Sound
use server_metrics.Base.{
  Bool, true, false, List, [], ◌∷◌, Option, none, some, Bytes, bytes_eq, if◌then◌else◌, ℤ, Result,
  ok, err,
}
use server_metrics.Error.{Error, unexpected_line, duplicated_key, missing_entry}
use server_metrics.Map.{Map, lookup, insert, contains}
use server_metrics.Text.{split, parse_int}
use server_metrics.Util.{Reader, parse_file}
use server_metrics.Cgroups.Reads.{Reads}
use server_metrics.Cgroups.Group.{FileSystem, Group, read_property}

-- The statistics of one property, or of one of its entries.
abbrev pub Stat : Type 0
Stat = Map Bytes ℤ

unfoldable pub required : Bytes → Option ℤ → Result Error ℤ
required name none = err (missing_entry name)
required name (some value) = ok value

-- `Get`
unfoldable pub get : Stat → Bytes → Result Error ℤ
unfolding required
get stat name = required name (lookup name stat)

add_value : Stat → Bytes → Bytes → Option ℤ → Result Error Stat
add_value stat line name none = err (unexpected_line line)
add_value stat line name (some value) = ok (insert name value stat)

-- The tokens of a line.
add_tokens : Stat → Bytes → List Bytes → Result Error Stat
unfolding add_value
add_tokens stat line (name ∷ value ∷ []) =
    if contains name stat
    then err (duplicated_key name)
    else add_value stat line name (parse_int value)
add_tokens stat line _ = err (unexpected_line line)

-- The function that `parseStat` gives to `ParseFile`.
unfoldable pub parse_stat_line : Stat → Bytes → Result Error Stat
unfolding add_tokens
parse_stat_line stat line = add_tokens stat line (split line b' ')

-- `parseStat`
unfoldable pub parse_stat : Reader → Result Error Stat
unfolding parse_stat_line
parse_stat = parse_file parse_stat_line []

-- `ReadStat`
unfoldable pub read_stat : FileSystem → Group → Bytes → Reads Stat
read_stat fs g name = read_property fs g name parse_stat
