-- ===== src/Meminfo.antt =====
-- internal/meminfo/meminfo.go: the file /proc/meminfo.
pub mod Counters
use server_metrics.Base.{
  List, [], ◌∷◌, Option, none, some, Bytes, bytes_eq, codes, same, if◌then◌else◌, ℤ, pos, mul_int64,
  Result, ok, err,
}
use server_metrics.Error.{Error, unexpected_line, duplicated_key}
use server_metrics.Map.{Map, insert, contains}
use server_metrics.Text.{split_two, trim_space, fields, parse_int}
use server_metrics.Util.{Reader, parse_file}

abbrev pub Meminfo : Type 0
Meminfo = Map Bytes ℤ

-- The tokens of a value: a number, maybe with the unit kB.
unfoldable pub parse_value : List Bytes → Option ℤ
parse_value (number ∷ []) = parse_int number
parse_value (number ∷ unit ∷ []) =
    if same unit (codes "kB") then in_bytes (parse_int number) else none
  where
    in_bytes : Option ℤ → Option ℤ
    in_bytes none = none
    in_bytes (some value) = some (mul_int64 value (pos 1024))
parse_value _ = none

add_counter : Meminfo → Bytes → Bytes → Option ℤ → Result Error Meminfo
add_counter meminfo line name none = err (unexpected_line line)
add_counter meminfo line name (some value) =
    if contains name meminfo then err (duplicated_key name) else ok (insert name value meminfo)

add_parts : Meminfo → Bytes → List Bytes → Result Error Meminfo
unfolding add_counter parse_value
add_parts meminfo line (name ∷ value ∷ []) =
    add_counter meminfo line (trim_space name) (parse_value (fields value))
add_parts meminfo line _ = err (unexpected_line line)

-- The function that `parseMeminfo` gives to `ParseFile`.
unfoldable pub parse_meminfo_line : Meminfo → Bytes → Result Error Meminfo
unfolding add_parts
parse_meminfo_line meminfo line = add_parts meminfo line (split_two line b':')

-- `parseMeminfo`
unfoldable pub parse_meminfo : Reader → Result Error Meminfo
unfolding parse_meminfo_line
parse_meminfo = parse_file parse_meminfo_line []
