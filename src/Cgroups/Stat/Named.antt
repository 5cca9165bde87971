-- ===== src/Cgroups/Stat/Named.antt =====
-- internal/cgroups/cgroupsutil/namedstat.go: lines `name … key=value …`, where the names of a line
-- share its values.
use server_metrics.Base.{
  List, [], ◌∷◌, ◌++◌, Option, none, some, Bytes, bytes_eq, if◌then◌else◌, is_empty, ℤ, Result, ok,
  err, ◌>>=◌,
}
use server_metrics.Error.{Error, unexpected_line, duplicated_key}
use server_metrics.Map.{Map, insert, contains}
use server_metrics.Text.{split, parse_int}
use server_metrics.Util.{Reader, parse_file}
use server_metrics.Cgroups.Reads.{Reads}
use server_metrics.Cgroups.Group.{FileSystem, Group, read_property}
use server_metrics.Cgroups.Stat.Flat.{Stat}

-- The variables of a line. In `stats`, the entries of `names` stand for the one map `stat`, which the
-- line is still filling: `publish` writes it to them at the end of the line.
pub record NamedLine : Type 0 where
  pub stats : Map Bytes Stat
  pub names : List Bytes
  pub stat : Stat

unfoldable pub publish : Stat → List Bytes → Map Bytes Stat → Map Bytes Stat
publish stat [] stats = stats
publish stat (name ∷ names) stats = publish stat names (insert name stat stats)

add_name : NamedLine → Bytes → Result Error NamedLine
add_name l name =
    if contains name l.stats
    then err (duplicated_key name)
    else ok (record l { stats = insert name [] l.stats; names = l.names ++ (name ∷ []) })

add_named_value : NamedLine → Bytes → Bytes → Option ℤ → Result Error NamedLine
add_named_value l line key none = err (unexpected_line line)
add_named_value l line key (some value) =
    if contains key l.stat
    then err (duplicated_key key)
    else ok (record l { stat = insert key value l.stat })

-- The tokens that `=` splits a token of the line into.
add_line_token : NamedLine → Bytes → List Bytes → Result Error NamedLine
unfolding add_name add_named_value
add_line_token l line (name ∷ []) =
    if is_empty l.stat then add_name l name else err (unexpected_line line)
add_line_token l line (key ∷ value ∷ []) =
    if is_empty l.names
    then err (unexpected_line line)
    else add_named_value l line key (parse_int value)
add_line_token l line _ = err (unexpected_line line)

-- The loop over the tokens of a line.
add_line_tokens : NamedLine → Bytes → List Bytes → Result Error NamedLine
unfolding add_line_token
add_line_tokens l line [] = ok l
add_line_tokens l line (token ∷ tokens) =
    add_line_token l line (split token b'=') >>= λ l'. add_line_tokens l' line tokens

-- A line of one token names an entry with no values, which is skipped.
skip_name : Map Bytes Stat → Bytes → List Bytes → Result Error (Map Bytes Stat)
skip_name stats line (name ∷ []) =
    if contains name stats then err (duplicated_key name) else ok stats
skip_name stats line _ = err (unexpected_line line)

finish_line : Bytes → NamedLine → Result Error (Map Bytes Stat)
unfolding publish
finish_line line l =
    if is_empty l.stat then err (unexpected_line line) else ok (publish l.stat l.names l.stats)

add_named_tokens : Map Bytes Stat → Bytes → List Bytes → Result Error (Map Bytes Stat)
unfolding skip_name add_line_tokens finish_line
add_named_tokens stats line (token ∷ []) = skip_name stats line (split token b'=')
add_named_tokens stats line tokens = do
  l ← add_line_tokens (record { stats = stats; names = []; stat = [] }) line tokens
  finish_line line l

-- The function that `parseNamedStat` gives to `ParseFile`.
unfoldable pub parse_named_stat_line : Map Bytes Stat → Bytes → Result Error (Map Bytes Stat)
unfolding add_named_tokens
parse_named_stat_line stats line = add_named_tokens stats line (split line b' ')

-- `parseNamedStat`
unfoldable pub parse_named_stat : Reader → Result Error (Map Bytes Stat)
unfolding parse_named_stat_line
parse_named_stat = parse_file parse_named_stat_line []

-- `ReadNamedStat`
unfoldable pub read_named_stat : FileSystem → Group → Bytes → Reads (Map Bytes Stat)
read_named_stat fs g name = read_property fs g name parse_named_stat
