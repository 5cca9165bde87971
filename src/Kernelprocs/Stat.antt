-- ===== src/Kernelprocs/Stat.antt =====
-- internal/kernelprocs/collector.go, parseProcStat: a file `/proc/…/stat`.
pub mod Line
use server_metrics.Base.{
  ℕ, ◌+◌, ◌-◌, Bool, List, [], ◌∷◌, Option, none, some, Bytes, ltb, if◌then◌else◌, take, drop,
  get_elem?,
}
use server_metrics.Text.{index_byte, last_index_byte, split, parse_uint}

pub record ProcStat : Type 0 where
  pub name : Bytes
  pub usage : ℕ

abbrev pub stime_pos : ℕ
stime_pos = 13

-- The field `stime` among those behind the name.
unfoldable pub parse_stime : Option Bytes → Option ℕ
parse_stime none = none
parse_stime (some text) = parse_uint text

with_name : Bytes → Option ℕ → Option ProcStat
with_name name none = none
with_name name (some usage) = some (record { name = name; usage = usage })

-- The name stands between the first `(` and the last `)`.
parse_between : Bytes → Option ℕ → Option ℕ → Option ProcStat
unfolding with_name parse_stime
parse_between content (some name_start) (some name_end) =
    if ltb name_end name_start
    then none
    else with_name (take (name_end - (name_start + 1)) (drop (name_start + 1) content))
        (parse_stime (get_elem? (split (drop name_end content) b' ') stime_pos))
parse_between content _ _ = none

-- `parseProcStat`
unfoldable pub parse_proc_stat : Bytes → Option ProcStat
unfolding parse_between
parse_proc_stat content =
    parse_between content (index_byte content b'(') (last_index_byte content b')')
