-- ===== src/Cgroups/Memory.antt =====
-- internal/cgroups/memory/collector.go: the memory of a group.
pub mod Net
use mathlib.Core.Option
use server_metrics.Base.{
  Bool, true, false, List, [], ◌∷◌, Option, none, some, Bytes, codes, bytes_eq, if◌then◌else◌, ℤ,
  pos, ltb_ℤ, add_int64, sub_int64, Result, ok, err,
}
use server_metrics.Error.{Error, missing_entry, invalid_value, system}
use server_metrics.Map.{lookup}
use server_metrics.Text.{trim_space, parse_int}
use server_metrics.Util.{Reader}
use server_metrics.Cgroups.Reads.{Reads, pure, lift, ◌>>=◌}
use server_metrics.Cgroups.Group.{FileSystem, Group, is_root, read_property}
use server_metrics.Cgroups.Roots.{is_net, net_children, collect_children}
use server_metrics.Cgroups.Stat.Flat.{Stat, read_stat}

pub record Usage : Type 0 where
  pub rss : ℤ
  pub swap : ℤ
  pub cache : ℤ
  pub kernel : ℤ

-- `math.MaxInt64(0, a)`
abbrev pub at_least_zero : ℤ → ℤ
at_least_zero a = if ltb_ℤ (pos 0) a then a else pos 0

parse_swap : Option Error → Option ℤ → Result Error ℤ
parse_swap (some e) _ = err e
parse_swap none none = err (invalid_value (codes "memory.swap.current"))
parse_swap none (some swap) = ok swap

-- The reader of `memory.swap.current`.
unfoldable pub read_swap : Reader → Result Error ℤ
unfolding parse_swap
read_swap r = parse_swap r.failure (parse_int (trim_space r.content))

-- A value that is missing counts as 0.
unfoldable pub value_of : Stat → Bytes → ℤ
value_of stat name = Option.get_or (lookup name stat) (pos 0)

-- The error that `keyErr` holds after the keys were read in this order: that of the last missing one.
unfoldable pub key_error : Stat → List Bytes → Option Error
key_error stat [] = none
key_error stat (name ∷ names) = elim (key_error stat names) [
  | some e ↦ some e
  | none ↦ elim (lookup name stat) [ none ↦ some (missing_entry name) | some _ ↦ none ]
]

abbrev pub keys : List Bytes
keys =
    codes "anon"
    ∷ codes "swapcached"
    ∷ codes "file"
    ∷ codes "kernel_stack"
    ∷ codes "pagetables"
    ∷ codes "percpu"
    ∷ codes "slab_unreclaimable"
    ∷ codes "sock"
    ∷ []

unfoldable pub usage_of : Stat → ℤ → Usage
unfolding value_of
usage_of stat swap = record {
  rss = value_of stat (codes "anon");
  swap = at_least_zero (sub_int64 swap (value_of stat (codes "swapcached")));
  cache = value_of stat (codes "file");
  kernel =
      add_int64
        (add_int64
          (add_int64
            (add_int64 (value_of stat (codes "kernel_stack")) (value_of stat (codes "pagetables")))
            (value_of stat (codes "percpu")))
          (value_of stat (codes "slab_unreclaimable")))
        (value_of stat (codes "sock"));
}

unfoldable pub checked_usage : Stat → ℤ → Result Error Usage
unfolding usage_of key_error
checked_usage stat swap = elim (key_error stat keys) [
  | some e ↦ err e
  | none ↦ ok (usage_of stat swap)
]

-- `collect`
unfoldable pub collect_usage : FileSystem → Group → Reads Usage
unfolding checked_usage read_swap
collect_usage fs g = do
  stat ← read_stat fs g (codes "memory.stat")
  swap ←
      if is_root g then pure (pos 0) else read_property fs g (codes "memory.swap.current") read_swap
  lift (checked_usage stat swap)

-- What the usage leaves of the total, value by value.
unfoldable pub subtract_child : Usage → Usage → Usage
subtract_child total u = record {
  rss = at_least_zero (sub_int64 total.rss u.rss);
  swap = at_least_zero (sub_int64 total.swap u.swap);
  cache = at_least_zero (sub_int64 total.cache u.cache);
  kernel = at_least_zero (sub_int64 total.kernel u.kernel);
}

-- `collectRoot`, behind the choice of the children.
unfoldable pub collect_root : FileSystem → Group → List Bytes → Usage → Reads Usage
collect_root fs g exclude u = do
  cs ← net_children fs g exclude
  collect_children (collect_usage fs) subtract_child g cs u

-- `Collect`: a usage that is found is what it hands to `record`.
unfoldable pub collect : FileSystem → Group → List Bytes → Reads Usage
unfolding collect_root
collect fs g exclude = do
  u ← collect_usage fs g
  if is_net g exclude then collect_root fs g exclude u else pure u
