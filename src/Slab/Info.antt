-- ===== src/Slab/Info.antt =====
-- internal/slab/slabinfo.go: the file /proc/slabinfo.
pub mod Columns
use server_metrics.Base.{
  ℕ, zero, suc, ◌+◌, Bool, true, false, not, ◌&&◌, ◌||◌, List, [], ◌∷◌, ◌++◌, Option, none, some,
  Bytes, codes, same, ◌==◌, ltb, if◌then◌else◌, length, get_elem?, drop, is_empty, ℤ, pos, ltb_ℤ,
  mul_int64, Result, ok, err, ◌>>=◌, guard, ◌>>◌,
}
use server_metrics.Error.{
  Error, unexpected_line, duplicated_key, missing_entry, invalid_value, wrong_column_count,
  empty_file, index_out_of_range,
}
use server_metrics.Text.{split, has_prefix, parse_int}
use server_metrics.Util.{Reader, parse_file}

-- `slabInfoHeader`
pub record SlabInfoHeader : Type 0 where
  pub columns : ℕ
  pub num_slabs_column : ℕ
  pub pages_per_slab_column : ℕ

pub record SlabInfo : Type 0 where
  pub name : Bytes
  pub size : ℤ

-- A run of spaces is one separator, so that a token can be empty at the ends of a line alone.
drop_inner_empty : List Bytes → List Bytes
drop_inner_empty [] = []
drop_inner_empty (t ∷ []) = t ∷ []
drop_inner_empty (t ∷ u ∷ ts) =
    let rest = drop_inner_empty (u ∷ ts) in if is_empty t then rest else t ∷ rest

merge_spaces : List Bytes → List Bytes
unfolding drop_inner_empty
merge_spaces [] = []
merge_spaces (t ∷ ts) = t ∷ drop_inner_empty ts

-- `splitSlabInfoLine`
unfoldable pub split_slab_info_line : Bytes → List Bytes
unfolding merge_spaces
split_slab_info_line line = merge_spaces (split line b' ')

abbrev pub pages_per_slab_name : Bytes
pages_per_slab_name = codes "<pagesperslab>"

abbrev pub num_slabs_name : Bytes
num_slabs_name = codes "<num_slabs>"

-- The body of the loop over the columns of the header.
unfoldable pub set_column : ℕ → Bytes → SlabInfoHeader → Result Error SlabInfoHeader
set_column column name h =
    if same name pages_per_slab_name
    then (if h.pages_per_slab_column == 0
        then ok (record h { pages_per_slab_column = column })
        else err (duplicated_key name))
    else if same name num_slabs_name
    then (if h.num_slabs_column == 0
        then ok (record h { num_slabs_column = column })
        else err (duplicated_key name))
    else ok h

unfoldable pub set_columns : ℕ → List Bytes → SlabInfoHeader → Result Error SlabInfoHeader
unfolding set_column
set_columns column [] h = ok h
set_columns column (name ∷ names) h =
    set_column column name h >>= λ h'. set_columns (suc column) names h'

-- The check of the mapping, whose order Go leaves open: it decides which of two missing columns the
-- error names.
unfoldable pub check_columns : SlabInfoHeader → Result Error SlabInfoHeader
check_columns h =
    if h.pages_per_slab_column == 0
    then err (missing_entry pages_per_slab_name)
    else if h.num_slabs_column == 0
    then err (missing_entry num_slabs_name)
    else ok h

unfoldable pub map_columns : Bytes → List Bytes → Result Error SlabInfoHeader
unfolding set_columns check_columns
map_columns line [] = err (unexpected_line line)
map_columns line (first ∷ names) =
    if is_empty names || not (same first (codes "name"))
    then err (unexpected_line line)
    else set_columns 1 names (record {
      columns = length (first ∷ names);
      num_slabs_column = 0;
      pages_per_slab_column = 0;
    })
      >>= check_columns

-- `parseSlabInfoHeader`
unfoldable pub parse_slab_info_header : Bytes → Result Error SlabInfoHeader
unfolding map_columns split_slab_info_line
parse_slab_info_header line = map_columns line (split_slab_info_line line)

abbrev pub is_invalid : Bool → ℤ → Bool
is_invalid strictly_positive value =
    ltb_ℤ value (pos 0) || (strictly_positive && not (ltb_ℤ (pos 0) value))

unfoldable pub checked_value : Bytes → Bool → Option ℤ → Result Error ℤ
checked_value name strictly_positive none = err (invalid_value name)
checked_value name strictly_positive (some value) =
    if is_invalid strictly_positive value then err (invalid_value name) else ok value

-- The function `parse` of `parseSlabInfoStatLine`.
unfoldable pub parse_column : Bytes → Bool → Option Bytes → Result Error ℤ
unfolding checked_value
parse_column name strictly_positive none = err index_out_of_range
parse_column name strictly_positive (some text) =
    checked_value name strictly_positive (parse_int text)

abbrev name_of : Option Bytes → Result Error Bytes
name_of none = err index_out_of_range
name_of (some name) = ok name

unfoldable pub read_columns : ℤ → SlabInfoHeader → List Bytes → Result Error SlabInfo
unfolding parse_column
read_columns page_size h columns = do
  count ← parse_column (codes "num_slabs") false (get_elem? columns h.num_slabs_column)
  pages_per_slab ←
      parse_column (codes "pagesperslab") true (get_elem? columns h.pages_per_slab_column)
  name ← name_of (get_elem? columns 0)
  ok (record { name = name; size = mul_int64 (mul_int64 count pages_per_slab) page_size })

-- `parseSlabInfoStatLine`; the size of a page is the system's.
unfoldable pub parse_slab_info_stat_line : ℤ → SlabInfoHeader → Bytes → Result Error SlabInfo
unfolding read_columns split_slab_info_line
parse_slab_info_stat_line page_size h line =
    let columns = split_slab_info_line line in
    if length columns == h.columns
    then read_columns page_size h columns
    else err (wrong_column_count (length columns))

-- The variables of `parseSlabInfo`.
pub record SlabInfoFile : Type 0 where
  pub line_index : ℕ
  pub header : SlabInfoHeader
  pub slabs : List SlabInfo

abbrev next_line : SlabInfoFile → SlabInfoFile
next_line s = record s { line_index = s.line_index + 1 }

parse_first_line : SlabInfoFile → Bytes → Result Error SlabInfoFile
parse_first_line s line =
    if has_prefix line (codes "slabinfo - version:")
    then ok (next_line s)
    else err (unexpected_line line)

parse_second_line : SlabInfoFile → Bytes → Result Error SlabInfoFile
parse_second_line s line =
    if has_prefix line (codes "# ")
    then (parse_slab_info_header (drop 2 line) >>= λ h. ok (next_line (record s { header = h })))
    else err (unexpected_line line)

parse_next_line : ℤ → SlabInfoFile → Bytes → Result Error SlabInfoFile
parse_next_line page_size s line = parse_slab_info_stat_line page_size s.header line >>= λ slab.
    ok (next_line (record s { slabs = s.slabs ++ (slab ∷ []) }))

unfoldable pub parse_slab_info_line : ℤ → SlabInfoFile → Bytes → Result Error SlabInfoFile
unfolding parse_first_line parse_second_line parse_next_line
parse_slab_info_line page_size s line =
    if s.line_index == 0
    then parse_first_line s line
    else if s.line_index == 1
    then parse_second_line s line
    else parse_next_line page_size s line

abbrev pub no_lines : SlabInfoFile
no_lines = record {
  line_index = 0;
  header = record { columns = 0; num_slabs_column = 0; pages_per_slab_column = 0 };
  slabs = [];
}

-- `parseSlabInfo`
unfoldable pub parse_slab_info : ℤ → Reader → Result Error (List SlabInfo)
unfolding parse_slab_info_line
parse_slab_info page_size r = do
  s ← parse_file (parse_slab_info_line page_size) no_lines r
  if is_empty s.slabs then err empty_file else ok s.slabs
