-- ===== src/Slab/Info/Columns.antt =====
-- The columns of the header that the lines behind it are read by.
use server_metrics.Base.{
  ℕ, zero, suc, ◌+◌, ◌≡◌, ◌≢◌, ◌∙◌, ap, sym, refl, ◌⊎◌, inl, inr, Bool, true, false, not, ◌||◌,
  List, [], ◌∷◌, Option, none, some, Bytes, codes, same, same_iff, ◌==◌, length, get_elem?,
  is_empty, ℤ, ok, err, ok_cancel, bind-eq-ok, arith, Bool-cases,
}
use server_metrics.Error.{invalid_value, index_out_of_range}
use server_metrics.Text.{parse_int}
use server_metrics.Slab.Info.{
  SlabInfoHeader, split_slab_info_line, pages_per_slab_name, num_slabs_name, set_column,
  set_columns, check_columns, map_columns, parse_slab_info_header, read_columns, parse_column,
  checked_value, is_invalid, parse_slab_info_stat_line,
}

-- A column is not found yet, or holds its name.
abbrev IsFound : List Bytes → Bytes → ℕ → Type 0
IsFound columns name column = (column ≡ 0) ⊎ (get_elem? columns column ≡ some name)

abbrev IsHeaderOf : List Bytes → SlabInfoHeader → Type 0
IsHeaderOf columns h =
    (h.columns ≡ length columns)
    × IsFound columns pages_per_slab_name h.pages_per_slab_column
    × IsFound columns num_slabs_name h.num_slabs_column

set_column-IsHeaderOf :
    (columns : List Bytes) (column : ℕ) (name : Bytes) (h : SlabInfoHeader) {h' : SlabInfoHeader}
    → get_elem? columns column ≡ some name
    → IsHeaderOf columns h
    → set_column column name h ≡ ok h'
    → IsHeaderOf columns h'
unfolding set_column
set_column-IsHeaderOf columns column name h at (n, p, s) e =
    ground (arith, same_iff name pages_per_slab_name, same_iff name num_slabs_name)

shift : (a b : ℕ) → a + suc b ≡ suc a + b
shift a b = omega arith

behind_first : (i : ℕ) → suc i ≡ 1 + i
behind_first i = omega arith

no_shift : (a : ℕ) → a ≡ a + 0
no_shift a = omega arith

set_columns-IsHeaderOf :
    (columns : List Bytes) (column : ℕ) (names : List Bytes) (h : SlabInfoHeader)
    {h' : SlabInfoHeader}
    → ((i : ℕ) → get_elem? names i ≡ get_elem? columns (column + i))
    → IsHeaderOf columns h
    → set_columns column names h ≡ ok h'
    → IsHeaderOf columns h'
unfolding set_columns
set_columns-IsHeaderOf columns column [] h {h'} at v e = rw (sym (ok_cancel e)) v
set_columns-IsHeaderOf columns column (name ∷ names) h at v e =
    let (g, first, rest) =
      bind-eq-ok (set_column column name h) (λ g. set_columns (suc column) names g) e in
    set_columns-IsHeaderOf columns (suc column) names g
      (λ i. at (suc i) ∙ ap (get_elem? columns) (shift column i))
      (set_column-IsHeaderOf columns column name h
        (ap (get_elem? columns) (no_shift column) ∙ sym (at 0)) v first)
      rest

-- The header knows the columns of a line.
abbrev pub IsComplete : List Bytes → SlabInfoHeader → Type 0
IsComplete columns h =
    (h.columns ≡ length columns)
    × (get_elem? columns h.pages_per_slab_column ≡ some pages_per_slab_name)
    × (get_elem? columns h.num_slabs_column ≡ some num_slabs_name)

check_columns-IsComplete :
    (columns : List Bytes) (h : SlabInfoHeader) {h' : SlabInfoHeader}
    → IsHeaderOf columns h
    → check_columns h ≡ ok h'
    → IsComplete columns h'
unfolding check_columns
check_columns-IsComplete columns h (n, p, s) e = ground arith

map_columns-IsComplete :
    (line : Bytes) (columns : List Bytes) {h : SlabInfoHeader}
    → map_columns line columns ≡ ok h
    → IsComplete columns h
unfolding map_columns
map_columns-IsComplete line [] e = absurd (cc e)
map_columns-IsComplete line (first ∷ names) e =
    elim (Bool-cases (is_empty names || not (same first (codes "name")))) [
      | inl bad ↦ absurd (cc (rw bad at e))
      | inr good ↦
          let start : SlabInfoHeader = record {
            columns = length (first ∷ names);
            num_slabs_column = 0;
            pages_per_slab_column = 0;
          } in
          let (g, mapped, checked) =
            bind-eq-ok (set_columns 1 names start) check_columns (rw good at e) in
          check_columns-IsComplete (first ∷ names) g
            (set_columns-IsHeaderOf (first ∷ names) 1 names start
              (λ i. ap (get_elem? (first ∷ names)) (behind_first i)) (refl, inl refl, inl refl)
              mapped)
            checked
    ]

-- A header that is accepted counts the columns of its line, and the two columns that it found stand
-- where the line has their names.
pub parse_slab_info_header-IsComplete :
    (line : Bytes) {h : SlabInfoHeader}
    → parse_slab_info_header line ≡ ok h
    → IsComplete (split_slab_info_line line) h
unfolding parse_slab_info_header
parse_slab_info_header-IsComplete line e = map_columns-IsComplete line (split_slab_info_line line) e

get_elem?-eq-some :
    {A : Type 0} (xs : List A) (i n : ℕ) {x : A}
    → get_elem? xs i ≡ some x
    → length xs ≡ n
    → (ys : List A) → length ys ≡ n
    → (y : A) × (get_elem? ys i ≡ some y)
get_elem?-eq-some [] i n h k ys m = absurd (cc h)
get_elem?-eq-some (x ∷ xs) zero n h k [] m = absurd (omega arith)
get_elem?-eq-some (x ∷ xs) zero n h k (y ∷ ys) m = (y, refl)
get_elem?-eq-some (x ∷ xs) (suc i) n h k [] m = absurd (omega arith)
get_elem?-eq-some (x ∷ xs) (suc i) n h k (y ∷ ys) m =
    get_elem?-eq-some xs i (length xs) h refl ys (omega arith)

parse_column-cases :
    (name : Bytes) (strictly_positive : Bool) (text : Bytes)
    → ((value : ℤ) × (parse_column name strictly_positive (some text) ≡ ok value))
      ⊎ (parse_column name strictly_positive (some text) ≡ err (invalid_value name))
unfolding parse_column checked_value
parse_column-cases name strictly_positive text = checked (parse_int text)
  where
    checked :
        (value : Option ℤ)
        → ((v : ℤ) × (checked_value name strictly_positive value ≡ ok v))
          ⊎ (checked_value name strictly_positive value ≡ err (invalid_value name))
    checked none = inr refl
    checked (some value) = elim (Bool-cases (is_invalid strictly_positive value)) [
      | inl bad ↦ inr (rw bad refl)
      | inr good ↦ inl (value, rw good refl)
    ]

get_elem?-first :
    {A : Type 0} (xs : List A) (i : ℕ) {x : A}
    → get_elem? xs i ≡ some x
    → (y : A) × (get_elem? xs 0 ≡ some y)
get_elem?-first [] i h = absurd (cc h)
get_elem?-first (x ∷ xs) i h = (x, refl)

read_columns-safe :
    (page_size : ℤ) (h : SlabInfoHeader) (columns : List Bytes) (count pages name : Bytes)
    → get_elem? columns h.num_slabs_column ≡ some count
    → get_elem? columns h.pages_per_slab_column ≡ some pages
    → get_elem? columns 0 ≡ some name
    → read_columns page_size h columns ≢ err index_out_of_range
unfolding read_columns
read_columns-safe page_size h columns count pages name hc hp hn =
    rw (hc, hp, hn)
      (elim (parse_column-cases (codes "num_slabs") false count) [
        | inr e ↦ rw e (λ k. absurd (cc k))
        | inl (v, e) ↦ rw e (elim (parse_column-cases (codes "pagesperslab") true pages) [
          | inr e' ↦ rw e' (λ k. absurd (cc k))
          | inl (w, e') ↦ rw e' (λ k. absurd (cc k))
        ])
      ])

-- A line that is read by a header that was accepted never makes an index run out of range.
pub parse_slab_info_stat_line-safe :
    (page_size : ℤ) (header_line line : Bytes) {h : SlabInfoHeader}
    → parse_slab_info_header header_line ≡ ok h
    → parse_slab_info_stat_line page_size h line ≢ err index_out_of_range
unfolding parse_slab_info_stat_line
parse_slab_info_stat_line-safe page_size header_line line {h} e =
    elim (Bool-cases (length (split_slab_info_line line) == h.columns)) [
      | inr other ↦ rw other (λ k. absurd (cc k))
      | inl fits ↦
          let (n, pages, slabs) = parse_slab_info_header-IsComplete header_line e in
          let known : List Bytes = split_slab_info_line header_line in
          let columns : List Bytes = split_slab_info_line line in
          let same_count : length columns ≡ length known = ground (arith, n, fits) in
          let (p, hp) = get_elem?-eq-some known _ _ pages refl columns same_count in
          let (c, hc) = get_elem?-eq-some known _ _ slabs refl columns same_count in
          let (f, hf) =
            get_elem?-eq-some known 0 _ (get_elem?-first known _ pages).1 refl columns same_count in
          rw fits (read_columns-safe page_size h columns c p f hc hp hf)
    ]
