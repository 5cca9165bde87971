-- ===== src/Util/Lines.antt =====
-- `ParseFile` folds its parser over the lines that are not blank.
use mathlib.Core.Path.{fun_ext}
use server_metrics.Base.{
  ℕ, ◌<◌, ◌∙◌, ap, All, ◌≡◌, inl, inr, refl, false, List, [], ◌∷◌, Option, none, some, arith, Bytes,
  map, Bool-cases, leb, if◌then◌else◌, length, is_empty, Result, ok, ◌>>=◌, bind-eq-ok,
}
use server_metrics.Error.{Error}
use server_metrics.Text.{non_empty}
use server_metrics.Util.{
  Reader, max_line, scan_lines, clean_line, parse_line, parse_lines, parse_file,
}

-- The lines that a parser gets to see.
unfoldable pub payload : Reader → List Bytes
payload r = non_empty (map clean_line (scan_lines r.content))

module _ {ℓ} {S : Type ℓ} (parser : S → Bytes → Result Error S) where
  unfoldable pub fold_lines : S → List Bytes → Result Error S
  fold_lines s [] = ok s
  fold_lines s (line ∷ lines) = parser s line >>= λ s'. fold_lines s' lines

  parse_line-eq-ok :
      (s : S) (line : Bytes) (rest : List Bytes) {u t : S}
      → parse_line parser s line ≡ ok u
      → fold_lines u rest ≡ ok t
      → fold_lines s (if is_empty line then rest else line ∷ rest) ≡ ok t
  unfolding parse_line fold_lines
  parse_line-eq-ok s [] rest h k = cc
  parse_line-eq-ok s (c ∷ line) rest h k = rw (h, ◌>>=◌) k

  parse_lines-eq-ok :
      (s : S) (lines : List Bytes) (failure : Option Error) {t : S}
      → parse_lines parser s lines failure ≡ ok t
      → (fold_lines s (non_empty (map clean_line lines)) ≡ ok t) × (failure ≡ none)
  unfolding fold_lines non_empty parse_lines
  parse_lines-eq-ok s [] none h = (h, refl)
  parse_lines-eq-ok s [] (some e) h = cc
  parse_lines-eq-ok s (line ∷ lines) failure h = elim (Bool-cases (leb max_line (length line))) [
    | inl long ↦ cc (rw long at h)
    | inr short ↦
        let (u, first, later) = bind-eq-ok _ _ (rw short at h) in
        let (folded, ended) = parse_lines-eq-ok u lines failure later in
        (parse_line-eq-ok s (clean_line line) _ first folded, ended)
  ]

  -- What it returns is the fold over the payload, and the file was read to its end.
  pub parse_file-eq-ok :
      (s : S) (r : Reader) {t : S}
      → parse_file parser s r ≡ ok t
      → (fold_lines s (payload r) ≡ ok t) × (r.failure ≡ none)
  unfolding parse_file payload
  parse_file-eq-ok s r h = parse_lines-eq-ok s (scan_lines r.content) r.failure h

  parse_line-fold :
      (s : S) (line : Bytes) (rest : List Bytes)
      → (parse_line parser s line >>= λ u. fold_lines u rest)
        ≡ fold_lines s (if is_empty line then rest else line ∷ rest)
  unfolding parse_line fold_lines
  parse_line-fold s [] rest = refl
  parse_line-fold s (c ∷ line) rest = refl

  parse_lines-fold :
      (s : S) (lines : List Bytes)
      → All (λ line. length line < max_line) lines
      → parse_lines parser s lines none ≡ fold_lines s (non_empty (map clean_line lines))
  unfolding parse_lines non_empty
  parse_lines-fold s [] h = unfold fold_lines in refl
  parse_lines-fold s (line ∷ lines) (short, h) = rw (fits (length line) short) (
      ap (λ k. parse_line parser s (clean_line line) >>= k)
        (fun_ext λ u. parse_lines-fold u lines h)
      ∙ parse_line-fold s (clean_line line) (non_empty (map clean_line lines)))
    where
      fits : (n : ℕ) → n < max_line → leb max_line n ≡ false
      fits n short = ground arith

  -- A file that is read to its end and has no line that is too long is parsed line by line.
  pub parse_file-fold :
      (s : S) (r : Reader)
      → r.failure ≡ none
      → All (λ line. length line < max_line) (scan_lines r.content)
      → parse_file parser s r ≡ fold_lines s (payload r)
  unfolding parse_file payload
  parse_file-fold s r ended short = rw ended (parse_lines-fold s (scan_lines r.content) short)
