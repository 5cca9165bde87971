-- ===== src/Util.antt =====
-- internal/util/util.go: reading a file, and parsing it line by line.
pub mod Lines
pub mod Formatting
use server_metrics.Base.{
  ℕ, ◌-◌, Bool, List, [], ◌∷◌, Option, none, some, Bytes, map, leb, ◌==◌, if◌then◌else◌, length,
  take, is_empty, Result, ok, err, ◌>>=◌,
}
use server_metrics.Error.{Error, too_long_line}
use server_metrics.Text.{split, has_suffix, trim_space}

-- An open file: what reading it yields, and the error that ends the reading before the end.
pub record Reader : Type 0 where
  pub content : Bytes
  pub failure : Option Error

-- What `os.Open` gives: the file, and the error of its `Close`.
pub record File : Type 0 where
  pub reader : Reader
  pub close_failure : Option Error

close_file {ℓ} : {A : Type ℓ} → Option Error → Result Error A → Result Error A
close_file none r = r
close_file (some e) (ok a) = err e
close_file (some e) (err e') = err e'

-- `ReadFile` and `ReadFileReturning`; a reader that fails is named in the text of the error alone.
unfoldable pub read_file {ℓ} :
    {A : Type ℓ} → Result Error File → (Reader → Result Error A) → Result Error A
unfolding close_file
read_file (err e) reader = err e
read_file (ok f) reader = close_file f.close_failure (reader f.reader)

-- `bufio.MaxScanTokenSize`: a line that fills the scanner's buffer ends the scan.
abbrev pub max_line : ℕ
max_line = 65536

-- No line stands behind the last newline of a file.
unfoldable pub drop_last_empty : List Bytes → List Bytes
drop_last_empty [] = []
drop_last_empty (p ∷ []) = if is_empty p then [] else p ∷ []
drop_last_empty (p ∷ q ∷ ps) = p ∷ drop_last_empty (q ∷ ps)

-- `bufio.ScanLines` drops one carriage return.
unfoldable pub drop_cr : Bytes → Bytes
unfolding has_suffix
drop_cr line = if has_suffix line (b'\r' ∷ []) then take (length line - 1) line else line

unfoldable pub scan_lines : Bytes → List Bytes
unfolding split drop_last_empty
scan_lines content = drop_last_empty (split content b'\n')

-- The line as `ParseFile` hands it to the parser.
unfoldable pub clean_line : Bytes → Bytes
unfolding drop_cr trim_space
clean_line line = trim_space (drop_cr line)

module _ {ℓ} {S : Type ℓ} (parser : S → Bytes → Result Error S) where
  -- A blank line is passed over.
  unfoldable pub parse_line : S → Bytes → Result Error S
  parse_line s line = if is_empty line then ok s else parser s line

  unfoldable pub parse_lines : S → List Bytes → Option Error → Result Error S
  unfolding parse_line clean_line
  parse_lines s [] none = ok s
  parse_lines s [] (some e) = err e
  parse_lines s (line ∷ lines) failure =
      if leb max_line (length line)
      then err too_long_line
      else parse_line s (clean_line line) >>= λ s'. parse_lines s' lines failure

  -- `ParseFile`; the parser's variables are its state.
  unfoldable pub parse_file : S → Reader → Result Error S
  unfolding parse_lines scan_lines
  parse_file s reader = parse_lines s (scan_lines reader.content) reader.failure
