-- ===== src/Regexp.antt =====
-- The regular expressions of the program, as Go's package regexp matches them: anchored at the start
-- of the text, the leftmost alternative and the longest repetition first, with backtracking. All that
-- the program repeats is a class of bytes.
pub mod Literal
use server_metrics.Base.{
  ℕ, zero, suc, ◌-◌, Bool, List, [], ◌∷◌, Option, none, some, Bytes, ◌==◌, if◌then◌else◌, length,
  take,
}

pub data Regex : Type 0 where
  empty : Regex
  -- one byte of a class
  one : (ℕ → Bool) → Regex
  -- `+`: one or more bytes of a class
  many : (ℕ → Bool) → Regex
  -- one after the other
  seq : Regex → Regex → Regex
  -- `?`
  optional : Regex → Regex
  -- `|`
  either : Regex → Regex → Regex
  -- the n-th pair of parentheses
  group : ℕ → Regex → Regex
  -- `$`
  end_of_text : Regex

-- The texts of the groups that took part in the match, the later first.
abbrev pub Captures : Type 0
Captures = List (ℕ × Bytes)

-- What follows a part of the expression: it gets the unread text.
abbrev pub Next : Type 0
Next = Bytes → Captures → Option (Bytes × Captures)

unfoldable pub first_of {ℓ} : {A : Type ℓ} → Option A → Option A → Option A
first_of (some a) o = some a
first_of none o = o

-- The longest run of bytes of the class that lets the rest match.
unfoldable pub run_many : (ℕ → Bool) → Bytes → Captures → Next → Option (Bytes × Captures)
unfolding first_of
run_many p [] caps next = none
run_many p (c ∷ s) caps next =
    let more = run_many p s caps next in if p c then first_of more (next s caps) else none

unfoldable pub at_end : Bytes → Captures → Next → Option (Bytes × Captures)
at_end [] caps next = next [] caps
at_end (c ∷ s) caps next = none

unfoldable pub run_one : (ℕ → Bool) → Bytes → Captures → Next → Option (Bytes × Captures)
run_one p [] caps next = none
run_one p (c ∷ s) caps next = if p c then next s caps else none

unfoldable pub run : Regex → Bytes → Captures → Next → Option (Bytes × Captures)
unfolding run_many at_end run_one first_of
run empty s caps next = next s caps
run (one p) s caps next = run_one p s caps next
run (many p) s caps next = run_many p s caps next
run (seq a b) s caps next = run a s caps (λ s' caps'. run b s' caps' next)
run (optional a) s caps next = first_of (run a s caps next) (next s caps)
run (either a b) s caps next = first_of (run a s caps next) (run b s caps next)
run (group n a) s caps next =
    run a s caps (λ s' caps'. next s' ((n, take (length s - length s') s) ∷ caps'))
run end_of_text s caps next = at_end s caps next

-- `FindStringSubmatch`: the unread rest behind the match, and the groups.
unfoldable pub find_submatch : Regex → Bytes → Option (Bytes × Captures)
unfolding run
find_submatch r s = run r s [] (λ rest caps. some (rest, caps))

-- The text of a group; a group that took no part has none, as in Go.
unfoldable pub captured : ℕ → Captures → Bytes
captured n [] = []
captured n ((m, text) ∷ caps) = if m == n then text else captured n caps

-- The bytes of a literal, one after another.
unfoldable pub literal : Bytes → Regex
literal [] = empty
literal (c ∷ []) = one (λ d. d == c)
literal (c ∷ d ∷ s) = seq (one (λ d. d == c)) (literal (d ∷ s))

-- Exactly so many bytes of a class.
unfoldable pub repeated : ℕ → (ℕ → Bool) → Regex
repeated zero p = empty
repeated (suc n) p = seq (one p) (repeated n p)
