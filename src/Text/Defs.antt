-- ===== src/Text/Defs.antt =====
-- The functions of the packages bytes, strings and strconv.
use mathlib.Core.Option
use server_metrics.Base.{
  ℕ, zero, suc, ◌+◌, ◌-◌, ◌*◌, ◌^◌, Bool, true, false, ◌&&◌, ◌||◌, List, [], ◌∷◌, ◌++◌, Option,
  none, some, Bytes, ltb, leb, ◌==◌, if◌then◌else◌, same, length, drop, is_empty, ℤ, pos, negsuc,
}

-- `bytes.IndexByte`; `none` is -1.
unfoldable pub index_byte : Bytes → ℕ → Option ℕ
index_byte [] b = none
index_byte (c ∷ s) b = if c == b then some 0 else Option.map suc (index_byte s b)

-- `bytes.LastIndexByte`; `none` is -1.
unfoldable pub last_index_byte : Bytes → ℕ → Option ℕ
last_index_byte [] b = none
last_index_byte (c ∷ s) b = elim (last_index_byte s b) [
  | some i ↦ some (suc i)
  | none ↦ if c == b then some 0 else none
]

-- One byte in front of the pieces of a text; the flag tells that it separates.
unfoldable pub split_cons : Bool → ℕ → List Bytes → List Bytes
split_cons true c ps = [] ∷ ps
split_cons false c [] = (c ∷ []) ∷ []
split_cons false c (p ∷ ps) = (c ∷ p) ∷ ps

unfoldable pub split_on : (ℕ → Bool) → Bytes → List Bytes
unfolding split_cons
split_on is_sep [] = [] ∷ []
split_on is_sep (c ∷ s) = split_cons (is_sep c) c (split_on is_sep s)

-- `strings.Split(s, sep)` at a separator of one byte.
unfoldable pub split : Bytes → ℕ → List Bytes
unfolding split_on
split s sep = split_on (λ c. c == sep) s

-- `strings.SplitN(s, sep, 2)`.
unfoldable pub split_two : Bytes → ℕ → List Bytes
split_two [] sep = [] ∷ []
split_two (c ∷ s) sep = elim (c == sep) [
  | true ↦ [] ∷ s ∷ []
  | false ↦ elim (split_two s sep) [ [] ↦ (c ∷ []) ∷ [] | p ∷ ps ↦ (c ∷ p) ∷ ps ]
]

unfoldable pub is_space : ℕ → Bool
is_space c = leb 9 c && leb c 13 || c == 32

unfoldable pub drop_while : (ℕ → Bool) → Bytes → Bytes
drop_while p [] = []
drop_while p (c ∷ s) = let rest = drop_while p s in if p c then rest else c ∷ s

unfoldable pub drop_while_end : (ℕ → Bool) → Bytes → Bytes
drop_while_end p [] = []
drop_while_end p (c ∷ s) =
    let rest = drop_while_end p s in if is_empty rest && p c then [] else c ∷ rest

-- `strings.TrimSpace`.
unfoldable pub trim_space : Bytes → Bytes
unfolding is_space drop_while drop_while_end
trim_space s = drop_while_end is_space (drop_while is_space s)

unfoldable pub non_empty : List Bytes → List Bytes
non_empty [] = []
non_empty (p ∷ ps) = let rest = non_empty ps in if is_empty p then rest else p ∷ rest

-- `strings.Fields`.
unfoldable pub fields : Bytes → List Bytes
unfolding is_space split_on non_empty
fields s = non_empty (split_on is_space s)

-- `strings.HasPrefix(s, prefix)`.
unfoldable pub has_prefix : Bytes → Bytes → Bool
has_prefix s [] = true
has_prefix [] (p ∷ ps) = false
has_prefix (c ∷ s) (p ∷ ps) = c == p && has_prefix s ps

-- `strings.HasSuffix(s, suffix)`.
unfoldable pub has_suffix : Bytes → Bytes → Bool
has_suffix s suffix =
    leb (length suffix) (length s) && same (drop (length s - length suffix) s) suffix

-- `strings.ReplaceAll(s, old, new)` for a non-empty `old`; `skip` bytes of a match are left to pass.
unfoldable pub replace_from : Bytes → Bytes → ℕ → Bytes → Bytes
replace_from old new skip [] = []
replace_from old new (suc skip) (c ∷ s) = replace_from old new skip s
replace_from old new zero (c ∷ s) = elim (has_prefix (c ∷ s) old) [
  | true ↦ new ++ replace_from old new (length old - 1) s
  | false ↦ c ∷ replace_from old new 0 s
]

unfoldable pub replace_all : Bytes → Bytes → Bytes → Bytes
unfolding replace_from has_prefix
replace_all s old new = replace_from old new 0 s

unfoldable pub is_digit : ℕ → Bool
is_digit c = leb b'0' c && leb c b'9'

unfoldable pub decimal_from : ℕ → Bytes → Option ℕ
unfolding is_digit
decimal_from n [] = some n
decimal_from n (c ∷ s) =
    let rest = decimal_from (n * 10 + (c - b'0')) s in if is_digit c then rest else none

-- The number that one or more digits spell.
unfoldable pub decimal : Bytes → Option ℕ
unfolding decimal_from
decimal [] = none
decimal (c ∷ s) = decimal_from 0 (c ∷ s)

unfoldable pub bounded : ℕ → Option ℕ → Option ℕ
bounded limit none = none
bounded limit (some n) = if ltb n limit then some n else none

-- `strconv.ParseUint(s, 10, 64)`; `none` is an error, of syntax or of range.
unfoldable pub parse_uint : Bytes → Option ℕ
unfolding decimal bounded
parse_uint s = bounded (2 ^ 64) (decimal s)

abbrev pub negated : ℕ → ℤ
negated zero = pos 0
negated (suc n) = negsuc n

-- `strconv.ParseInt(s, 10, 64)`, and `strconv.Atoi` where int has 64 bits.
unfoldable pub parse_int : Bytes → Option ℤ
unfolding decimal bounded
parse_int [] = none
parse_int (c ∷ s) =
    if c == b'-'
    then Option.map negated (bounded (2 ^ 63 + 1) (decimal s))
    else if c == b'+'
    then Option.map pos (bounded (2 ^ 63) (decimal s))
    else Option.map pos (bounded (2 ^ 63) (decimal (c ∷ s)))
