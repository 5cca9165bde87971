-- ===== src/Util/Formatting.antt =====
-- internal/util/formatting.go: lists of numbers as texts.
use mathlib.Core.List.{Permᴰ}
use mathlib.Core.List.Permᴰ.{nil, cons, swap, trans}
use server_metrics.Base.{
  ℕ, zero, suc, ◌+◌, ◌/◌, ◌%◌, ◌≡◌, ◌∙◌, ap, refl, Bool, true, List, [], ◌∷◌, ◌++◌, Bytes, codes,
  leb, ltb, if◌then◌else◌, arith,
}

-- The digits of a number in front of a text; the fuel is the number itself, which has no more digits.
unfoldable pub digits_before : ℕ → ℕ → Bytes → Bytes
digits_before zero n text = text
digits_before (suc fuel) n text =
    let longer = digits_before fuel (n / 10) ((b'0' + n % 10) ∷ text) in
    if ltb n 10 then (b'0' + n) ∷ text else longer

-- `%v` of an unsigned number.
unfoldable pub format_number : ℕ → Bytes
unfolding digits_before
format_number n = digits_before (suc n) n []

unfoldable pub insert_sorted : ℕ → List ℕ → List ℕ
insert_sorted a [] = a ∷ []
insert_sorted a (b ∷ bs) = let rest = insert_sorted a bs in if leb a b then a ∷ b ∷ bs else b ∷ rest

-- `sort.Sort` of numbers: equal numbers cannot be told apart, so that every sort gives the same list.
unfoldable pub sort : List ℕ → List ℕ
unfolding insert_sorted
sort [] = []
sort (a ∷ as') = insert_sorted a (sort as')

-- The texts with a comma between each two.
unfoldable pub format_numbers : List ℕ → Bytes
unfolding format_number
format_numbers [] = []
format_numbers (a ∷ []) = format_number a
format_numbers (a ∷ b ∷ bs) = format_number a ++ codes ", " ++ format_numbers (b ∷ bs)

-- `FormatList`
unfoldable pub format_list : List ℕ → Bool → Bytes
unfolding sort format_numbers
format_list ns sorted = format_numbers (if sorted then sort ns else ns)

swapped_inserts :
    (a b : ℕ) (ns : List ℕ)
    → insert_sorted a (insert_sorted b ns) ≡ insert_sorted b (insert_sorted a ns)
unfolding insert_sorted
swapped_inserts a b [] = ground arith
swapped_inserts a b (n ∷ ns) = ground (arith, swapped_inserts a b ns)

sort-Perm : {ns ms : List ℕ} → Permᴰ ns ms → sort ns ≡ sort ms
unfolding sort
sort-Perm nil = refl
sort-Perm (cons {a} {b} {l₁} {l₂} e d) = rw (e, sort-Perm d) refl
sort-Perm (swap {a} {b} {a'} {b'} {l} e e') = rw (e, e') (swapped_inserts b' a' (sort l))
sort-Perm (trans d d') = sort-Perm d ∙ sort-Perm d'

-- The text of a list that is to be sorted does not depend on the order of the list.
pub format_list-Perm : {ns ms : List ℕ} → Permᴰ ns ms → format_list ns true ≡ format_list ms true
unfolding format_list
format_list-Perm d = ap format_numbers (sort-Perm d)
