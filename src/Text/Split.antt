-- ===== src/Text/Split.antt =====
-- Splitting a text gives back the pieces that it was joined from.
use server_metrics.Base.{ℕ, Bool, List, [], ◌∷◌, ◌++◌, ◌≡◌, ◌≢◌, ◌∙◌, refl, ap, arith, Bytes, All}
use server_metrics.Text.Defs.{split_on, split}

-- No byte of the text is `b`.
abbrev pub Lacks : ℕ → Bytes → Type 0
Lacks b = All (λ c. c ≢ b)

-- The pieces with one `sep` between each two.
unfoldable pub join : List Bytes → ℕ → Bytes
join [] sep = []
join (p ∷ []) sep = p
join (p ∷ q ∷ ps) sep = p ++ (sep ∷ join (q ∷ ps) sep)

split_on-ne : (is_sep : ℕ → Bool) (s : Bytes) → split_on is_sep s ≢ []
unfolding split_on
split_on-ne is_sep [] h = cc
split_on-ne is_sep (c ∷ s) h = ground (arith, split_on-ne is_sep s)

pub split_self : (p : Bytes) (sep : ℕ) → Lacks sep p → split p sep ≡ p ∷ []
unfolding split
split_self [] sep h = refl
split_self (c ∷ p) sep (hc, hp) = ground (arith, split_self p sep hp)

pub split-append :
    (p : Bytes) (sep : ℕ) (s : Bytes) → Lacks sep p → split (p ++ (sep ∷ s)) sep ≡ p ∷ split s sep
unfolding split
split-append [] sep s h = ground arith
split-append (c ∷ p) sep s (hc, hp) = ground (arith, split-append p sep s hp)

pub split-join :
    (p : Bytes) (ps : List Bytes) (sep : ℕ)
    → All (Lacks sep) (p ∷ ps)
    → split (join (p ∷ ps) sep) sep ≡ p ∷ ps
unfolding join
split-join p [] sep (h, _) = split_self p sep h
split-join p (q ∷ ps) sep (h, hs) =
    split-append p sep (join (q ∷ ps) sep) h ∙ ap (◌∷◌ p) (split-join q ps sep hs)
