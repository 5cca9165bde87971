-- ===== src/Text/Find.antt =====
-- Finding a byte, and cutting a text there.
use server_metrics.Base.{
  ℕ, suc, ◌≡◌, ◌≢◌, refl, ap, List, [], ◌∷◌, ◌++◌, none, some, Bytes, arith, length, take, drop,
  All, All-append,
}
use server_metrics.Text.Defs.{index_byte, last_index_byte}
use server_metrics.Text.Split.{Lacks, join}

-- The byte is found behind a text that lacks it.
pub index_byte-append :
    (p : Bytes) (b : ℕ) (s : Bytes) → Lacks b p → index_byte (p ++ (b ∷ s)) b ≡ some (length p)
unfolding index_byte
index_byte-append [] b s h = ground arith
index_byte-append (c ∷ p) b s (hc, h) = ground (arith, index_byte-append p b s h)

pub take-append : (p s : Bytes) → take (length p) (p ++ s) ≡ p
take-append [] s = refl
take-append (c ∷ p) s = ap (◌∷◌ c) (take-append p s)

pub drop-append_cons : (p : Bytes) (b : ℕ) (s : Bytes) → drop (suc (length p)) (p ++ (b ∷ s)) ≡ s
drop-append_cons [] b s = refl
drop-append_cons (c ∷ p) b s = drop-append_cons p b s

pub Lacks-join : (b sep : ℕ) (ps : List Bytes) → sep ≢ b → All (Lacks b) ps → Lacks b (join ps sep)
unfolding join
Lacks-join b sep [] ne h = tt
Lacks-join b sep (p ∷ []) ne (hp, _) = hp
Lacks-join b sep (p ∷ q ∷ ps) ne (hp, h) =
    All-append (λ c. c ≢ b) p (sep ∷ join (q ∷ ps) sep) hp (ne, Lacks-join b sep (q ∷ ps) ne h)

-- The last byte of its kind is found in front of a text that lacks it.
last_index_byte-Lacks : (b : ℕ) (s : Bytes) → Lacks b s → last_index_byte s b ≡ none
unfolding last_index_byte
last_index_byte-Lacks b [] h = refl
last_index_byte-Lacks b (c ∷ s) (hc, h) = ground (arith, last_index_byte-Lacks b s h)

pub last_index_byte-append :
    (p : Bytes) (b : ℕ) (s : Bytes) → Lacks b s → last_index_byte (p ++ (b ∷ s)) b ≡ some (length p)
unfolding last_index_byte
last_index_byte-append [] b s h = ground (arith, last_index_byte-Lacks b s h)
last_index_byte-append (c ∷ p) b s h = ground (arith, last_index_byte-append p b s h)
