-- ===== src/Regexp/Literal.antt =====
-- What a literal, and a run of a class at the end of the text, match.
use server_metrics.Base.{
  ℕ, ◌≡◌, ◌∙◌, ap, refl, inl, inr, Bool, true, false, ◌&&◌, ◌==◌, [], ◌∷◌, ◌++◌, Option, none, some,
  Bytes, bytes_eq, arith, all, if◌then◌else◌, Bool-cases,
}
use server_metrics.Regexp.{Captures, Next, first_of, run_many, run, literal}

eq_test : (c : ℕ) → (c == c) ≡ true
eq_test c = ground arith

ne_test : (d c : ℕ) → (d == c) ≡ true → d ≡ c
ne_test d c h = ground arith

-- A literal takes its text away.
pub run-literal :
    (p s : Bytes) (caps : Captures) (next : Next) → run (literal p) (p ++ s) caps next ≡ next s caps
unfolding run literal
run-literal [] s caps next = refl
run-literal (c ∷ []) s caps next = rw (eq_test c) refl
run-literal (c ∷ d ∷ p) s caps next = rw (eq_test c) (run-literal (d ∷ p) s caps next)

pub run-literal-eq-some :
    (p m : Bytes) (caps : Captures) (next : Next) {found : Bytes × Captures}
    → run (literal p) m caps next ≡ some found
    → (s : Bytes) × (m ≡ p ++ s) × (next s caps ≡ some found)
unfolding run literal
run-literal-eq-some [] m caps next h = (m, refl, h)
run-literal-eq-some (c ∷ []) [] caps next h = absurd (cc h)
run-literal-eq-some (c ∷ []) (d ∷ m) caps next h = elim (Bool-cases (d == c)) [
  | inr other ↦ absurd (cc (rw other at h))
  | inl e ↦ (m, ap (λ x. x ∷ m) (ne_test d c e), rw e at h)
]
run-literal-eq-some (c ∷ d ∷ p) [] caps next h = absurd (cc h)
run-literal-eq-some (c ∷ d ∷ p) (e ∷ m) caps next h = elim (Bool-cases (e == c)) [
  | inr other ↦ absurd (cc (rw other at h))
  | inl e' ↦
      let (t, whole, k) = run-literal-eq-some (d ∷ p) m caps next (rw e' at h) in
      (t, ap (λ x. x ∷ m) (ne_test e c e') ∙ ap (◌∷◌ c) whole, k)
]

if_and_true {ℓ} :
    {A : Type ℓ} (b : Bool) (o : Option A)
    → (if b then o else none) ≡ (if b && true then o else none)
if_and_true true o = refl
if_and_true false o = refl

if_and {ℓ} :
    {A : Type ℓ} (b d : Bool) (o : Option A)
    → (if b then first_of (if d then o else none) none else none) ≡ (if b && d then o else none)
unfolding first_of
if_and true true none = refl
if_and true true (some a) = refl
if_and true false o = refl
if_and false d o = refl

-- Where only the end of the text is accepted behind it, a run of a class is the whole text.
pub run_many-all :
    (p : ℕ → Bool) (c : ℕ) (s : Bytes) (caps : Captures) (next : Next)
    → ((x : ℕ) (xs : Bytes) → next (x ∷ xs) caps ≡ none)
    → run_many p (c ∷ s) caps next ≡ (if all p (c ∷ s) then next [] caps else none)
unfolding run_many first_of
run_many-all p c [] caps next h = if_and_true (p c) (next [] caps)
run_many-all p c (d ∷ s) caps next h =
    rw (run_many-all p d s caps next h, h d s) (if_and (p c) (all p (d ∷ s)) (next [] caps))
