-- ===== src/Kernel/Classifier/Segments.antt =====
-- The scan of `classify` cuts the messages into known errors and runs of messages that are part of
-- none.
use server_metrics.Base.{
  ℕ, zero, suc, ◌+◌, ◌-◌, ◌≤◌, ◌<◌, ◌≡◌, ◌∙◌, ap, sym, ◌↔◌, refl, Bool, true, false, List, [], ◌∷◌,
  ◌++◌, append_assoc, append-nil, Option, none, some, Bytes, arith, ◌==◌, ltb, if◌then◌else◌,
  length, drop, length-drop, All, subst, some_cancel,
}
use native.Mathlib.Nat.{zero-add, suc-add}
use native.Mathlib.Numerals.{add-one}
use server_metrics.Kernel.Matchers.{ErrorType, unknown, Matcher, Match}
use server_metrics.Kernel.Classifier.{
  first_match, Scan, consume_unknown, take_match, scan_step, scan_loop, classify,
}
use server_metrics.Kernel.Classifier.Bounds.{TakesWithin, first_match-bounds}

module _ (matchers : List Matcher) where
  -- `Reports pending messages errors`: what the messages report, where `pending` tells that a run of
  -- unknown messages stands in front of them.
  pub data Reports : Bool → List Bytes → List ErrorType → Type 0 where
    done : Reports false [] []
    unknown_at_end : Reports true [] (unknown ∷ [])
    -- No matcher takes the message.
    unmatched :
        {pending : Bool} {m : Bytes} {ms : List Bytes} {es : List ErrorType}
        → first_match matchers (m ∷ ms) ≡ none
        → Reports true ms es
        → Reports pending (m ∷ ms) es
    -- The first matcher that takes any messages takes `count` of them.
    matched :
        {pending : Bool} {m : Bytes} {ms : List Bytes} {count : ℕ} {types es : List ErrorType}
        → first_match matchers (m ∷ ms) ≡ some (count, types)
        → Reports false (drop count (m ∷ ms)) es
        → Reports pending (m ∷ ms) (types ++ ((if pending then unknown ∷ [] else []) ++ es))

abbrev scan_at : List Bytes → ℕ → List ErrorType → Scan
scan_at messages index errors = record { messages = messages; index = index; errors = errors }

drop-nil : (k : ℕ) → drop {A = Bytes} k [] ≡ []
drop-nil zero = refl
drop-nil (suc k) = refl

drop-drop : (n k : ℕ) (l : List Bytes) → drop k (drop n l) ≡ drop (n + k) l
drop-drop zero k l = rw zero-add
drop-drop (suc n) k [] = rw suc-add (drop-nil k)
drop-drop (suc n) k (x ∷ l) = rw suc-add (drop-drop n k l)

drop-suc : (n : ℕ) (m : Bytes) (ms l : List Bytes) → drop n l ≡ m ∷ ms → drop (n + 1) l ≡ ms
drop-suc n m ms l h = sym (drop-drop n 1 l) ∙ ap (drop 1) h

abbrev is_pending : ℕ → Bool
is_pending zero = false
is_pending (suc i) = true

abbrev run_of : ℕ → List ErrorType
run_of index = if is_pending index then unknown ∷ [] else []

is_pending-suc : (i : ℕ) → is_pending (i + 1) ≡ true
is_pending-suc i = rw add-one

suc-ne-zero : (i : ℕ) → (suc i == 0) ≡ false
suc-ne-zero i = ground arith

lt_test : (a b : ℕ) → a < b → ltb a b ≡ true
lt_test a b h = ground arith

ge_test : (a b : ℕ) → b ≤ a → ltb a b ≡ false
ge_test a b h = ground arith

-- A match reports its types, and then the run of unknown messages in front of it.
take_match-at :
    (count : ℕ) (types : List ErrorType) (l : List Bytes) (i : ℕ) (errors : List ErrorType)
    → take_match (count, types) (scan_at l i errors)
      ≡ scan_at (drop count (drop i l)) 0 (errors ++ (types ++ run_of i))
unfolding take_match
take_match-at count types l zero errors =
    ap (scan_at (drop count l) 0) (ap (λ t. errors ++ t) (sym (append-nil types)))
take_match-at count types l (suc i) errors =
    rw (suc-ne-zero i)
      (ap (scan_at (drop count (drop (suc i) l)) 0) (append_assoc errors types (unknown ∷ [])))

consume_unknown-at :
    (l : List Bytes) (i : ℕ) (errors : List ErrorType)
    → (consume_unknown (scan_at l i errors)).errors ≡ errors ++ run_of i
unfolding consume_unknown
consume_unknown-at l zero errors = sym (append-nil errors)
consume_unknown-at l (suc i) errors = rw (suc-ne-zero i)

length_unread :
    (i : ℕ) (l : List Bytes) (m : Bytes) (ms : List Bytes)
    → drop i l ≡ m ∷ ms
    → length l - i ≡ suc (length ms)
length_unread i l m ms h = sym (length-drop i l) ∙ ap length h

drop_all : (i : ℕ) (l : List Bytes) → length l ≤ i → drop i l ≡ []
drop_all zero [] h = refl
drop_all zero (x ∷ l) h = absurd (omega arith)
drop_all (suc i) [] h = refl
drop_all (suc i) (x ∷ l) h = drop_all i l (omega arith)

length_read : (i : ℕ) (l : List Bytes) → drop i l ≡ [] → length l - i ≡ 0
length_read i l h = sym (length-drop i l) ∙ ap length h

module _ (matchers : List Matcher) (within : All TakesWithin matchers) where
  -- What the scan reports from a state on, behind the errors that it has.
  abbrev ReportsFrom : Scan → ℕ → Type 0
  ReportsFrom s fuel =
      (es : List ErrorType) × Reports matchers (is_pending s.index) (drop s.index s.messages) es
      × ((consume_unknown (scan_loop matchers fuel s)).errors ≡ s.errors ++ es)

  reports_nothing : (i : ℕ) → Reports matchers (is_pending i) [] (run_of i)
  reports_nothing zero = done
  reports_nothing (suc i) = unknown_at_end

  scan_loop-end :
      (fuel : ℕ) (l : List Bytes) (i : ℕ) (errors : List ErrorType)
      → drop i l ≡ []
      → scan_loop matchers fuel (scan_at l i errors) ≡ scan_at l i errors
  unfolding scan_loop
  scan_loop-end zero l i errors e = refl
  scan_loop-end (suc fuel) l i errors e =
      rw (ge_test i (length l) (omega (arith, length_read i l e)), scan_loop)

  reports_at_end :
      (fuel : ℕ) (l : List Bytes) (i : ℕ) (errors : List ErrorType)
      → drop i l ≡ []
      → ReportsFrom (scan_at l i errors) fuel
  reports_at_end fuel l i errors e = (
    run_of i,
    rw e (reports_nothing i),
    ap (λ s. (consume_unknown s).errors) (scan_loop-end fuel l i errors e)
        ∙ consume_unknown-at l i errors,
  )

  scan_loop-step :
      (fuel : ℕ) (l : List Bytes) (i : ℕ) (errors : List ErrorType) (m : Bytes) (ms : List Bytes)
      → drop i l ≡ m ∷ ms
      → scan_loop matchers (suc fuel) (scan_at l i errors)
        ≡ scan_loop matchers fuel (scan_step matchers (scan_at l i errors))
  unfolding scan_loop
  scan_loop-step fuel l i errors m ms e =
      rw (lt_test i (length l) (omega (arith, length_unread i l m ms e)), scan_loop)

  scan_step-none :
      (l : List Bytes) (i : ℕ) (errors : List ErrorType)
      → first_match matchers (drop i l) ≡ none
      → scan_step matchers (scan_at l i errors) ≡ scan_at l (i + 1) errors
  unfolding scan_step
  scan_step-none l i errors e = rw (e, scan_step)

  scan_step-some :
      (l : List Bytes) (i : ℕ) (errors : List ErrorType) {count : ℕ} {types : List ErrorType}
      → first_match matchers (drop i l) ≡ some (count, types)
      → scan_step matchers (scan_at l i errors)
        ≡ scan_at (drop count (drop i l)) 0 (errors ++ (types ++ run_of i))
  unfolding scan_step
  scan_step-some l i errors {count} {types} e =
      rw (e, scan_step) (take_match-at count types l i errors)

  -- A report of the next state is a report of this one.
  ReportsFrom-next :
      (fuel : ℕ) (l : List Bytes) (i : ℕ) (errors : List ErrorType) (m : Bytes) (ms : List Bytes)
      → drop i l ≡ m ∷ ms
      → (o : Option Match) → first_match matchers (m ∷ ms) ≡ o
      → ((l' : List Bytes) (i' : ℕ) (errors' : List ErrorType)
          → length l' ≤ fuel + i'
          → ReportsFrom (scan_at l' i' errors') fuel)
      → length l ≤ suc fuel + i
      → ReportsFrom (scan_at l i errors) (suc fuel)
  ReportsFrom-next fuel l i errors m ms e none no_match ih enough =
      let (es, r, result) = ih l (i + 1) errors (omega arith) in
      let r' = rw (is_pending-suc i, drop-suc i m ms l e) at r in
      (
        es,
        rw e (unmatched no_match r'),
        ap (λ s. (consume_unknown s).errors)
              (scan_loop-step fuel l i errors m ms e
                ∙ ap (scan_loop matchers fuel) (scan_step-none l i errors (rw e no_match)))
            ∙ result,
      )
  ReportsFrom-next fuel l i errors m ms e (some (count, types)) match ih enough =
      let (some_taken, _) = first_match-bounds matchers (m ∷ ms) within match in
      let l' = drop count (drop i l) in
      let shorter = length-drop count (drop i l) in
      let (es, r, result) =
        ih l' 0 (errors ++ (types ++ run_of i))
          (omega (arith, shorter, length-drop i l, length_unread i l m ms e)) in
      (
        types ++ (run_of i ++ es),
        rw e (matched match (rw e at r)),
        ap (λ s. (consume_unknown s).errors)
              (scan_loop-step fuel l i errors m ms e
                ∙ ap (scan_loop matchers fuel) (scan_step-some l i errors (rw e match)))
            ∙ result
            ∙ append_assoc errors (types ++ run_of i) es
            ∙ ap (λ t. errors ++ t) (append_assoc types (run_of i) es),
      )

  ReportsFrom-round :
      (fuel : ℕ) (l : List Bytes) (i : ℕ) (errors : List ErrorType) (rest : List Bytes)
      → drop i l ≡ rest
      → ((l' : List Bytes) (i' : ℕ) (errors' : List ErrorType)
          → length l' ≤ fuel + i'
          → ReportsFrom (scan_at l' i' errors') fuel)
      → length l ≤ suc fuel + i
      → ReportsFrom (scan_at l i errors) (suc fuel)
  ReportsFrom-round fuel l i errors [] e ih enough = reports_at_end (suc fuel) l i errors e
  ReportsFrom-round fuel l i errors (m ∷ ms) e ih enough =
      ReportsFrom-next fuel l i errors m ms e (first_match matchers (m ∷ ms)) refl ih enough

  scan_loop-Reports :
      (fuel : ℕ) (l : List Bytes) (i : ℕ) (errors : List ErrorType)
      → length l ≤ fuel + i
      → ReportsFrom (scan_at l i errors) fuel
  scan_loop-Reports zero l i errors enough =
      reports_at_end zero l i errors (drop_all i l (omega arith))
  scan_loop-Reports (suc fuel) l i errors enough =
      ReportsFrom-round fuel l i errors (drop i l) refl
        (λ l' i' errors'. scan_loop-Reports fuel l' i' errors') enough

  -- `classify` ends, and the errors that it returns are what the messages report.
  pub classify-Reports :
      (messages : List Bytes) → Reports matchers false messages (classify matchers messages)
  unfolding classify
  classify-Reports messages =
      let (es, r, e) = scan_loop-Reports (length messages) messages 0 [] (omega arith) in rw e r

  -- Messages report one list of errors.
  Reports-unique :
      {p : Bool} {ms : List Bytes} {es fs : List ErrorType}
      → Reports matchers p ms es
      → Reports matchers p ms fs
      → es ≡ fs
  Reports-unique done done = refl
  Reports-unique unknown_at_end unknown_at_end = refl
  Reports-unique (unmatched e r) (unmatched f q) = Reports-unique r q
  Reports-unique (unmatched e r) (matched f q) = cc
  Reports-unique (matched e r) (unmatched f q) = cc
  Reports-unique (matched {m} {ms} {types} e r) (matched {es = fs} f q) =
      let same_match = some_cancel (sym e ∙ f) in
      let q' =
        subst (λ k. Reports matchers false (drop k (m ∷ ms)) fs) (sym (ap (λ x. x.0) same_match))
          q in
      cc (ap (λ x. x.1) same_match, Reports-unique r q')

  -- The messages report a list of errors exactly if `classify` returns it.
  pub classify_iff :
      (messages : List Bytes) (es : List ErrorType)
      → (classify matchers messages ≡ es) ↔ Reports matchers false messages es
  classify_iff messages es = (
    λ h. subst (Reports matchers false messages) h (classify-Reports messages),
    λ r. Reports-unique (classify-Reports messages) r,
  )
