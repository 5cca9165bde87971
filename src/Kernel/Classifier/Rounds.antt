-- ===== src/Kernel/Classifier/Rounds.antt =====
-- The rounds of the loop of `classify` take away messages that are there.
use server_metrics.Base.{
  ℕ, zero, suc, ◌+◌, ◌≤◌, ◌<◌, ◌≡◌, ◌∙◌, ap, refl, ◌⊎◌, inl, inr, Bool, false, ◌==◌, List, none,
  some, Bytes, arith, length, drop, length-drop, drop-drop, Option-cases,
}
use server_metrics.Kernel.Matchers.{ErrorType, Match, Matcher}
use server_metrics.Kernel.Classifier.{
  new_classifier, first_match, Scan, consume, consume_unknown, take_match, scan_step,
}
use server_metrics.Kernel.Classifier.Bounds.{new_classifier-TakesWithin, first_match-bounds}

suc-ne-zero : (i : ℕ) → (suc i == 0) ≡ false
suc-ne-zero i = ground arith

-- A round that takes a match takes away the messages in front of the index, then those of the match.
take_match-messages :
    (ms : List Bytes) (i : ℕ) (es : List ErrorType) (m : Match)
    → let t = take_match m (record { messages = ms; index = i; errors = es }) in
      (t.messages ≡ drop (i + m.0) ms) × (t.index ≡ 0)
unfolding take_match consume consume_unknown
take_match-messages ms zero es m = (drop-drop 0 m.0 ms, refl)
take_match-messages ms (suc i) es m = rw (suc-ne-zero i) (drop-drop (suc i) m.0 ms, refl)

scan_step-none :
    (ms : List Matcher) (s : Scan)
    → first_match ms (drop s.index s.messages) ≡ none
    → scan_step ms s ≡ record s { index = s.index + 1 }
unfolding scan_step
scan_step-none ms s e = rw (e, scan_step)

scan_step-some :
    (ms : List Matcher) (s : Scan) {found : Match}
    → first_match ms (drop s.index s.messages) ≡ some found
    → scan_step ms s ≡ take_match found s
unfolding scan_step
scan_step-some ms s e = rw (e, scan_step)

module _ (ms : List Matcher) (s : Scan) where
  -- The round finds no match: the index goes on, and is not behind the end.
  abbrev pub PassesOver : Type 0
  PassesOver =
      (first_match ms (drop s.index s.messages) ≡ none)
      × ((scan_step ms s).messages ≡ s.messages)
      × ((scan_step ms s).index ≡ suc s.index)
      × (suc s.index ≤ length s.messages)

  -- The round finds a match of messages that are there, and takes away all up to its end.
  abbrev pub TakesAway : Type 0
  TakesAway =
      (found : Match) × (first_match ms (drop s.index s.messages) ≡ some found)
      × (0 < found.0)
      × (s.index + found.0 ≤ length s.messages)
      × ((scan_step ms s).messages ≡ drop (s.index + found.0) s.messages)
      × ((scan_step ms s).index ≡ 0)

-- A round of the loop of `classify` by a new classifier, while the index is in front of the end of the
-- messages, either finds no match, keeps the messages and goes on to the next index, which is at most
-- the end, or it finds a match of at least one message, which ends at most at the end of the messages,
-- takes away exactly the messages up to the end of the match, and goes back to the index 0.
pub scan_step-within :
    (enable_all hypervisor : Bool) (s : Scan)
    → s.index < length s.messages
    → PassesOver (new_classifier enable_all hypervisor) s
      ⊎ TakesAway (new_classifier enable_all hypervisor) s
scan_step-within enable_all hypervisor s h =
    let ms = new_classifier enable_all hypervisor in
    elim (Option-cases (first_match ms (drop s.index s.messages))) [
      | inl nothing ↦
          let e = scan_step-none ms s nothing in
          inl (nothing, ap (λ t. t.messages) e, ap (λ t. t.index) e ∙ omega arith, omega (arith, h))
      | inr (found, e) ↦
          let taken = scan_step-some ms s e in
          let (some_taken, there) =
            first_match-bounds ms (drop s.index s.messages) {found = found}
              (new_classifier-TakesWithin enable_all hypervisor) e in
          let (left, start) = take_match-messages s.messages s.index s.errors found in
          let fit : s.index + found.0 ≤ length s.messages =
            omega (arith, there, h, length-drop s.index s.messages) in
          inr (
            found,
            e,
            some_taken,
            fit,
            ap (λ t. t.messages) taken ∙ left,
            ap (λ t. t.index) taken ∙ start,
          )
    ]
