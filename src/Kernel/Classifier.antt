-- ===== src/Kernel/Classifier.antt =====
-- internal/kernel/classifier.go: the errors that a group of messages reports.
pub mod Bounds
pub mod Rounds
pub mod Segments
use server_metrics.Base.{
  ℕ, zero, suc, ◌+◌, Bool, true, false, ◌||◌, List, [], ◌∷◌, ◌++◌, Option, none, some, Bytes, ltb,
  ◌==◌, if◌then◌else◌, length, drop,
}
use server_metrics.Kernel.Matchers.{
  ErrorType, unknown, Match, Matcher, match_amd_iommu, match_hotplug, match_watchdog, match_ubsan,
  match_nmi,
}

-- `newClassifier`; the second flag tells whether the processor runs under a hypervisor.
unfoldable pub new_classifier : Bool → Bool → List Matcher
new_classifier enable_all hypervisor =
    (match_amd_iommu ∷ match_watchdog ∷ match_ubsan ∷ match_nmi ∷ [])
    ++ (if enable_all || hypervisor then match_hotplug ∷ [] else [])

-- The loop over the matchers: the first that takes any messages.
unfoldable pub first_match : List Matcher → List Bytes → Option Match
first_match [] messages = none
first_match (m ∷ ms) messages =
    let rest = first_match ms messages in if (m messages).0 == 0 then rest else some (m messages)

-- The variables of `classify`.
pub record Scan : Type 0 where
  pub messages : List Bytes
  pub index : ℕ
  pub errors : List ErrorType

-- `consume`
unfoldable pub consume : ℕ → Scan → Scan
consume count s = record s { messages = drop count s.messages }

-- `consumeUnknown`
unfoldable pub consume_unknown : Scan → Scan
consume_unknown s = if s.index == 0 then s else record {
  messages = drop s.index s.messages;
  index = 0;
  errors = s.errors ++ (unknown ∷ []);
}

-- A match at `index`.
unfoldable pub take_match : Match → Scan → Scan
unfolding consume consume_unknown
take_match (count, types) s =
    consume count (consume_unknown (record s { errors = s.errors ++ types }))

module _ (matchers : List Matcher) where
  -- One round of `MessageLoop`.
  unfoldable pub scan_step : Scan → Scan
  scan_step s = elim (first_match matchers (drop s.index s.messages)) [
    | some found ↦ take_match found s
    | none ↦ record s { index = s.index + 1 }
  ]

  -- `MessageLoop`. A round passes over a message, or takes messages: a round for each is enough.
  unfoldable pub scan_loop : ℕ → Scan → Scan
  unfolding scan_step
  scan_loop zero s = s
  scan_loop (suc fuel) s = elim (ltb s.index (length s.messages)) [
    | true ↦ scan_loop fuel (scan_step s)
    | false ↦ s
  ]

  -- `classify`
  unfoldable pub classify : List Bytes → List ErrorType
  unfolding scan_loop
  classify messages =
      (consume_unknown (
        scan_loop (length messages)
          (record { messages = messages; index = 0; errors = [] }))).errors
