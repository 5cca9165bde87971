-- ===== src/Kernel/LogEntry/Fields.antt =====
-- What a record of the log is parsed to.
use server_metrics.Base.{
  ℕ, ◌+◌, ◌<◌, ◌*◌, ◌≡◌, ◌≢◌, refl, List, [], ◌∷◌, ◌++◌, Option, none, some, Bytes, codes, ◌==◌,
  arith, ℤ, pos, Fits, mul_int64-pos, All, ◌%◌, Option-cases, inl, inr, IsInt64, subst, some_cancel,
  Bool-cases, mul_int64-IsInt64, negsuc, ◌∙◌, ap,
}
use server_metrics.Text.{index_byte, split, parse_int, replace_all}
use server_metrics.Text.Find.{index_byte-append, take-append, drop-append_cons, Lacks-join}
use server_metrics.Text.Split.{Lacks, join, split-join}
use server_metrics.Kernel.LogEntry.{
  LogEntry, parse_log_entry, parse_fields, checked_priority, checked_time, first_line, facility,
  severity,
}

first_line-append :
    (message rest : Bytes)
    → Lacks b'\n' message
    → first_line (message ++ (b'\n' ∷ rest)) ≡ some message
unfolding first_line
first_line-append message rest h =
    rw (index_byte-append message b'\n' rest h, first_line)
      (ap some (take-append message (b'\n' ∷ rest)))

parse_log_entry-split :
    (header : Bytes) (text : Bytes)
    → header ≢ []
    → Lacks b';' header
    → parse_log_entry (header ++ (b';' ∷ text)) ≡ parse_fields (split header b',') text
unfolding parse_log_entry
parse_log_entry-split [] text ne h = absurd (ne refl)
parse_log_entry-split (c ∷ header) text ne h =
    rw (index_byte-append (c ∷ header) b';' text h, parse_log_entry)
      (ground
        (arith, take-append (c ∷ header) (b';' ∷ text), drop-append_cons (c ∷ header) b';' text))

append-cons-ne-nil : (p : Bytes) (c : ℕ) (s : Bytes) → p ++ (c ∷ s) ≢ []
append-cons-ne-nil [] c s h = cc
append-cons-ne-nil (d ∷ p) c s h = cc

checked_priority-pos : (n : ℕ) → n < 256 → checked_priority (some (pos n)) ≡ some n
unfolding checked_priority
checked_priority-pos n h = ground arith

checked_time-pos : (m : ℕ) → Fits (m * 1000) → checked_time (some (pos m)) ≡ some (pos (m * 1000))
unfolding checked_time
checked_time-pos m h = ap some (mul_int64-pos m 1000 h)

-- A record of the form `priority,sequence,timestamp,flags[,…];message`, with a newline behind the
-- message, is parsed, whatever follows the newline, where no field of the header has a comma or a
-- semicolon in it, the message has no newline in it, the priority is a number below 256, and the
-- timestamp is a number of at least 0 whose 1000-fold is an int64: the priority is its number, the
-- time is the timestamp times 1000, and the message is the text up to the newline with its escaped
-- newlines restored.
pub parse_log_entry-record :
    (p q t f : Bytes) (more : List Bytes) (message rest : Bytes) (n m : ℕ)
    → All (Lacks b',') (p ∷ q ∷ t ∷ f ∷ more)
    → All (Lacks b';') (p ∷ q ∷ t ∷ f ∷ more)
    → Lacks b'\n' message
    → parse_int p ≡ some (pos n)
    → n < 256
    → parse_int t ≡ some (pos m)
    → Fits (m * 1000)
    → parse_log_entry (join (p ∷ q ∷ t ∷ f ∷ more) b',' ++ (b';' ∷ message ++ (b'\n' ∷ rest)))
      ≡ some (record {
        priority = n;
        time = pos (m * 1000);
        message = replace_all message (codes "\\x0a") (codes "\n");
      })
unfolding parse_fields
parse_log_entry-record p q t f more message rest n m no_comma no_semicolon one_line prio small stamp
      fits =
    let ps : List Bytes = p ∷ q ∷ t ∷ f ∷ more in
    let header = join ps b',' in
    let text = message ++ (b'\n' ∷ rest) in
    parse_log_entry-split header text (unfold join in append-cons-ne-nil p b',' _)
      (Lacks-join b';' b',' ps (omega arith) no_semicolon)
    ∙ ap (λ fs. parse_fields fs text) (split-join p (q ∷ t ∷ f ∷ more) b',' no_comma)
    ∙ rw (
      prio,
      checked_priority-pos n small,
      stamp,
      checked_time-pos m fits,
      first_line-append message rest one_line,
      parse_fields,
    )

checked_priority-lt : (o : Option ℤ) {n : ℕ} → checked_priority o ≡ some n → n < 256
unfolding checked_priority
checked_priority-lt none h = cc
checked_priority-lt (some (pos n)) h = ground arith
checked_priority-lt (some (negsuc n)) h = cc

checked_time-IsInt64 : (o : Option ℤ) {t : ℤ} → checked_time o ≡ some t → IsInt64 t
unfolding checked_time
checked_time-IsInt64 none h = cc
checked_time-IsInt64 (some (pos n)) h =
    subst IsInt64 (some_cancel h) (mul_int64-IsInt64 (pos n) (pos 1000))
checked_time-IsInt64 (some (negsuc n)) h = cc

parse_fields-eq-some :
    (fs : List Bytes) (text : Bytes) {e : LogEntry}
    → parse_fields fs text ≡ some e
    → (e.priority < 256) × IsInt64 e.time
unfolding parse_fields
parse_fields-eq-some [] text h = cc
parse_fields-eq-some (p ∷ []) text h = cc
parse_fields-eq-some (p ∷ q ∷ []) text h = cc
parse_fields-eq-some (p ∷ q ∷ t ∷ []) text h = cc
parse_fields-eq-some (p ∷ q ∷ t ∷ f ∷ more) text {e} h =
    elim (Option-cases (checked_priority (parse_int p))) [
      | inl bad ↦ cc (rw (bad, parse_fields) at h)
      | inr (n, prio) ↦ elim (Option-cases (checked_time (parse_int t))) [
        | inl bad ↦ cc (rw (prio, bad, parse_fields) at h)
        | inr (d, stamp) ↦ elim (Option-cases (first_line text)) [
          | inl bad ↦ cc (rw (prio, stamp, bad, parse_fields) at h)
          | inr (line, one) ↦
              let made = some_cancel (rw (prio, stamp, one, parse_fields) at h) in
              (
                subst (λ e. e.priority < 256) made (checked_priority-lt (parse_int p) prio),
                subst (λ e. IsInt64 e.time) made (checked_time-IsInt64 (parse_int t) stamp),
              )
        ]
      ]
    ]

parse_log_entry-eq-some :
    (bytes : Bytes) {e : LogEntry}
    → parse_log_entry bytes ≡ some e
    → (e.priority < 256) × IsInt64 e.time
unfolding parse_log_entry
parse_log_entry-eq-some bytes h = elim (Option-cases (index_byte bytes b';')) [
  | inl no_mark ↦ cc (rw (no_mark, parse_log_entry) at h)
  | inr (at_mark, found) ↦ elim (Bool-cases (at_mark == 0)) [
    | inl first ↦ cc (rw (found, first, parse_log_entry) at h)
    | inr later ↦ parse_fields-eq-some _ _ (rw (found, later, parse_log_entry) at h)
  ]
]

-- An entry that the parser returns has a priority of eight bits, which is the facility, a multiple of
-- eight, and the severity, below eight, together; and its time is an int64.
pub parse_log_entry-parts :
    (bytes : Bytes) {e : LogEntry}
    → parse_log_entry bytes ≡ some e
    → (facility e + severity e ≡ e.priority)
      × (facility e % 8 ≡ 0)
      × (severity e < 8)
      × IsInt64 e.time
parse_log_entry-parts bytes {e} h =
    let (small, in_range) = parse_log_entry-eq-some bytes h in
    (
      unfold facility severity in omega arith,
      unfold facility in omega arith,
      unfold severity in omega arith,
      in_range,
    )
