-- ===== src/Kernel/LogEntry.antt =====
-- internal/kernel/logentry.go: a record of /dev/kmsg.
pub mod Fields
use server_metrics.Base.{
  ℕ, ◌*◌, ◌/◌, ◌%◌, Bool, true, false, List, [], ◌∷◌, Option, none, some, Bytes, codes, ◌==◌,
  if◌then◌else◌, take, drop, suc, ℤ, pos, negsuc, mul_int64,
}
use server_metrics.Text.{index_byte, split, parse_int, replace_all}

pub record LogEntry : Type 0 where
  pub priority : ℕ
  -- a time.Duration, in nanoseconds
  pub time : ℤ
  pub message : Bytes

-- `priority&(facilityMask|severityMask) == priority`: the masks are 0xf8 and 0x07, and no negative
-- number equals its low eight bits.
unfoldable pub checked_priority : Option ℤ → Option ℕ
checked_priority none = none
checked_priority (some (negsuc n)) = none
checked_priority (some (pos n)) = if n % 256 == n then some n else none

-- `timestamp >= 0`, and its microseconds as a duration, in int64.
unfoldable pub checked_time : Option ℤ → Option ℤ
checked_time none = none
checked_time (some (negsuc n)) = none
checked_time (some (pos n)) = some (mul_int64 (pos n) (pos 1000))

-- The first line of a text that has one.
unfoldable pub first_line : Bytes → Option Bytes
first_line text = elim (index_byte text b'\n') [ none ↦ none | some at ↦ some (take at text) ]

-- The fields in front of the semicolon, and what stands behind it.
unfoldable pub parse_fields : List Bytes → Bytes → Option LogEntry
parse_fields (priority ∷ sequence ∷ timestamp ∷ flags ∷ _) text =
    elim (checked_priority (parse_int priority)) [
      | none ↦ none
      | some p ↦ elim (checked_time (parse_int timestamp)) [
        | none ↦ none
        | some t ↦ elim (first_line text) [
          | none ↦ none
          | some line ↦ some (record {
            priority = p;
            time = t;
            message = replace_all line (codes "\\x0a") (codes "\n");
          })
        ]
      ]
    ]
parse_fields _ text = none

-- `parseLogEntry`
unfoldable pub parse_log_entry : Bytes → Option LogEntry
unfolding parse_fields
parse_log_entry text = elim (index_byte text b';') [
  | none ↦ none
  | some at ↦
      if at == 0 then none else parse_fields (split (take at text) b',') (drop (suc at) text)
]

-- `facility`: `priority & 0xf8`, of a priority below 256.
unfoldable pub facility : LogEntry → ℕ
facility e = e.priority / 8 % 32 * 8

-- `severity`: `priority & 0x07`.
unfoldable pub severity : LogEntry → ℕ
severity e = e.priority % 8
