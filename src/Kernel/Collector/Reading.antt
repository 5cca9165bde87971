-- ===== src/Kernel/Collector/Reading.antt =====
-- What the reader of the log sends.
use server_metrics.Base.{
  ◌≡◌, ◌≤◌, refl, Bool, true, false, List, [], ◌∷◌, Option, none, some, Bytes, arith, All,
  Bool-cases, inl, inr, ◌↔◌, ◌++◌, ap, ◌∙◌,
}
use server_metrics.Kernel.LogEntry.{LogEntry, parse_log_entry, facility, severity}
use server_metrics.Kernel.LogEntry.Fields.{parse_log_entry-parts}
use server_metrics.Kernel.Collector.{
  ReadResult, bytes_read, file_closed, too_big, overwritten, read_error, is_kernel_error, send,
  log_reader,
}

-- The entry is an error of the kernel: facility 0, severity 3 at most.
abbrev pub IsKernelError : LogEntry → Type 0
IsKernelError e = (facility e ≡ 0) × (severity e ≤ 3)

is_kernel_error_iff : (e : LogEntry) → (is_kernel_error e ≡ true) ↔ IsKernelError e
unfolding is_kernel_error
is_kernel_error_iff e = ground arith

priority-le :
    (bytes : Bytes) {e : LogEntry}
    → parse_log_entry bytes ≡ some e
    → is_kernel_error e ≡ true
    → e.priority ≤ 3
priority-le bytes {e} h k =
    let (sum, _, _, _) = parse_log_entry-parts bytes h in
    let (kern, severe) = (is_kernel_error_iff e).0 k in omega arith

send-priority :
    (bytes : Bytes) (o : Option LogEntry) (rest : List LogEntry)
    → parse_log_entry bytes ≡ o
    → All (λ e. e.priority ≤ 3) rest
    → All (λ e. e.priority ≤ 3) (send o rest)
unfolding send
send-priority bytes none rest p h = h
send-priority bytes (some e) rest p h = elim (Bool-cases (is_kernel_error e)) [
  | inl k ↦ rw k (priority-le bytes p k, h)
  | inr k ↦ rw k h
]

-- Whatever is read, the reader sends only entries with a priority of at most 3: errors, and worse, of
-- the kernel itself.
pub log_reader-priority : (reads : List ReadResult) → All (λ e. e.priority ≤ 3) (log_reader reads).0
unfolding log_reader
log_reader-priority [] = tt
log_reader-priority (file_closed ∷ reads) = tt
log_reader-priority (read_error e ∷ reads) = tt
log_reader-priority (too_big ∷ reads) = log_reader-priority reads
log_reader-priority (overwritten ∷ reads) = log_reader-priority reads
log_reader-priority (bytes_read b ∷ reads) =
    send-priority b (parse_log_entry b) (log_reader reads).0 refl (log_reader-priority reads)

-- The reader gives up at this result.
abbrev pub ends : ReadResult → Bool
ends file_closed = true
ends (read_error e) = true
ends _ = false

send-append : (o : Option LogEntry) (xs ys : List LogEntry) → send o (xs ++ ys) ≡ send o xs ++ ys
unfolding send
send-append none xs ys = refl
send-append (some e) xs ys = elim (Bool-cases (is_kernel_error e)) [ inl k ↦ rw k | inr k ↦ rw k ]

-- An invalid record, a message that is too big and a gap in the log stop nothing: the reader sends
-- what it would send of the results before, then what it would send of those behind, and ends as the
-- latter make it.
pub log_reader-append :
    (xs ys : List ReadResult)
    → All (λ r. ends r ≡ false) xs
    → log_reader (xs ++ ys) ≡ ((log_reader xs).0 ++ (log_reader ys).0, (log_reader ys).1)
unfolding log_reader
log_reader-append [] ys h = refl
log_reader-append (file_closed ∷ xs) ys (h, _) = cc
log_reader-append (read_error e ∷ xs) ys (h, _) = cc
log_reader-append (too_big ∷ xs) ys (_, h) = log_reader-append xs ys h
log_reader-append (overwritten ∷ xs) ys (_, h) = log_reader-append xs ys h
log_reader-append (bytes_read b ∷ xs) ys (_, h) =
    ap (λ p. (send (parse_log_entry b) p.0, p.1)) (log_reader-append xs ys h)
    ∙ ap (λ l. (l, (log_reader ys).1))
        (send-append (parse_log_entry b) (log_reader xs).0 (log_reader ys).0)
