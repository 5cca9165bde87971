-- ===== src/Kernel/Collector.antt =====
-- internal/kernel/collector.go: one goroutine reads the kernel's log, the other one collects the
-- errors into groups and classifies each group. The first sends its entries to the second over a
-- channel with no buffer.
pub mod Groups
pub mod Reading
use server_metrics.Base.{
  ℕ, Bool, true, false, not, ◌&&◌, List, [], ◌∷◌, ◌++◌, Option, none, some, Bytes, map, ltb, leb,
  ◌==◌, if◌then◌else◌, length, is_empty, ℤ, pos, ltb_ℤ, add_int64, sub_int64,
}
use server_metrics.Error.{Error}
use server_metrics.Kernel.LogEntry.{LogEntry, parse_log_entry, facility, severity}
use server_metrics.Kernel.Matchers.{ErrorType, Matcher}
use server_metrics.Kernel.Classifier.{classify}

-- The result of a read of /dev/kmsg.
pub data ReadResult : Type 0 where
  bytes_read : Bytes → ReadResult
  -- os.ErrClosed
  file_closed : ReadResult
  -- EINVAL: the message is too big
  too_big : ReadResult
  -- EPIPE: messages have been overwritten
  overwritten : ReadResult
  read_error : Error → ReadResult

-- `facility() == LOG_KERN` and `severity() <= LOG_ERR`
unfoldable pub is_kernel_error : LogEntry → Bool
unfolding facility severity
is_kernel_error e = facility e == 0 && leb (severity e) 3

unfoldable pub send : Option LogEntry → List LogEntry → List LogEntry
unfolding is_kernel_error
send none rest = rest
send (some e) rest = if is_kernel_error e then e ∷ rest else rest

-- `logReader`: the entries that it sends, and what it returns once it ends (`none` inside: no error).
unfoldable pub log_reader : List ReadResult → List LogEntry × Option (Option Error)
unfolding send
log_reader [] = ([], none)
log_reader (file_closed ∷ reads) = ([], some none)
log_reader (read_error e ∷ reads) = ([], some (some e))
log_reader (too_big ∷ reads) = log_reader reads
log_reader (overwritten ∷ reads) = log_reader reads
log_reader (bytes_read b ∷ reads) =
    let (sent, result) = log_reader reads in (send (parse_log_entry b) sent, result)

-- The variables of `logProcessor`: the group, whether `timer` is set, and the increments of the
-- counters of errors, in their order.
pub record Processor : Type 0 where
  pub group : List LogEntry
  pub timer : Bool
  pub errors : List ErrorType

abbrev pub max_group_size : ℕ
max_group_size = 100

-- 10 ms, in nanoseconds
abbrev pub max_group_time : ℤ
max_group_time = pos 10_000_000

abbrev pub messages_of : List LogEntry → List Bytes
messages_of = map (λ e. e.message)

-- `groupTime`
unfoldable pub group_time : List LogEntry → Option ℤ
group_time [] = none
group_time (e ∷ es) = some e.time

-- The test of the time of a new entry against the time of the group.
unfoldable pub is_late : LogEntry → Option ℤ → Bool
is_late e none = false
is_late e (some first) = ltb_ℤ max_group_time (sub_int64 e.time first)

abbrev pub start_timer : Processor → Processor
start_timer s = record s { timer = true }

abbrev pub stop_timer : Processor → Processor
stop_timer s = record s { timer = false }

module _ (matchers : List Matcher) where
  -- `processGroup`
  unfoldable pub process_group : Processor → Processor
  process_group s =
      if is_empty s.group
      then s
      else record s { group = []; errors = s.errors ++ classify matchers (messages_of s.group) }

  -- An entry from the channel, up to `append`.
  unfoldable pub append_entry : LogEntry → Processor → Processor
  unfolding is_late group_time
  append_entry e s =
      let s' = if is_late e (group_time s.group) then stop_timer (process_group s) else s in
      record s' { group = s'.group ++ (e ∷ []) }

  -- The rest of that case.
  unfoldable pub close_full : Processor → Processor
  close_full s =
      if leb max_group_size (length s.group)
      then stop_timer (process_group s)
      else if s.timer
      then s
      else start_timer s

  unfoldable pub on_entry : LogEntry → Processor → Processor
  on_entry e s = close_full (append_entry e s)

  -- The timer has fired, at this uptime.
  unfoldable pub on_timer : ℤ → Processor → Processor
  unfolding group_time
  on_timer uptime s = elim (group_time s.group) [
    | none ↦ stop_timer s
    | some first ↦
        let time_left = sub_int64 (add_int64 first max_group_time) uptime in
        if ltb_ℤ (pos 0) time_left then start_timer (stop_timer s) else process_group (stop_timer s)
  ]

-- What `select` may choose: an entry, or the timer if it runs.
pub data Event : Type 0 where
  entry : LogEntry → Event
  fired : ℤ → Event

module _ (matchers : List Matcher) where
  unfoldable pub step : Event → Processor → Processor
  unfolding on_entry on_timer
  step (entry e) s = on_entry matchers e s
  step (fired uptime) s = if s.timer then on_timer matchers uptime s else s

  -- The loop, up to the end of the channel.
  unfoldable pub run_events : Processor → List Event → Processor
  run_events s [] = s
  run_events s (e ∷ es) = run_events (step e s) es

  -- `logProcessor`: the deferred calls come last.
  unfoldable pub log_processor : List Event → Processor
  unfolding run_events
  log_processor events = stop_timer (
      process_group matchers
        (run_events (record { group = []; timer = false; errors = [] }) events))
