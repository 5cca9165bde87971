-- ===== src/Kernel/Collector/Groups.antt =====
-- Every entry is classified in one group, in order, and no group is larger or longer than allowed.
pub mod Kept
use server_metrics.Base.{
  ◌≤◌, ◌<◌, ◌≡◌, ◌≢◌, ◌∙◌, ap, sym, refl, Bool, true, false, not, List, [], ◌∷◌, ◌++◌, append_assoc,
  append-nil, arith, All, All-append, Bool-cases, inl, inr, length, length-append, leb, is_empty, ℤ,
  pos, ltb_ℤ, add_int64, sub_int64,
}
use server_metrics.Kernel.LogEntry.{LogEntry}
use server_metrics.Kernel.Matchers.{ErrorType, Matcher}
use server_metrics.Kernel.Classifier.{classify}
use server_metrics.Kernel.Collector.{
  Processor, Event, entry, fired, max_group_size, max_group_time, messages_of, is_late, group_time,
  process_group, append_entry, close_full, on_entry, on_timer, step, run_events, log_processor,
}
use server_metrics.Kernel.Collector.Groups.Kept.{
  entries_of, IsShort, IsGroup, counted, joined, Keeps, IsIdle, state, process_group-empty,
  process_group-Keeps, Keeps-timer, append-Keeps,
}

module _ (matchers : List Matcher) where
  is_late-nil : (e : LogEntry) (g : List LogEntry) → g ≡ [] → is_late e (group_time g) ≡ false
  unfolding is_late group_time
  is_late-nil e g h = rw h

  append_entry-Keeps :
      (e : LogEntry) (s : Processor) {received : List LogEntry}
      → Keeps matchers received s
      → IsIdle matchers s
      → Keeps matchers (received ++ (e ∷ [])) (append_entry matchers e s)
  unfolding append_entry
  append_entry-Keeps e s k (room, _) = elim (Bool-cases (is_late e (group_time s.group))) [
    | inl late ↦
        let emptied = process_group-empty matchers s.group s.timer s.errors in
        rw late (
          append-Keeps matchers _ e
            (Keeps-timer matchers _ false (process_group-Keeps matchers s.group s.timer s.errors k))
            (omega (arith, ap length emptied)) (is_late-nil e _ emptied))
    | inr in_time ↦ rw in_time (append-Keeps matchers s e k room in_time)
  ]

  not-is_empty : (g : List LogEntry) → g ≢ [] → true ≡ not (is_empty g)
  not-is_empty [] ne = absurd (ne refl)
  not-is_empty (e ∷ g) ne = refl

  -- Once a group was processed there is none, and the timer is stopped.
  processed-IsIdle :
      (g : List LogEntry) (t : Bool) (errors : List ErrorType)
      → IsIdle matchers
          (record (process_group matchers (state matchers g t errors)) { timer = false })
  processed-IsIdle g t errors =
      let emptied = process_group-empty matchers g t errors in rw emptied (omega arith, refl)

  close_full-Keeps :
      (g : List LogEntry) (t : Bool) (errors : List ErrorType) {received : List LogEntry}
      → Keeps matchers received (state matchers g t errors)
      → g ≢ []
      → (full : Bool) → leb max_group_size (length g) ≡ full
      → Keeps matchers received (close_full matchers (state matchers g t errors))
        × IsIdle matchers (close_full matchers (state matchers g t errors))
  unfolding close_full
  close_full-Keeps g t errors k ne true full = rw full (
    Keeps-timer matchers _ false (process_group-Keeps matchers g t errors k),
    processed-IsIdle g t errors,
  )
  close_full-Keeps g true errors k ne false full = rw full (k, (ground arith, not-is_empty g ne))
  close_full-Keeps g false errors k ne false full =
      rw full (Keeps-timer matchers _ true k, (ground arith, not-is_empty g ne))

  append-ne-nil : (g : List LogEntry) (e : LogEntry) → g ++ (e ∷ []) ≢ []
  append-ne-nil [] e h = cc
  append-ne-nil (f ∷ g) e h = cc

  append_entry-ne-nil : (e : LogEntry) (s : Processor) → (append_entry matchers e s).group ≢ []
  unfolding append_entry
  append_entry-ne-nil e s = append-ne-nil _ e

  on_entry-Keeps :
      (e : LogEntry) (s : Processor) {received : List LogEntry}
      → Keeps matchers received s
      → IsIdle matchers s
      → Keeps matchers (received ++ (e ∷ [])) (on_entry matchers e s)
        × IsIdle matchers (on_entry matchers e s)
  unfolding on_entry
  on_entry-Keeps e s k idle =
      let s' = append_entry matchers e s in
      close_full-Keeps s'.group s'.timer s'.errors (append_entry-Keeps e s k idle)
        (append_entry-ne-nil e s) (leb max_group_size (length s'.group)) refl

  on_timer-Keeps :
      (uptime : ℤ) (g : List LogEntry) (t : Bool) (errors : List ErrorType)
      {received : List LogEntry}
      → Keeps matchers received (state matchers g t errors)
      → IsIdle matchers (state matchers g t errors)
      → Keeps matchers received (on_timer matchers uptime (state matchers g t errors))
        × IsIdle matchers (on_timer matchers uptime (state matchers g t errors))
  unfolding on_timer process_group
  on_timer-Keeps uptime [] t errors k idle = (Keeps-timer matchers _ false k, (omega arith, refl))
  on_timer-Keeps uptime (e ∷ g) t errors k idle =
      elim (Bool-cases (ltb_ℤ (pos 0) (sub_int64 (add_int64 e.time max_group_time) uptime))) [
        | inl early ↦ rw early (Keeps-timer matchers _ true k, (idle.0, refl))
        | inr over ↦ rw over (
          process_group-Keeps matchers (e ∷ g) false errors (Keeps-timer matchers _ false k),
          processed-IsIdle (e ∷ g) false errors,
        )
      ]

  fired-Keeps :
      (uptime : ℤ) (g : List LogEntry) (t : Bool) (errors : List ErrorType)
      {received : List LogEntry}
      → Keeps matchers received (state matchers g t errors)
      → IsIdle matchers (state matchers g t errors)
      → Keeps matchers received (step matchers (fired uptime) (state matchers g t errors))
        × IsIdle matchers (step matchers (fired uptime) (state matchers g t errors))
  unfolding step
  fired-Keeps uptime g true errors k idle = on_timer-Keeps uptime g true errors k idle
  fired-Keeps uptime g false errors k idle = (k, idle)

  -- Each event keeps what was received before it, and takes in the entry that it brings.
  pub step-Keeps :
      (event : Event) (s : Processor) {received : List LogEntry}
      → Keeps matchers received s
      → IsIdle matchers s
      → Keeps matchers (received ++ entries_of (event ∷ [])) (step matchers event s)
        × IsIdle matchers (step matchers event s)
  step-Keeps (entry e) s k idle = unfold step in on_entry-Keeps e s k idle
  step-Keeps (fired uptime) s {received} k idle =
      rw append-nil (fired-Keeps uptime s.group s.timer s.errors k idle)

  entries_of-cons :
      (e : Event) (es : List Event) → entries_of (e ∷ es) ≡ entries_of (e ∷ []) ++ entries_of es
  entries_of-cons (entry x) es = refl
  entries_of-cons (fired t) es = refl

  run_events-Keeps :
      (events : List Event) (s : Processor) (received : List LogEntry)
      → Keeps matchers received s
      → IsIdle matchers s
      → Keeps matchers (received ++ entries_of events) (run_events matchers s events)
        × IsIdle matchers (run_events matchers s events)
  unfolding run_events
  run_events-Keeps [] s received k idle = rw append-nil (k, idle)
  run_events-Keeps (e ∷ es) s received k idle =
      let (k', idle') = step-Keeps e s k idle in
      rw (entries_of-cons e es, ← append_assoc)
        (run_events-Keeps es (step matchers e s) (received ++ entries_of (e ∷ [])) k' idle')

  start-Keeps : Keeps matchers [] (state matchers [] false [])
  start-Keeps = record {
    groups = [];
    all_groups = tt;
    in_order = refl;
    counts = refl;
    has_size = omega arith;
    is_short = tt;
  }

  -- Between two events, whatever the entries and the timers before, the processor has classified the
  -- entries in groups and holds the rest as a group that is not full, and its timer runs exactly if
  -- that group is not empty.
  pub run_events-IsIdle :
      (events : List Event)
      → Keeps matchers (entries_of events) (run_events matchers (state matchers [] false []) events)
        × IsIdle matchers (run_events matchers (state matchers [] false []) events)
  run_events-IsIdle events = run_events-Keeps events _ [] start-Keeps (omega arith, refl)

  -- When the channel is closed, every entry was classified, in one group and in the order of arrival;
  -- no group is empty, has more than 100 entries, or holds an entry more than 10 ms later than its
  -- first; and the counters have been incremented by what the groups report.
  pub log_processor-groups :
      (events : List Event)
      → (groups : List (List LogEntry)) × All IsGroup groups
        × (joined matchers groups ≡ entries_of events)
        × ((log_processor matchers events).errors ≡ counted matchers groups)
        × ((log_processor matchers events).group ≡ [])
  unfolding log_processor
  log_processor-groups events =
      let s = run_events matchers (state matchers [] false []) events in
      let k = process_group-Keeps matchers s.group s.timer s.errors (run_events-IsIdle events).0 in
      let emptied = process_group-empty matchers s.group s.timer s.errors in
      (
        k.groups,
        k.all_groups,
        sym (append-nil (joined matchers k.groups))
            ∙ ap (λ g. joined matchers k.groups ++ g) (sym emptied)
            ∙ k.in_order,
        k.counts,
        emptied,
      )
