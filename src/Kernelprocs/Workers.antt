-- ===== src/Kernelprocs/Workers.antt =====
-- What the kworkers have used since the last observation.
use server_metrics.Base.{
  ◌≢◌, ℕ, ◌+◌, ◌-◌, ◌%◌, ◌^◌, ◌<◌, ◌≡◌, ◌⊎◌, ◌∙◌, ap, sym, refl, List, [], ◌∷◌, Option, none, some,
  Option-cases, inl, inr, Bool-cases, bytes_eq, nat_eq, arith, ==_iff, ◌==◌, if◌then◌else◌, found,
}
use server_metrics.Error.{Error}
use server_metrics.Map.{Map, lookup, lookup-insert}
use server_metrics.Kernelprocs.Stat.{ProcStat, parse_proc_stat}
use server_metrics.Kernelprocs.{
  ProcFile, contents, errno, other_error, Proc, Collector, Scan, is_kworker, take_process,
  take_parsed, take_file, read_error, scan_pids, unless_error, start, finish, observe_pids,
}

abbrev pub worker_stat : Option ProcStat → Option ℕ
worker_stat none = none
worker_stat (some stat) = if is_kworker stat then some stat.usage else none

-- The CPU time of a process, if it is a kworker.
abbrev pub worker_of : ProcFile → Option ℕ
worker_of (contents c) = worker_stat (parse_proc_stat c)
worker_of (errno n) = none
worker_of (other_error e) = none

-- What a process used since, if it was seen before and its CPU time has not fallen.
abbrev pub gain : Option ℕ → Option ℕ → ℕ
gain (some before) (some now) = now - before
gain _ _ = 0

abbrev pub gained : Proc → Map ℕ ℕ → List ℕ → ℕ
gained proc previous [] = 0
gained proc previous (pid ∷ pids) =
    gain (lookup pid previous) (worker_of (proc.file pid)) + gained proc previous pids

-- The kworkers among the processes.
unfoldable pub worker_in : Proc → ℕ → List ℕ → Option ℕ
worker_in proc g [] = none
worker_in proc g (pid ∷ pids) =
    let others = worker_in proc g pids in if pid == g then worker_of (proc.file g) else others

take_process-usage :
    (previous : Map ℕ ℕ) (pid : ℕ) (stat : ProcStat) (s : Scan)
    → s.kworkers_usage < 2 ^ 64
    → ((take_process previous pid stat s).kworkers_usage
        ≡ (s.kworkers_usage + gain (lookup pid previous) (worker_stat (some stat))) % 2 ^ 64)
unfolding take_process
take_process-usage previous pid stat s h = elim (Option-cases (lookup pid previous)) [
  | inl new ↦ rw (new, take_process) (ground arith)
  | inr (before, seen) ↦ rw (seen, take_process) (ground arith)
]

gain-none : (before : Option ℕ) (n : ℕ) → n < 2 ^ 64 → n ≡ (n + gain before none) % 2 ^ 64
gain-none none n h = omega arith
gain-none (some before) n h = omega arith

take_file-usage :
    (previous : Map ℕ ℕ) (pid : ℕ) (file : ProcFile) (s : Scan)
    → s.kworkers_usage < 2 ^ 64
    → ((take_file previous pid file s).kworkers_usage
        ≡ (s.kworkers_usage + gain (lookup pid previous) (worker_of file)) % 2 ^ 64)
take_file-usage previous pid (contents c) s h = parsed (parse_proc_stat c)
  where
    parsed :
        (o : Option ProcStat)
        → ((take_parsed previous pid o s).kworkers_usage
            ≡ (s.kworkers_usage + gain (lookup pid previous) (worker_stat o)) % 2 ^ 64)
    parsed none = gain-none (lookup pid previous) s.kworkers_usage h
    parsed (some stat) = take_process-usage previous pid stat s h
take_file-usage previous pid (errno n) s h = gain-none (lookup pid previous) s.kworkers_usage h
take_file-usage previous pid (other_error e) s h =
    gain-none (lookup pid previous) s.kworkers_usage h

-- The entry of a process, if it has one in the first of two places.
abbrev or_else : Option ℕ → Option ℕ → Option ℕ
or_else none o = o
or_else (some n) o = some n

take_process-worker :
    (previous : Map ℕ ℕ) (pid g : ℕ) (stat : ProcStat) (s : Scan)
    → (lookup g (take_process previous pid stat s).kworkers ≡ (
        if pid == g
        then or_else (worker_stat (some stat)) (lookup g s.kworkers)
        else lookup g s.kworkers))
unfolding take_process
take_process-worker previous pid g stat s =
    ground (arith, lookup-insert pid g stat.usage s.kworkers, ==_iff pid g)

take_file-worker :
    (previous : Map ℕ ℕ) (pid g : ℕ) (file : ProcFile) (s : Scan)
    → (lookup g (take_file previous pid file s).kworkers ≡ (
        if pid == g then or_else (worker_of file) (lookup g s.kworkers) else lookup g s.kworkers))
take_file-worker previous pid g (contents c) s = parsed (parse_proc_stat c)
  where
    parsed :
        (o : Option ProcStat)
        → (lookup g (take_parsed previous pid o s).kworkers ≡ (
            if pid == g
            then or_else (worker_stat o) (lookup g s.kworkers)
            else lookup g s.kworkers))
    parsed none = ground arith
    parsed (some stat) = take_process-worker previous pid g stat s
take_file-worker previous pid g (errno n) s = ground arith
take_file-worker previous pid g (other_error e) s = ground arith

unless_error-none :
    (e : Option Error) (s : Scan) (rest : Scan × Option Error)
    → (unless_error e s rest).1 ≡ none
    → unless_error e s rest ≡ rest
unless_error-none none s rest h = refl
unless_error-none (some e) s rest h = ground arith

worker_in_cases :
    (proc : Proc) (g : ℕ) (pids : List ℕ)
    → (worker_in proc g pids ≡ none) ⊎ (worker_in proc g pids ≡ worker_of (proc.file g))
unfolding worker_in
worker_in_cases proc g [] = inl refl
worker_in_cases proc g (pid ∷ pids) = elim (Bool-cases (pid == g)) [
  | inl here ↦ inr (ground arith)
  | inr there ↦ elim (worker_in_cases proc g pids) [
    | inl lacks ↦ inl (ground arith)
    | inr has ↦ inr (ground arith)
  ]
]

or_else-none : (o : Option ℕ) → or_else o none ≡ o
or_else-none none = refl
or_else-none (some n) = refl

or_else_again : (o l : Option ℕ) → or_else o (or_else o l) ≡ or_else o l
or_else_again none l = refl
or_else_again (some n) l = refl

worker_in_cons :
    (proc : Proc) (g pid : ℕ) (pids : List ℕ)
    → worker_in proc g (pid ∷ pids)
      ≡ (if pid == g then worker_of (proc.file pid) else worker_in proc g pids)
unfolding worker_in
worker_in_cons proc g pid pids = elim (Bool-cases (pid == g)) [
  | inr there ↦ ground arith
  | inl here ↦ ground (arith, (==_iff pid g).0 here)
]

next_worker :
    (proc : Proc) (previous : Map ℕ ℕ) (g pid : ℕ) (pids : List ℕ) (s : Scan)
    → (or_else
          (worker_in proc g pids)
          (lookup g (take_file previous pid (proc.file pid) s).kworkers)
        ≡ or_else (worker_in proc g (pid ∷ pids)) (lookup g s.kworkers))
next_worker proc previous g pid pids s =
    rw (worker_in_cons proc g pid pids, take_file-worker previous pid g (proc.file pid) s)
      (elim (Bool-cases (pid == g)) [
        | inr there ↦ rw there refl
        | inl here ↦
            rw (here, (==_iff pid g).0 here)
              (elim (worker_in_cases proc g pids) [
                | inl lacks ↦ rw lacks refl
                | inr has ↦ rw has (or_else_again (worker_of (proc.file g)) (lookup g s.kworkers))
              ])
      ])

scan_pids_sound :
    (proc : Proc) (previous : Map ℕ ℕ) (s : Scan) (pids : List ℕ)
    → s.kworkers_usage < 2 ^ 64
    → (scan_pids proc previous s pids).1 ≡ none
    → (((scan_pids proc previous s pids).0.kworkers_usage
          ≡ (s.kworkers_usage + gained proc previous pids) % 2 ^ 64)
        × ((g : ℕ)
            → (lookup g (scan_pids proc previous s pids).0.kworkers
                ≡ or_else (worker_in proc g pids) (lookup g s.kworkers))))
unfolding scan_pids worker_in
scan_pids_sound proc previous s [] bound h = (omega arith, λ g. refl)
scan_pids_sound proc previous s (pid ∷ pids) bound h =
    let next : Scan = take_file previous pid (proc.file pid) s in
    let rest = scan_pids proc previous next pids in
    let same_end = unless_error-none (read_error (proc.file pid) (proc.self_stat pid)) s rest h in
    let taken = take_file-usage previous pid (proc.file pid) s bound in
    let (usage, workers) =
      scan_pids_sound proc previous next pids (omega arith) (sym (ap (λ r. r.1) same_end) ∙ h) in
    (
      ap (λ r. r.0.kworkers_usage) same_end ∙ ground arith,
      λ g.
          ap (λ r. lookup g r.0.kworkers) same_end
          ∙ workers g
          ∙ next_worker proc previous g pid pids s,
    )

end_or_error :
    (P : Collector → Type 0) (c : Collector) (r : Scan × Option Error)
    → (r.1 ≡ none → P (finish c (r.0, none)).after)
    → (((finish c r).failure ≡ none) × P (finish c r).after)
      ⊎ (((finish c r).failure ≢ none) × ((finish c r).after ≡ c))
unfolding finish
end_or_error P c (s, none) h = inl (refl, h refl)
end_or_error P c (s, some e) h = inr (ground arith, refl)

-- When an observation succeeds, the sum has grown, modulo 2^64, by what each kworker used since the
-- last observation (nothing for one that is new, or whose CPU time has fallen), and the CPU times
-- that are remembered are those of the kworkers among the processes, and of no others. When it
-- fails, the collector is as it was.
pub observe_pids-workers :
    (proc : Proc) (c : Collector) (pids : List ℕ)
    → c.kworkers_usage < 2 ^ 64
    → let o = observe_pids proc c (found pids) in
      ((o.failure ≡ none)
        × ((o.after.kworkers_usage ≡ (c.kworkers_usage + gained proc c.kworkers pids) % 2 ^ 64)
            × ((g : ℕ) → lookup g o.after.kworkers ≡ worker_in proc g pids)))
      ⊎ ((o.failure ≢ none) × (o.after ≡ c))
unfolding observe_pids finish lookup
observe_pids-workers proc c pids bound =
    end_or_error
      (λ after.
        (after.kworkers_usage ≡ (c.kworkers_usage + gained proc c.kworkers pids) % 2 ^ 64)
        × ((g : ℕ) → lookup g after.kworkers ≡ worker_in proc g pids))
      c (scan_pids proc c.kworkers (start c) pids)
      λ h.
        let (usage, workers) = scan_pids_sound proc c.kworkers (start c) pids bound h in
        (usage, λ g. workers g ∙ or_else-none (worker_in proc g pids))
