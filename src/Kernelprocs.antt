-- ===== src/Kernelprocs.antt =====
-- internal/kernelprocs/collector.go: the CPU time of the kernel's processes.
pub mod Stat
pub mod Names
pub mod Workers
use server_metrics.Base.{
  ℕ, ◌+◌, ◌-◌, ◌%◌, ◌^◌, Bool, true, false, List, [], ◌∷◌, ◌++◌, Option, none, some, Bytes,
  bytes_eq, nat_eq, codes, ltb, ◌==◌, if◌then◌else◌, Read, found, missing, failed,
}
use server_metrics.Error.{Error, system, not_mounted}
use server_metrics.Map.{Map, lookup, insert, contains}
use server_metrics.Text.{has_prefix}
use server_metrics.Cgroups.Races.{RaceController, new_race_controller}
use server_metrics.Cgroups.Group.{FileSystem, Group, pids, enoent}
use server_metrics.Kernelprocs.Stat.{ProcStat, parse_proc_stat}

abbrev pub esrch : ℕ
esrch = 3

-- What `os.ReadFile` gives for `/proc/…/stat`: the contents, an error number of the system, or another
-- error.
pub data ProcFile : Type 0 where
  contents : Bytes → ProcFile
  errno : ℕ → ProcFile
  other_error : Error → ProcFile

-- What `os.Stat` says of `/proc/self/stat`.
pub data SelfStat : Type 0 where
  exists : SelfStat
  not_exist : SelfStat
  stat_error : Error → SelfStat

-- The files of one observation, by process.
pub record Proc : Type 0 where
  pub file : ℕ → ProcFile
  pub self_stat : ℕ → SelfStat

-- The state of the collector, in clock ticks; the last CPU time of each kworker process.
pub record Collector : Type 0 where
  pub kworkers : Map ℕ ℕ
  pub kworkers_usage : ℕ

abbrev pub Metric : Type 0
Metric = Bytes × ℕ

-- The variables of `observe`, with the metrics that it has sent.
pub record Scan : Type 0 where
  pub kworkers : Map ℕ ℕ
  pub names : Map Bytes (Unit {0})
  pub kworkers_usage : ℕ
  pub sent : List Metric

abbrev pub kworkers_name : Bytes
kworkers_name = codes "kworkers"

abbrev pub add_uint64 : ℕ → ℕ → ℕ
add_uint64 a b = (a + b) % 2 ^ 64

-- A kworker that was seen before adds what it has used since; a decrease is only logged.
unfoldable pub add_kworker : Option ℕ → ℕ → ℕ → ℕ
add_kworker none usage total = total
add_kworker (some previous) usage total =
    if ltb usage previous then total else add_uint64 total (usage - previous)

abbrev pub is_kworker : ProcStat → Bool
is_kworker stat = has_prefix stat.name (codes "kworker/")

-- The rest of a round, for a process whose file was parsed; `previous` are the kworkers of the last
-- observation.
unfoldable pub take_process : Map ℕ ℕ → ℕ → ProcStat → Scan → Scan
unfolding add_kworker
take_process previous pid stat s =
    if is_kworker stat
    then record s {
      kworkers = insert pid stat.usage s.kworkers;
      kworkers_usage = add_kworker (lookup pid previous) stat.usage s.kworkers_usage;
    }
    else if stat.usage == 0
    then s
    else if contains stat.name s.names
    then s
    else record s {
      names = insert stat.name tt s.names;
      sent = s.sent ++ ((stat.name, stat.usage) ∷ []);
    }

-- A file that does not parse is only logged.
abbrev pub take_parsed : Map ℕ ℕ → ℕ → Option ProcStat → Scan → Scan
take_parsed previous pid none s = s
take_parsed previous pid (some stat) s = take_process previous pid stat s

-- A process that is gone is passed over, if /proc is there.
unfoldable pub missing_process : SelfStat → Option Error
missing_process exists = none
missing_process not_exist = some not_mounted
missing_process (stat_error e) = some e

-- The error that a file makes `observe` return.
unfoldable pub read_error : ProcFile → SelfStat → Option Error
unfolding missing_process
read_error (contents c) self = none
read_error (errno n) self =
    if n == esrch then none else if n == enoent then missing_process self else some (system n)
read_error (other_error e) self = some e

abbrev pub take_file : Map ℕ ℕ → ℕ → ProcFile → Scan → Scan
take_file previous pid (contents c) s = take_parsed previous pid (parse_proc_stat c) s
take_file previous pid (errno n) s = s
take_file previous pid (other_error e) s = s

abbrev pub unless_error : Option Error → Scan → Scan × Option Error → Scan × Option Error
unless_error none s rest = rest
unless_error (some e) s rest = (s, some e)

-- The loop over the processes.
unfoldable pub scan_pids : Proc → Map ℕ ℕ → Scan → List ℕ → Scan × Option Error
unfolding read_error
scan_pids proc previous s [] = (s, none)
scan_pids proc previous s (pid ∷ rest) =
    unless_error (read_error (proc.file pid) (proc.self_stat pid)) s
      (scan_pids proc previous (take_file previous pid (proc.file pid) s) rest)

abbrev pub start : Collector → Scan
start c = record {
  kworkers = [];
  names = (kworkers_name, tt) ∷ [];
  kworkers_usage = c.kworkers_usage;
  sent = [];
}

-- What `observe` sends, the state it leaves, and its error.
pub record Observed : Type 0 where
  pub metrics : List Metric
  pub after : Collector
  pub failure : Option Error

unfoldable pub finish : Collector → Scan × Option Error → Observed
finish c (s, none) = record {
  metrics = s.sent ++ ((kworkers_name, s.kworkers_usage) ∷ []);
  after = record { kworkers = s.kworkers; kworkers_usage = s.kworkers_usage };
  failure = none;
}
finish c (s, some e) = record { metrics = s.sent; after = c; failure = some e }

abbrev pub failed_with : Collector → Error → Observed
failed_with c e = record { metrics = []; after = c; failure = some e }

-- `observe`, behind the reading of the processes of the root group.
unfoldable pub observe_pids : Proc → Collector → Read Error (List ℕ) → Observed
unfolding finish scan_pids
observe_pids proc c (found pids) = finish c (scan_pids proc c.kworkers (start c) pids)
observe_pids proc c missing = failed_with c not_mounted
observe_pids proc c (failed e) = failed_with c e

-- The group refers to no race controller, so that this one stays as it is.
abbrev pub root_group : Group
root_group = record { name = codes "/"; has_races = false }

-- `observe`
unfoldable pub observe : FileSystem → Proc → Collector → Observed
unfolding observe_pids
observe fs proc c = observe_pids proc c (pids fs root_group (new_race_controller 0 0)).0
