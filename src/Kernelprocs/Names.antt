-- ===== src/Kernelprocs/Names.antt =====
-- No two metrics of an observation have the same name.
use server_metrics.Base.{
  ℕ, ◌≡◌, refl, false, ◌||◌, List, [], ◌∷◌, Option, none, some, Bytes, bytes_eq, arith, same,
  same_iff, Read, found, missing, failed,
}
use server_metrics.Error.{Error}
use server_metrics.Map.{
  Map, contains, contains-insert, contains-append, HasUniqueKeys, HasUniqueKeys-snoc,
}
use server_metrics.Kernelprocs.Stat.{ProcStat, parse_proc_stat}
use server_metrics.Kernelprocs.{
  ProcFile, contents, errno, other_error, Proc, Collector, Scan, kworkers_name, take_process,
  take_parsed, take_file, read_error, unless_error, scan_pids, start, finish, observe_pids,
}

-- The names that are taken are those of the metrics sent, and the name of the sum of the kworkers.
record IsNamed (s : Scan) : Type 0 where
  unique : HasUniqueKeys s.sent
  free : contains kworkers_name s.sent ≡ false
  taken : (n : Bytes) → contains n s.names ≡ (same kworkers_name n || contains n s.sent)

take_process-IsNamed :
    (previous : Map ℕ ℕ) (pid : ℕ) (stat : ProcStat) (s : Scan)
    → IsNamed s
    → IsNamed (take_process previous pid stat s)
unfolding take_process contains
take_process-IsNamed previous pid stat s v = record {
  unique =
      ground (arith, v.taken stat.name, v.unique, HasUniqueKeys-snoc s.sent stat.name stat.usage);
  free = ground (
    arith,
    v.taken stat.name,
    v.free,
    contains-append kworkers_name s.sent ((stat.name, stat.usage) ∷ []),
    same_iff kworkers_name stat.name,
    same_iff stat.name kworkers_name,
  );
  taken = λ n. ground (
    arith,
    v.taken n,
    contains-insert stat.name n tt s.names,
    contains-append n s.sent ((stat.name, stat.usage) ∷ []),
    same_iff stat.name n,
  );
}

take_file-IsNamed :
    (previous : Map ℕ ℕ) (pid : ℕ) (file : ProcFile) (s : Scan)
    → IsNamed s
    → IsNamed (take_file previous pid file s)
take_file-IsNamed previous pid (contents c) s v = parsed (parse_proc_stat c)
  where
    parsed : (o : Option ProcStat) → IsNamed (take_parsed previous pid o s)
    parsed none = v
    parsed (some stat) = take_process-IsNamed previous pid stat s v
take_file-IsNamed previous pid (errno n) s v = v
take_file-IsNamed previous pid (other_error e) s v = v

unless_error-IsNamed :
    (e : Option Error) (s : Scan) (rest : Scan × Option Error)
    → IsNamed s
    → IsNamed rest.0
    → IsNamed (unless_error e s rest).0
unless_error-IsNamed none s rest v w = w
unless_error-IsNamed (some e) s rest v w = v

scan_pids-IsNamed :
    (proc : Proc) (previous : Map ℕ ℕ) (s : Scan) (pids : List ℕ)
    → IsNamed s
    → IsNamed (scan_pids proc previous s pids).0
unfolding scan_pids
scan_pids-IsNamed proc previous s [] v = v
scan_pids-IsNamed proc previous s (pid ∷ pids) v =
    let next : Scan = take_file previous pid (proc.file pid) s in
    unless_error-IsNamed (read_error (proc.file pid) (proc.self_stat pid)) s
      (scan_pids proc previous next pids) v
      (scan_pids-IsNamed proc previous next pids
        (take_file-IsNamed previous pid (proc.file pid) s v))

finish_unique :
    (c : Collector) (r : Scan × Option Error) → IsNamed r.0 → HasUniqueKeys (finish c r).metrics
unfolding finish
finish_unique c (s, some e) v = v.unique
finish_unique c (s, none) v =
    HasUniqueKeys-snoc s.sent kworkers_name s.kworkers_usage v.free v.unique

start-IsNamed : (c : Collector) → IsNamed (start c)
unfolding contains
start-IsNamed c = record {
  unique = tt;
  free = refl;
  taken = λ n. ground (arith, same_iff kworkers_name n);
}

-- However an observation ends, no two of the metrics that it sends have the same name.
pub observe_pids-HasUniqueKeys :
    (proc : Proc) (c : Collector) (r : Read Error (List ℕ))
    → HasUniqueKeys (observe_pids proc c r).metrics
unfolding observe_pids
observe_pids-HasUniqueKeys proc c missing = tt
observe_pids-HasUniqueKeys proc c (failed e) = tt
observe_pids-HasUniqueKeys proc c (found pids) =
    finish_unique c (scan_pids proc c.kworkers (start c) pids)
      (scan_pids-IsNamed proc c.kworkers (start c) pids (start-IsNamed c))
