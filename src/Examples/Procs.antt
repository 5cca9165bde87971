-- ===== src/Examples/Procs.antt =====
-- The theorems on the kernel's processes at concrete inputs.
use server_metrics.Base.{
  nat_eq, ◌==◌, ◌^◌, ◌⊎◌, ℕ, ◌+◌, ◌%◌, ◌≡◌, ◌≢◌, refl, List, [], ◌∷◌, none, some, Bytes, codes,
  arith, found, if◌then◌else◌, bytes_eq,
}
use server_metrics.Map.{lookup, insert, HasUniqueKeys}
use server_metrics.Kernelprocs.Stat.{parse_proc_stat}
use server_metrics.Text.{split, index_byte, last_index_byte, parse_uint, has_prefix}
use server_metrics.Text.Split.{join}
use server_metrics.Kernelprocs.{
  contents, errno, Proc, exists, Collector, esrch, take_process, observe_pids,
}
use server_metrics.Kernelprocs.Stat.Line.{stat_text, parse_proc_stat-fields}
use server_metrics.Kernelprocs.Names.{observe_pids-HasUniqueKeys}
use server_metrics.Kernelprocs.Workers.{gained, worker_in, observe_pids-workers}

abbrev zeros : List Bytes
zeros =
    codes "0"
    ∷ codes "0"
    ∷ codes "0"
    ∷ codes "0"
    ∷ codes "0"
    ∷ codes "0"
    ∷ codes "0"
    ∷ codes "0"
    ∷ codes "0"
    ∷ codes "0"
    ∷ codes "0"
    ∷ codes "12"
    ∷ codes "0"
    ∷ []

-- The name has a bracket and a space of its own.
parse_proc_stat-fields_example :
    parse_proc_stat (stat_text (codes "7 ") (codes "a (b) c") (codes "" ∷ zeros))
    ≡ some (record { name = codes "a (b) c"; usage = 12 })
unfolding parse_uint
parse_proc_stat-fields_example =
    parse_proc_stat-fields (codes "7 ") (codes "a (b) c") [] zeros (codes "12") 12 (ground arith)
      (ground arith) (ground arith) refl refl

abbrev worker_text : Bytes
worker_text = stat_text (codes "7 ") (codes "kworker/0:1") (codes "" ∷ zeros)

-- Process 7 is a kworker, and all others have ended.
abbrev proc : Proc
proc = record {
  file = λ pid. if pid == 7 then contents worker_text else errno esrch;
  self_stat = λ pid. exists;
}

abbrev before : Collector
before = record { kworkers = (7, 5) ∷ []; kworkers_usage = 100 }

observe_pids-HasUniqueKeys_example :
    HasUniqueKeys (observe_pids proc before (found (7 ∷ 8 ∷ []))).metrics
observe_pids-HasUniqueKeys_example = observe_pids-HasUniqueKeys proc before (found (7 ∷ 8 ∷ []))

observe_pids-workers_example :
    let o = observe_pids proc before (found (7 ∷ 8 ∷ [])) in
    ((o.failure ≡ none)
      × ((o.after.kworkers_usage ≡ (100 + gained proc before.kworkers (7 ∷ 8 ∷ [])) % 2 ^ 64)
          × ((g : ℕ) → lookup g o.after.kworkers ≡ worker_in proc g (7 ∷ 8 ∷ []))))
    ⊎ ((o.failure ≢ none) × (o.after ≡ before))
observe_pids-workers_example = observe_pids-workers proc before (7 ∷ 8 ∷ []) (ground arith)

observe_workers_test :
    (observe_pids proc before (found (7 ∷ 8 ∷ []))).after
    ≡ record { kworkers = (7, 12) ∷ []; kworkers_usage = 107 }
unfolding observe_pids parse_proc_stat lookup index_byte last_index_byte join split parse_uint
    take_process has_prefix insert
observe_workers_test = refl
