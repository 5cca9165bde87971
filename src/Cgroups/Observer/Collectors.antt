-- ===== src/Cgroups/Observer/Collectors.antt =====
-- The collectors that `NewCollector` of internal/cgroups/collector/collector.go puts together: CPU,
-- memory, and input/output, with what each of them records for a service.
pub mod Metrics
use server_metrics.Base.{List, [], ◌∷◌, ◌++◌, Bytes, Read, found, missing, failed}
use server_metrics.Error.{Error}
use server_metrics.Map.{Map}
use server_metrics.Cgroups.Races.{RaceController}
use server_metrics.Cgroups.Group.{FileSystem, Group}
use server_metrics.Cgroups.Cpu
use server_metrics.Cgroups.Memory
use server_metrics.Cgroups.Io
use server_metrics.Cgroups.Io.Device.{Usage}
use server_metrics.Cgroups.Io.Resolver.{Links, Devices}
use server_metrics.Cgroups.Observer.{Collector}

-- The state of each collector, and what it has recorded in this collection, by service.
pub record Collectors : Type 0 where
  pub cpu_roots : Cpu.Roots
  pub io_roots : Io.Roots
  pub devices : Devices
  pub cpu_sent : Map Bytes Cpu.Usage
  pub memory_sent : Map Bytes Memory.Usage
  pub io_sent : Map Bytes (List Io.Metrics)

-- The result that `Collect` returns, without what it records.
abbrev pub returned {ℓ} : {U : Type ℓ} → Read Error U → Read Error (Unit {0})
returned (found u) = found tt
returned missing = missing
returned (failed e) = failed e

-- One more entry, where there is something to record.
abbrev pub recorded {ℓ} : {U : Type ℓ} → Bytes → Read Error U → Map Bytes U → Map Bytes U
recorded service (found u) sent = sent ++ ((service, u) ∷ [])
recorded service missing sent = sent
recorded service (failed e) sent = sent

abbrev pub io_metrics :
    Links → Devices → Bytes → Read Error Usage → Read Error (List Io.Metrics) × Devices
io_metrics links devices service (found u) =
    let (metrics, devices') = Io.record_usage links devices service u in (found metrics, devices')
io_metrics links devices service missing = (missing, devices)
io_metrics links devices service (failed e) = (failed e, devices)

module _ (fs : FileSystem) (links : Links) where
  abbrev pub cpu_collector : Collector Collectors
  cpu_collector = record {
    pre = λ s. record s { cpu_roots = Cpu.pre s.cpu_roots; cpu_sent = [] };
    post = λ s. record s { cpu_roots = Cpu.post s.cpu_roots };
    collect = λ service g exclude s races.
        let ((r, roots), races') = Cpu.collect fs s.cpu_roots g exclude races in
        (
          (returned r, record s { cpu_roots = roots; cpu_sent = recorded service r s.cpu_sent }),
          races',
        );
  }

  -- It has no state.
  abbrev pub memory_collector : Collector Collectors
  memory_collector = record {
    pre = λ s. record s { memory_sent = [] };
    post = λ s. s;
    collect = λ service g exclude s races.
        let (r, races') = Memory.collect fs g exclude races in
        ((returned r, record s { memory_sent = recorded service r s.memory_sent }), races');
  }

  abbrev pub io_collector : Collector Collectors
  io_collector = record {
    pre = λ s. record s { io_roots = Io.pre s.io_roots; devices = []; io_sent = [] };
    post = λ s. record s { io_roots = Io.post s.io_roots };
    collect = λ service g exclude s races.
        let ((r, roots), races') = Io.collect fs s.io_roots g exclude races in
        let (metrics, devices') = io_metrics links s.devices service r in
        (
          (
            returned r,
            record s {
              io_roots = roots;
              devices = devices';
              io_sent = recorded service metrics s.io_sent;
            },
          ),
          races',
        );
  }

  abbrev pub all_collectors : List (Collector Collectors)
  all_collectors = cpu_collector ∷ memory_collector ∷ io_collector ∷ []
