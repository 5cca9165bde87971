-- ===== src/Cgroups/Observer/Collectors/Metrics.antt =====
-- What the collectors record in one collection.
use server_metrics.Base.{
  ℕ, ◌≡◌, true, false, List, [], ◌∷◌, Option, none, some, Bytes, bytes_eq, same_iff, Read, found,
  missing, failed, Bool-cases, inl, inr, arith,
}
use server_metrics.Error.{Error}
use server_metrics.Map.{
  Map, insert, contains, contains-insert, contains-append, HasUniqueKeys, HasUniqueKeys-snoc,
}
use server_metrics.Cgroups.Races.{RaceController}
use server_metrics.Cgroups.Group.{FileSystem, Group}
use server_metrics.Cgroups.Classifier.{Classification, Classifier}
use server_metrics.Cgroups.Cpu
use server_metrics.Cgroups.Memory
use server_metrics.Cgroups.Io
use server_metrics.Cgroups.Io.Resolver.{Links}
use server_metrics.Cgroups.Observer.{
  Collector, State, Seen, or_empty, next_collector, collect_all, log_failure, collect_service,
  collect_group, observe, begin,
}
use server_metrics.Cgroups.Observer.Walks.{Keeps, observe-Keeps}
use server_metrics.Cgroups.Observer.Collectors.{
  Collectors, recorded, io_metrics, cpu_collector, memory_collector, io_collector, all_collectors,
}

-- What was recorded has each service once, and has only services that were noted.
abbrev pub IsSent : {U : Type 0} → Map Bytes Bytes → Map Bytes U → Type 0
IsSent services sent =
    HasUniqueKeys sent
    × ((name : Bytes) → contains name sent ≡ true → contains name services ≡ true)

-- The same of each of the collectors.
abbrev pub AreSent : State Collectors → Type 0
AreSent s =
    IsSent s.services s.collectors.cpu_sent
    × IsSent s.services s.collectors.memory_sent
    × IsSent s.services s.collectors.io_sent

recorded-IsSent :
    {U : Type 0} (services : Map Bytes Bytes) (service : Bytes) (r : Read Error U)
    (sent : Map Bytes U)
    → contains service sent ≡ false
    → contains service services ≡ true
    → IsSent services sent
    → IsSent services (recorded service r sent)
unfolding contains
recorded-IsSent services service missing sent new noted h = h
recorded-IsSent services service (failed e) sent new noted h = h
recorded-IsSent services service (found u) sent new noted (unique, within) = (
  HasUniqueKeys-snoc sent service u new unique,
  λ name h.
      ground
        (arith, within name, contains-append name sent ((service, u) ∷ []), same_iff service name),
)

noted-IsSent :
    {U : Type 0} (services : Map Bytes Bytes) (service group : Bytes) (sent : Map Bytes U)
    → IsSent services sent
    → IsSent (insert service group services) sent
noted-IsSent services service group sent (unique, within) =
    (unique, λ name h. ground (arith, within name, contains-insert service name group services))

new_service :
    {U : Type 0} (services : Map Bytes Bytes) (service : Bytes) (sent : Map Bytes U)
    → IsSent services sent
    → contains service services ≡ false
    → contains service sent ≡ false
new_service services service sent (unique, within) new = ground (arith, within service)

next_collector-keeps :
    (Q : State Collectors → Type 0) (rest : State Collectors → Seen Collectors)
    (r : Read Error (Unit {0})) (s : State Collectors)
    → Q s
    → Q (rest s).1
    → Q (next_collector rest r s).1
unfolding next_collector
next_collector-keeps Q rest (failed e) s h k = h
next_collector-keeps Q rest missing s h k = h
next_collector-keeps Q rest (found u) s h k = k

log_failure-keeps :
    (Q : State Collectors → Type 0) (x : Seen Collectors) → Q x.1 → Q (log_failure x).1
unfolding log_failure
log_failure-keeps Q (failed e, s) h = h
log_failure-keeps Q (missing, s) h = h
log_failure-keeps Q (found u, s) h = h

-- The state that one collector leaves.
abbrev after :
    Collector Collectors → Bytes → Group → List Bytes → State Collectors → State Collectors
after c service g exclude s =
    let ((r, collectors'), races') = c.collect service g exclude s.collectors s.races in
    record s { collectors = collectors'; races = races' }

collect_all-keeps :
    (Q : State Collectors → Type 0) (c : Collector Collectors) (cs : List (Collector Collectors))
    (service : Bytes) (g : Group) (exclude : List Bytes) (s : State Collectors)
    → Q (after c service g exclude s)
    → Q (collect_all cs service g exclude (after c service g exclude s)).1
    → Q (collect_all (c ∷ cs) service g exclude s).1
unfolding collect_all
collect_all-keeps Q c cs service g exclude s h k =
    next_collector-keeps Q (collect_all cs service g exclude)
      (c.collect service g exclude s.collectors s.races).0.0 (after c service g exclude s) h k

module _ (fs : FileSystem) (links : Links) where
  collect_all-AreSent :
      (service : Bytes) (g : Group) (exclude : List Bytes) (s : State Collectors)
      → contains service s.services ≡ true
      → contains service s.collectors.cpu_sent ≡ false
      → contains service s.collectors.memory_sent ≡ false
      → contains service s.collectors.io_sent ≡ false
      → AreSent s
      → AreSent (collect_all (all_collectors fs links) service g exclude s).1
  unfolding collect_all
  collect_all-AreSent service g exclude s noted new_cpu new_memory new_io (cpu, memory, io) =
      let s1 : State Collectors = after (cpu_collector fs links) service g exclude s in
      let s2 : State Collectors = after (memory_collector fs links) service g exclude s1 in
      let s3 : State Collectors = after (io_collector fs links) service g exclude s2 in
      let cpu' : IsSent s1.services s1.collectors.cpu_sent =
        recorded-IsSent s.services service
          (Cpu.collect fs s.collectors.cpu_roots g exclude s.races).0.0 _ new_cpu noted cpu in
      let memory' : IsSent s2.services s2.collectors.memory_sent =
        recorded-IsSent s.services service (Memory.collect fs g exclude s1.races).0 _ new_memory
          noted memory in
      let io' : IsSent s3.services s3.collectors.io_sent =
        recorded-IsSent s.services service
          (io_metrics links s2.collectors.devices service
            (Io.collect fs s2.collectors.io_roots g exclude s2.races).0.0).0
          _ new_io noted io in
      let done : AreSent s3 = (cpu', memory', io') in
      collect_all-keeps AreSent (cpu_collector fs links)
        (memory_collector fs links ∷ io_collector fs links ∷ []) service g exclude s
        (cpu', memory, io)
        (collect_all-keeps AreSent (memory_collector fs links) (io_collector fs links ∷ []) service
          g exclude s1 (cpu', memory', io)
          (collect_all-keeps AreSent (io_collector fs links) [] service g exclude s2 done done))

  service-AreSent :
      (g : Group) (c : Classification) (s : State Collectors)
      → AreSent s
      → AreSent (collect_service (all_collectors fs links) g c s).1
  unfolding collect_service
  service-AreSent g c s (cpu, memory, io) = elim (Bool-cases (contains c.service s.services)) [
    | inl known ↦ rw known (cpu, memory, io)
    | inr new ↦
        let s0 : State Collectors = record s { services = insert c.service g.name s.services } in
        rw new (
          log_failure-keeps AreSent
            (collect_all (all_collectors fs links) c.service g (or_empty c.total_excluding) s0)
            (collect_all-AreSent c.service g (or_empty c.total_excluding) s0
              (ground (
                arith,
                contains-insert c.service c.service g.name s.services,
                same_iff c.service c.service,
              ))
              (new_service s.services c.service s.collectors.cpu_sent cpu new)
              (new_service s.services c.service s.collectors.memory_sent memory new)
              (new_service s.services c.service s.collectors.io_sent io new)
              (
                noted-IsSent s.services c.service g.name s.collectors.cpu_sent cpu,
                noted-IsSent s.services c.service g.name s.collectors.memory_sent memory,
                noted-IsSent s.services c.service g.name s.collectors.io_sent io,
              )))
  ]

  group-AreSent :
      (g : Group) (o : Option Classification) (s : State Collectors)
      → AreSent s
      → AreSent (collect_group (all_collectors fs links) g o s).1
  unfolding collect_group
  group-AreSent g none s h = h
  group-AreSent g (some c) s h = service-AreSent g c s h

-- In one collection, CPU time, memory, and input/output are each recorded at most once for a service,
-- and only for services that the walk has noted, however the groups of the tree are classified and
-- whatever their files say.
pub observe-AreSent :
    (c : Classifier) (fs collected : FileSystem) (links : Links) (fuel : ℕ) (g : Group)
    (s : Collectors) (races : RaceController)
    → Keeps AreSent (
        observe c fs
          (all_collectors collected links)
          fuel
          g
          (begin (all_collectors collected links) s races))
unfolding begin contains
observe-AreSent c fs collected links fuel g s races =
    observe-Keeps AreSent fs (all_collectors collected links) (λ s races' h. h)
      (group-AreSent collected links) c fuel g _
      ((tt, λ name h. cc), (tt, λ name h. cc), (tt, λ name h. cc))
