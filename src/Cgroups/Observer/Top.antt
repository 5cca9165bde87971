-- ===== src/Cgroups/Observer/Top.antt =====
-- The service of the root group.
use server_metrics.Base.{
  ℕ, zero, suc, ◌≡◌, ◌∙◌, sym, ap, refl, true, List, [], ◌∷◌, Option, none, some, some_cancel,
  Bytes, bytes_eq, codes, Read, found, missing, failed, Bool-cases, inl, inr,
}
use server_metrics.Error.{Error}
use server_metrics.Map.{insert, contains, contains-insert}
use server_metrics.Cgroups.Group.{FileSystem, Group, children}
use server_metrics.Cgroups.Classifier.{Classification, Classifier}
use server_metrics.Cgroups.Observer.{
  Collector, State, Seen, Walk, next_collector, collect_all, log_failure, collect_service,
  collect_group, when_observed, observe_listed, observe_children, observe_traversed,
  observe_excluding, observe_group, observe_verdict, observe, root,
}

abbrev pub kernel : Classification
kernel = record { service = codes "kernel"; total_excluding = none }

module _ {S : Type 0} where
  next_collector-services :
      (rest : State S → Seen S) (r : Read Error (Unit {0})) (s : State S)
      → ((t : State S) → (rest t).1.services ≡ t.services)
      → (next_collector rest r s).1.services ≡ s.services
  unfolding next_collector
  next_collector-services rest (failed e) s k = refl
  next_collector-services rest missing s k = refl
  next_collector-services rest (found u) s k = k s

  collect_all-services :
      (cs : List (Collector S)) (service : Bytes) (g : Group) (exclude : List Bytes) (s : State S)
      → (collect_all cs service g exclude s).1.services ≡ s.services
  unfolding collect_all
  collect_all-services [] service g exclude s = refl
  collect_all-services (c ∷ cs) service g exclude s =
      let ((r, collectors'), races') = c.collect service g exclude s.collectors s.races in
      next_collector-services (collect_all cs service g exclude) r _
        (collect_all-services cs service g exclude)

  log_failure-services : (x : Seen S) → (log_failure x).1.services ≡ x.1.services
  unfolding log_failure
  log_failure-services (failed e, s) = refl
  log_failure-services (missing, s) = refl
  log_failure-services (found u, s) = refl

  kernel-noted :
      (cs : List (Collector S)) (s : State S)
      → contains (codes "kernel") (collect_group cs root (some kernel) s).1.services ≡ true
  unfolding collect_group collect_service
  kernel-noted cs s = elim (Bool-cases (contains (codes "kernel") s.services)) [
    | inl known ↦ rw known known
    | inr new ↦
        let s0 : State S = record s { services = insert (codes "kernel") root.name s.services } in
        rw
          (
            new,
            log_failure-services (collect_all cs (codes "kernel") root [] s0),
            collect_all-services cs (codes "kernel") root [] s0,
          )
          (contains-insert (codes "kernel") (codes "kernel") root.name s.services)
  ]

  when_observed-found :
      (next : State S → Seen S) (o : Option (Seen S)) {s : State S}
      → when_observed next o ≡ some (found tt, s)
      → (t : State S) × (next t ≡ (found tt, s))
  unfolding when_observed
  when_observed-found next none h = cc
  when_observed-found next (some (failed e, t)) h = cc
  when_observed-found next (some (missing, t)) h = cc
  when_observed-found next (some (found u, t)) h = (t, some_cancel h)

  listed-found :
      (walk : Group → Walk S) (next : State S → Seen S) (r : Read Error (List Group)) (t : State S)
      {s : State S}
      → observe_listed walk next r t ≡ some (found tt, s)
      → (t' : State S) × (next t' ≡ (found tt, s))
  unfolding observe_listed
  listed-found walk next (failed e) t h = cc
  listed-found walk next missing t h = cc
  listed-found walk next (found gs) t h = when_observed-found next _ h

-- When the walk from the root group finds it and has no error, the service "kernel" is among those
-- that were noted, whatever the rest of the tree was and whatever the collectors did.
pub observe-kernel :
    {S : Type 0} (c : Classifier) (fs : FileSystem) (cs : List (Collector S)) (fuel : ℕ)
    (s t : State S)
    → observe c fs cs fuel root s ≡ some (found tt, t)
    → contains (codes "kernel") t.services ≡ true
unfolding observe observe_verdict observe_group observe_excluding observe_traversed observe_children
observe-kernel c fs cs zero s t h = cc
observe-kernel c fs cs (suc fuel) s t h =
    let (s', e) =
      listed-found (observe c fs cs fuel) (collect_group cs root (some kernel))
        (children fs root s.races).0 _ h in
    ap (λ x. contains (codes "kernel") x.1.services) (sym e) ∙ kernel-noted cs s'
