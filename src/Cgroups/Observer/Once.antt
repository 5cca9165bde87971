-- ===== src/Cgroups/Observer/Once.antt =====
-- No service is given to the collectors twice in one collection.
use server_metrics.Base.{
  ℕ, ◌≡◌, ◌∙◌, sym, ap, subst, refl, List, [], ◌∷◌, ◌++◌, Option, none, some, Bytes, bytes_eq, map,
  Read, found, missing, failed, Bool-cases, inl, inr,
}
use server_metrics.Error.{Error}
use server_metrics.Map.{Map, insert, contains, HasUniqueKeys, insert-HasUniqueKeys, insert_new}
use server_metrics.Cgroups.Races.{RaceController}
use server_metrics.Cgroups.Group.{FileSystem, Group}
use server_metrics.Cgroups.Classifier.{Classification, Classifier}
use server_metrics.Cgroups.Observer.{
  Collector, State, Seen, or_empty, next_collector, collect_all, log_failure, collect_service,
  collect_group, observe, begin,
}
use server_metrics.Cgroups.Observer.Walks.{Keeps, observe-Keeps}

abbrev pub Answer : Type 0
Answer = Bytes → Group → List Bytes → RaceController → Read Error (Unit {0}) × RaceController

-- A collector whose state is the list of the services that it was given, and which answers freely.
abbrev pub listing : Answer → Collector (List Bytes)
listing answer = record {
  pre = λ s. [];
  post = λ s. s;
  collect = λ service g exclude given races.
      let (r, races') = answer service g exclude races in ((r, given ++ (service ∷ [])), races');
}

abbrev keys : Map Bytes Bytes → List Bytes
keys m = map (λ e. e.0) m

-- The services are distinct, and the collector was given each of them once, in their order.
abbrev pub IsOnce : State (List Bytes) → Type 0
IsOnce s = HasUniqueKeys s.services × (s.collectors ≡ keys s.services)

keys-snoc : (m : Map Bytes Bytes) (k v : Bytes) → keys (m ++ ((k, v) ∷ [])) ≡ keys m ++ (k ∷ [])
keys-snoc [] k v = refl
keys-snoc (e ∷ m) k v = ap (◌∷◌ e.0) (keys-snoc m k v)

log_failure-state : {S : Type 0} (x : Seen S) → (log_failure x).1 ≡ x.1
unfolding log_failure
log_failure-state (failed e, s) = refl
log_failure-state (missing, s) = refl
log_failure-state (found u, s) = refl

next_collector-state :
    {S : Type 0} (r : Read Error (Unit {0})) (s : State S)
    → (next_collector (λ s'. (found tt, s')) r s).1 ≡ s
unfolding next_collector
next_collector-state (failed e) s = refl
next_collector-state missing s = refl
next_collector-state (found u) s = refl

collect_all-given :
    (answer : Answer) (service : Bytes) (g : Group) (exclude : List Bytes) (s : State (List Bytes))
    → let s' = (collect_all (listing answer ∷ []) service g exclude s).1 in
      (s'.services ≡ s.services) × (s'.collectors ≡ s.collectors ++ (service ∷ []))
unfolding collect_all
collect_all-given answer service g exclude s =
    let (r, races') = answer service g exclude s.races in
    let after : State (List Bytes) = record s {
      collectors = s.collectors ++ (service ∷ []);
      races = races';
    } in
    let e = next_collector-state r after in (ap (λ t. t.services) e, ap (λ t. t.collectors) e)

service-IsOnce :
    (answer : Answer) (g : Group) (c : Classification) (s : State (List Bytes))
    → IsOnce s
    → IsOnce (collect_service (listing answer ∷ []) g c s).1
unfolding collect_service
service-IsOnce answer g c s (u, l) = elim (Bool-cases (contains c.service s.services)) [
  | inl known ↦ rw known (u, l)
  | inr new ↦
      let s0 : State (List Bytes) = record s { services = insert c.service g.name s.services } in
      let (same_services, given) =
        collect_all-given answer c.service g (or_empty c.total_excluding) s0 in
      let e =
        log_failure-state
          (collect_all (listing answer ∷ []) c.service g (or_empty c.total_excluding) s0) in
      rw (new, e)
        (
          subst HasUniqueKeys (sym same_services)
              (insert-HasUniqueKeys c.service g.name s.services u),
          given
              ∙ ap (λ x. x ++ (c.service ∷ [])) l
              ∙ sym (keys-snoc s.services c.service g.name)
              ∙ ap keys (sym (insert_new c.service g.name s.services new) ∙ sym same_services),
        )
]

group-IsOnce :
    (answer : Answer) (g : Group) (o : Option Classification) (s : State (List Bytes))
    → IsOnce s
    → IsOnce (collect_group (listing answer ∷ []) g o s).1
unfolding collect_group
group-IsOnce answer g none s h = h
group-IsOnce answer g (some c) s h = service-IsOnce answer g c s h

-- A walk that starts with no services gives no service to the collectors twice, whatever they answer,
-- and in the end the services that it has noted are those that it gave to them, in this order.
pub observe-IsOnce :
    (answer : Answer) (c : Classifier) (fs : FileSystem) (fuel : ℕ) (g : Group) (given : List Bytes)
    (races : RaceController)
    → Keeps IsOnce
        (observe c fs (listing answer ∷ []) fuel g (begin (listing answer ∷ []) given races))
unfolding begin
observe-IsOnce answer c fs fuel g given races =
    observe-Keeps IsOnce fs (listing answer ∷ []) (λ s races' h. h) (group-IsOnce answer) c fuel g _
      (tt, refl)
