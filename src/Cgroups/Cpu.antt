-- ===== src/Cgroups/Cpu.antt =====
-- internal/cgroups/cpu/collector.go: the CPU time of a group.
pub mod Counter
pub mod Rounds
use server_metrics.Base.{
  Bool, true, false, List, [], ◌∷◌, Option, none, some, Bytes, codes, bytes_eq, same, if◌then◌else◌,
  ℤ, pos, Result, ok, err, Read, found, missing, failed,
}
use server_metrics.Error.{Error}
use server_metrics.Map.{Map, lookup, insert}
use server_metrics.Cgroups.Races.{RaceController}
use server_metrics.Cgroups.Reads.{Reads, pure, lift, ◌>>=◌}
use server_metrics.Cgroups.Group.{FileSystem, Group}
use server_metrics.Cgroups.Roots.{is_net, net_children, collect_children}
use server_metrics.Cgroups.Stat.Flat.{Stat, get, read_stat}
use server_metrics.Cgroups.Usage.{
  ToUsage, RootUsage, add_usage, calculate_root_group_usage, zero_usage,
}

pub record Usage : Type 0 where
  pub user : ℤ
  pub system : ℤ

abbrev pub write_usage : List ℤ → Usage
write_usage (user ∷ system ∷ _) = record { user = user; system = system }
write_usage (user ∷ []) = record { user = user; system = pos 0 }
write_usage [] = record { user = pos 0; system = pos 0 }

-- `ToUsage`
instance abbrev pub cpu_usage : ToUsage Usage
cpu_usage = record {
  names = codes "user CPU usage" ∷ codes "system CPU usage" ∷ [];
  values = λ u. u.user ∷ u.system ∷ [];
  write = write_usage;
}

pub record RootState : Type 0 where
  pub last_usage : RootUsage Usage
  pub net_usage : Usage
  pub collected : Bool

-- The field `roots` of the collector.
abbrev pub Roots : Type 0
Roots = Map Bytes RootState

-- `Pre`
unfoldable pub pre : Roots → Roots
pre [] = []
pre ((name, state) ∷ roots) = (name, record state { collected = false }) ∷ pre roots

-- `Post`: the state of a group that was not collected is dropped, but that of the root group stays.
unfoldable pub post : Roots → Roots
post [] = []
post ((name, state) ∷ roots) =
    let rest = post roots in
    if state.collected
    then (name, state) ∷ rest
    else if same name (codes "/")
    then (name, state) ∷ rest
    else rest

unfoldable pub usage_of : Stat → Result Error Usage
unfolding get
usage_of stat = elim (get stat (codes "user_usec")) [
  | err e ↦ err e
  | ok user ↦ elim (get stat (codes "system_usec")) [
    | err e ↦ err e
    | ok system ↦ ok (record { user = user; system = system })
  ]
]

-- `collect`
unfoldable pub collect_usage : FileSystem → Group → Reads Usage
unfolding usage_of
collect_usage fs g = do stat ← read_stat fs g (codes "cpu.stat"); lift (usage_of stat)

abbrev pub add_child : RootUsage Usage → Usage → RootUsage Usage
add_child current u = record current { children = add_usage current.children u }

-- What `Collect` and the loop of `collectRoot` read of a group with children.
gather_net : FileSystem → Group → List Bytes → Reads (RootUsage Usage)
gather_net fs g exclude = do
  cs ← net_children fs g exclude
  u ← collect_usage fs g
  collect_children (collect_usage fs) add_child g cs (record { root = u; children = zero_usage })

gather_own : FileSystem → Group → Reads (RootUsage Usage)
gather_own fs g = do u ← collect_usage fs g; pure (record { root = u; children = zero_usage })

-- What `Collect` reads before it changes `roots`.
unfoldable pub gather : FileSystem → Group → List Bytes → Reads (RootUsage Usage)
unfolding gather_net gather_own
gather fs g exclude = if is_net g exclude then gather_net fs g exclude else gather_own fs g

-- The state that a group has after a collection that gave it this net usage.
abbrev pub collected_state : RootUsage Usage → Usage → RootState
collected_state current net = record { last_usage = current; net_usage = net; collected = true }

advance : Roots → Bytes → RootUsage Usage → Result Error Usage → Read Error Usage × Roots
advance roots name current (err e) = (failed e, roots)
advance roots name current (ok net) = (found net, insert name (collected_state current net) roots)

-- `collectRoot` behind its loop.
unfoldable pub update_root : Roots → Bytes → RootUsage Usage → Read Error Usage × Roots
unfolding advance
update_root roots name current = elim (lookup name roots) [
  | none ↦ (found zero_usage, insert name (collected_state current zero_usage) roots)
  | some state ↦
      advance roots name current
        (calculate_root_group_usage state.net_usage current state.last_usage)
]

settle : Roots → Group → List Bytes → Read Error (RootUsage Usage) → Read Error Usage × Roots
settle roots g exclude (found current) =
    if is_net g exclude then update_root roots g.name current else (found current.root, roots)
settle roots g exclude missing = (missing, roots)
settle roots g exclude (failed e) = (failed e, roots)

-- `Collect`: a usage that is found is what it hands to `record`.
unfoldable pub collect :
    FileSystem
    → Roots
    → Group
    → List Bytes
    → RaceController
    → (Read Error Usage × Roots) × RaceController
unfolding settle
collect fs roots g exclude races =
    let (r, races') = gather fs g exclude races in (settle roots g exclude r, races')
