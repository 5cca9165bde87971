-- ===== src/Cgroups/Io.antt =====
-- internal/cgroups/io/collector.go: the input and output of a group, by device.
pub mod Resolver
pub mod Device
pub mod Taken
pub mod Nets
pub mod Again
use mathlib.Core.Option
use server_metrics.Base.{
  ℕ, Bool, true, false, List, [], ◌∷◌, ◌++◌, Option, none, some, Bytes, codes, bytes_eq, same,
  if◌then◌else◌, map, ℤ, pos, Result, ok, err, Read, found, missing, failed,
}
use server_metrics.Error.{Error, deleted_between, device_error}
use server_metrics.Map.{Map, lookup, insert, contains}
use server_metrics.Cgroups.Races.{RaceController}
use server_metrics.Cgroups.Reads.{Reads, pure, lift, ◌>>=◌}
use server_metrics.Cgroups.Group.{FileSystem, Group, is_root}
use server_metrics.Cgroups.Roots.{is_net, net_children, collect_children}
use server_metrics.Cgroups.Stat.Flat.{Stat}
use server_metrics.Cgroups.Stat.Named.{read_named_stat}
use server_metrics.Cgroups.Usage.{RootUsage, add_usage, calculate_root_group_usage, zero_usage}
use server_metrics.Cgroups.Io.Device.{DeviceUsage, device_usage, Usage, take_devices}
use server_metrics.Cgroups.Io.Resolver.{Links, Devices, get_device_name}

abbrev pub RootUsages : Type 0
RootUsages = Map Bytes (RootUsage DeviceUsage)

-- `collect`
unfoldable pub collect_usage : FileSystem → Group → Reads Usage
unfolding take_devices
collect_usage fs g =
    read_named_stat fs g (codes "io.stat") >>= λ stats. lift (take_devices [] stats)

abbrev pub zero_root : RootUsage DeviceUsage
zero_root = record { root = zero_usage; children = zero_usage }

-- The entry of a device, or the zero value of its type.
abbrev pub root_of : Bytes → RootUsages → RootUsage DeviceUsage
root_of device usages = Option.get_or (lookup device usages) zero_root

abbrev pub net_of : Bytes → Usage → DeviceUsage
net_of device usage = Option.get_or (lookup device usage) zero_usage

-- The usage of a child is added, device by device.
unfoldable pub add_child : RootUsages → Usage → RootUsages
unfolding lookup insert zero_usage add_usage
add_child current [] = current
add_child current ((device, u) ∷ usage) =
    let total = root_of device current in
    add_child (insert device (record total { children = add_usage total.children u }) current) usage

root_usages : Usage → RootUsages
unfolding zero_usage
root_usages usage = map (λ e. (e.0, record { root = e.1; children = zero_usage })) usage

pub record RootState : Type 0 where
  pub last_children : Map Bytes (Unit {0})
  pub last_usage : RootUsages
  pub net_usage : Usage
  pub collected : Bool

-- The field `roots` of the collector.
abbrev pub Roots : Type 0
Roots = Map Bytes RootState

-- `Pre`, for the roots.
unfoldable pub pre : Roots → Roots
pre [] = []
pre ((name, state) ∷ roots) = (name, record state { collected = false }) ∷ pre roots

-- `Post`: the state of a group that was not collected is dropped, but that of the root group stays.
unfoldable pub post : Roots → Roots
post [] = []
post ((name, state) ∷ roots) =
    let rest = post roots in
    if state.collected
    then (name, state) ∷ rest
    else if same name (codes "/")
    then (name, state) ∷ rest
    else rest

-- What `Collect` reads of a group before it changes `roots`.
pub record Gathered : Type 0 where
  pub usage : Usage
  pub current : RootUsages
  pub children : List Group

gather_net : FileSystem → Group → List Bytes → Reads Gathered
unfolding root_usages
gather_net fs g exclude = net_children fs g exclude >>= λ cs. collect_usage fs g >>= λ u.
    collect_children (collect_usage fs) add_child g cs (root_usages u) >>= λ current.
    pure (record { usage = u; current = current; children = cs })

gather_own : FileSystem → Group → Reads Gathered
gather_own fs g =
    collect_usage fs g >>= λ u. pure (record { usage = u; current = []; children = [] })

unfoldable pub gather : FileSystem → Group → List Bytes → Reads Gathered
unfolding gather_net gather_own
gather fs g exclude = if is_net g exclude then gather_net fs g exclude else gather_own fs g

-- The names of the children of the root group; another group has none.
unfoldable pub child_names : Bool → List Group → Map Bytes (Unit {0})
unfolding insert
child_names false cs = []
child_names true [] = []
child_names true (c ∷ cs) = insert c.name tt (child_names true cs)

-- The first child that is gone since the last collection.
unfoldable pub first_gone : Map Bytes (Unit {0}) → Map Bytes (Unit {0}) → Option Bytes
unfolding contains
first_gone current [] = none
first_gone current ((name, _) ∷ last) =
    let rest = first_gone current last in if contains name current then rest else some name

-- The end of the loop at a device that has an error, or the loop over the rest.
unfoldable pub after_device :
    (Usage → Option Error × Usage) → Bytes → Usage → Result Error DeviceUsage → Option Error × Usage
unfolding insert lookup zero_usage
after_device rest device net (err e) =
    (some (device_error device e), insert device (net_of device net) net)
after_device rest device net (ok u) = rest (insert device u net)

-- The loop over the devices: the error that ends it, and the net usage that it leaves.
unfoldable pub update_nets : RootUsages → RootUsages → Usage → Option Error × Usage
unfolding after_device calculate_root_group_usage
update_nets last [] net = (none, net)
update_nets last ((device, current) ∷ rest) net =
    after_device (update_nets last rest) device net
      (calculate_root_group_usage (net_of device net) current (root_of device last))

-- The children are compared before the usages are.
unfoldable pub next_nets : Option Bytes → RootState → RootUsages → Option Error × Usage
unfolding update_nets
next_nets (some name) state current = (some (deleted_between name), state.net_usage)
next_nets none state current = update_nets state.last_usage current state.net_usage

answer : Option Error × Usage → Read Error Usage
answer (some e, net) = failed e
answer (none, net) = found net

-- The state behind a collection.
abbrev pub collected_state : Map Bytes (Unit {0}) → RootUsages → Usage → RootState
collected_state names current net = record {
  last_children = names;
  last_usage = current;
  net_usage = net;
  collected = true;
}

-- A first collection has no usage to tell yet.
update_state :
    Roots → Bytes → Map Bytes (Unit {0}) → RootUsages → Option RootState → Read Error Usage × Roots
unfolding next_nets first_gone answer insert
update_state roots name names current none =
    (found [], insert name (collected_state names current []) roots)
update_state roots name names current (some state) =
    let (e, net) = next_nets (first_gone names state.last_children) state current in
    (answer (e, net), insert name (collected_state names current net) roots)

-- `collectRoot` behind its loop.
unfoldable pub update_root : Roots → Group → Gathered → Read Error Usage × Roots
unfolding update_state child_names lookup
update_root roots g gathered =
    update_state roots g.name (child_names (is_root g) gathered.children) gathered.current
      (lookup g.name roots)

settle : Roots → Group → List Bytes → Read Error Gathered → Read Error Usage × Roots
unfolding update_root
settle roots g exclude (found gathered) =
    if is_net g exclude then update_root roots g gathered else (found gathered.usage, roots)
settle roots g exclude missing = (missing, roots)
settle roots g exclude (failed e) = (failed e, roots)

-- `Collect`: a usage that is found is what it hands to `record`.
unfoldable pub collect :
    FileSystem
    → Roots
    → Group
    → List Bytes
    → RaceController
    → (Read Error Usage × Roots) × RaceController
unfolding gather settle
collect fs roots g exclude races =
    let (r, races') = gather fs g exclude races in (settle roots g exclude r, races')

-- The metrics of one device.
pub record Metrics : Type 0 where
  pub service : Bytes
  pub device : Bytes
  pub usage : DeviceUsage

-- `record`, with the names of the devices that are known afterwards.
unfoldable pub record_usage : Links → Devices → Bytes → Usage → List Metrics × Devices
unfolding get_device_name
record_usage links devices service [] = ([], devices)
record_usage links devices service ((device, u) ∷ usage) =
    let (name, known) = get_device_name devices links device in
    let (metrics, known') = record_usage links known service usage in
    (record { service = service; device = name; usage = u } ∷ metrics, known')
