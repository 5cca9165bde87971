-- ===== src/Examples/Walks.antt =====
-- The theorems on the walk over the groups, and on input and output, at concrete inputs.
use server_metrics.Base.{
  same, sub_int64, add_int64, ◌≡◌, refl, true, List, [], ◌∷◌, Option, none, some, Bytes, codes, pos,
  ok, err, found, if◌then◌else◌, bytes_eq,
}
use server_metrics.Error.{Error, system}
use server_metrics.Map.{Map, lookup, contains}
use server_metrics.Util.{read_file, parse_file}
use server_metrics.Cgroups.Races.{RaceController, new_race_controller}
use server_metrics.Cgroups.Group.{
  FileSystem, group_path, child_groups, child, children, has_processes, pids, read_property,
}
use server_metrics.Cgroups.Usage.{zero_usage, add_net}
use server_metrics.Cgroups.Stat.Flat.{Stat}
use server_metrics.Cgroups.Classifier.{Classifier, classify_slice}
use server_metrics.Cgroups.Classifier.Failures.{Fails}
use server_metrics.Cgroups.Classifier.Failures.Groups.{classify_slice-Fails}
use server_metrics.Cgroups.Observer.{State, observe, collect, begin, root}
use server_metrics.Cgroups.Observer.Walks.{Keeps}
use server_metrics.Cgroups.Observer.Once.{Answer, listing, IsOnce, observe-IsOnce}
use server_metrics.Cgroups.Observer.Depth.{fits, collect-ends}
use server_metrics.Cgroups.Observer.Top.{observe-kernel}
use server_metrics.Cgroups.Observer.Collectors.{Collectors, all_collectors}
use server_metrics.Cgroups.Observer.Collectors.Metrics.{AreSent, observe-AreSent}
use server_metrics.Cgroups.Io.Device.{DeviceUsage, device_usage, take_devices}
use server_metrics.Cgroups.Io.Taken.{taken, lookup-take_devices}
use server_metrics.Cgroups.Io.{RootUsages, Gathered, update_nets}
use server_metrics.Cgroups.Io.Nets.{next_net, lookup-update_nets}
use server_metrics.Cgroups.Io.Resolver.{Links}
use server_metrics.Regexp.{literal, repeated}

abbrev classifier : Classifier
classifier = record {
  users = λ uid. err (system 2);
  docker = λ id. err (system 2);
  podman = λ id. err (system 2);
}

classify_slice-Fails_example : Fails classifier (system 2)
unfolding classify_slice literal repeated
classify_slice-Fails_example =
    classify_slice-Fails classifier (codes "/machine.slice/libpod-a.scope") refl

-- The root group has one child, which is a service with a process.
abbrev file_system : FileSystem
file_system = record {
  open_file = λ path.
      ok (record {
        reader = record { content = codes "1\n"; failure = none };
        close_failure = none;
      });
  read_dir = λ path.
      if same path (codes "/sys/fs/cgroup")
      then ok (record { name = codes "init.scope"; is_dir = true } ∷ [])
      else ok [];
}

abbrev races : RaceController
races = new_race_controller 3 10

abbrev answer : Answer
answer service g exclude races = (found tt, races)

observe-IsOnce_example : Keeps IsOnce (
    observe classifier file_system
      (listing answer ∷ [])
      2
      root
      (begin (listing answer ∷ []) [] races))
observe-IsOnce_example = observe-IsOnce answer classifier file_system 2 root [] races

collect-ends_example :
    (result : Option Error × (List Bytes × RaceController)) × (collect classifier file_system
        (listing answer ∷ [])
        2
        []
        races
      ≡ some result)
unfolding fits literal repeated group_path child_groups child
collect-ends_example = collect-ends classifier file_system (listing answer ∷ []) 2 [] races refl

abbrev seen : State (List Bytes)
seen = record {
  services = (codes "init", codes "/init.scope") ∷ (codes "kernel", codes "/") ∷ [];
  collectors = codes "init" ∷ codes "kernel" ∷ [];
  races = races;
}

observe-kernel_example : contains (codes "kernel") seen.services ≡ true
unfolding observe literal repeated new_race_controller children group_path child has_processes pids
    read_property read_file parse_file
observe-kernel_example =
    observe-kernel classifier file_system (listing answer ∷ []) 2
      (record { services = []; collectors = []; races = races }) seen refl

abbrev nothing_sent : Collectors
nothing_sent = record {
  cpu_roots = [];
  io_roots = [];
  devices = [];
  cpu_sent = [];
  memory_sent = [];
  io_sent = [];
}

abbrev links : Links
links path = ok (codes "../sda")

observe-AreSent_example : Keeps AreSent (
    observe classifier file_system
      (all_collectors file_system links)
      2
      root
      (begin (all_collectors file_system links) nothing_sent races))
observe-AreSent_example =
    observe-AreSent classifier file_system file_system links 2 root nothing_sent races

abbrev disk_stat : Stat
disk_stat =
    (codes "rbytes", pos 10)
    ∷ (codes "wbytes", pos 20)
    ∷ (codes "rios", pos 1)
    ∷ (codes "wios", pos 2)
    ∷ []

-- A disk, and a loop device.
abbrev stats : Map Bytes Stat
stats = (codes "8:0", disk_stat) ∷ (codes "7:1", disk_stat) ∷ []

abbrev disk_usage : DeviceUsage
disk_usage = record { reads = pos 1; writes = pos 2; read = pos 10; written = pos 20 }

lookup-take_devices_example :
    lookup (codes "7:1") ((codes "8:0", disk_usage) ∷ [])
    ≡ taken (codes "7:1") (lookup (codes "7:1") stats) none
unfolding take_devices contains lookup
lookup-take_devices_example =
    lookup-take_devices [] stats (codes "7:1") {result = (codes "8:0", disk_usage) ∷ []}
      (refl, (refl, tt)) refl

abbrev disk_total : RootUsages
disk_total = (codes "8:0", record { root = disk_usage; children = zero_usage }) ∷ []

lookup-update_nets_example :
    lookup (codes "8:0") ((codes "8:0", disk_usage) ∷ [])
    ≡ next_net (codes "8:0") [] [] (lookup (codes "8:0") disk_total)
unfolding update_nets contains sub_int64 add_int64 add_net
lookup-update_nets_example =
    lookup-update_nets [] disk_total [] (codes "8:0") {net' = (codes "8:0", disk_usage) ∷ []}
      (refl, tt) refl

abbrev disk_later : DeviceUsage
disk_later = record { reads = pos 3; writes = pos 7; read = pos 15; written = pos 20 }

abbrev disk_growth : DeviceUsage
disk_growth = record { reads = pos 2; writes = pos 5; read = pos 5; written = pos 0 }

abbrev gathered : Gathered
gathered = record { usage = (codes "8:0", disk_usage) ∷ []; current = disk_total; children = [] }

-- The disk has gone on since.
abbrev gathered_later : Gathered
gathered_later = record {
  usage = (codes "8:0", disk_usage) ∷ [];
  current = (codes "8:0", record { root = disk_later; children = zero_usage }) ∷ [];
  children = [];
}
