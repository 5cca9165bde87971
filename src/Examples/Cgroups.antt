-- ===== src/Examples/Cgroups.antt =====
-- The theorems on control groups at concrete inputs.
use server_metrics.Base.{
  ◌≤◌, ◌<◌, ◌≡◌, ◌↔◌, refl, false, true, List, [], ◌∷◌, none, Bytes, codes, arith, pos, negsuc,
  length, Result, ok, found, if◌then◌else◌, bytes_eq, map, same, add_int64, sub_int64,
}
use mathlib.Core.List.{foldl}
use server_metrics.Error.{Error, missing_property}
use server_metrics.Util.{Reader, File, scan_lines, read_file, parse_file}
use server_metrics.Text.{split, trim_space, parse_int}
use server_metrics.Map.{lookup, insert, HasUniqueKeys, contains}
use server_metrics.Util.Lines.{payload}
use server_metrics.Cgroups.Races.{RaceController, new_race_controller, note_race, races_of, check}
use server_metrics.Cgroups.Races.Streak.{run_history, streak, run_history-streak}
use server_metrics.Cgroups.Races.Verdict.{underway, check_verdict}
use server_metrics.Cgroups.Group.{FileSystem, Group}
use server_metrics.Cgroups.Usage.{zero_usage, add_usage, calculate_root_group_usage}
use server_metrics.Cgroups.Cpu.{cpu_usage, RootState, Roots, pre, post}
use server_metrics.Cgroups.Cpu
use server_metrics.Cgroups.Cpu.Rounds.Calls.{Call, collect_each}
use server_metrics.Cgroups.Cpu.Rounds.Whole.{round-post}
use server_metrics.Cgroups.Cpu.Counter.{
  Sample, Holds, update_all, total_user, total_system, update_all-total,
}
use server_metrics.Cgroups.Stat.Flat.{Stat, parse_stat}
use server_metrics.Cgroups.Stat.Flat.Sound.{StateAll, parse_stat_iff}
use server_metrics.Cgroups.Memory.Net.{Amounts, usage, left_of, subtract_children-pos, collect-net}
use server_metrics.Cgroups.Memory.{Usage, subtract_child, collect_usage, collect}
use server_metrics.Cgroups.Roots.{net_children, collect_child, collect_children}
use server_metrics.Cgroups.Roots.Sums.{ReadEach}
use server_metrics.Cgroups.Group.{read_property, children, child}
use server_metrics.Cgroups.Stat.Flat.{read_stat}

abbrev races : RaceController
races = new_race_controller 3 10

abbrev session : Bytes
session = codes "/session"

-- The latest collection stands first.
abbrev history : List (List Bytes)
history = (session ∷ []) ∷ (session ∷ codes "/other" ∷ []) ∷ [] ∷ []

run_history-streak_example :
    races_of session (run_history races history).active ≡ streak session history
unfolding new_race_controller
run_history-streak_example = run_history-streak races refl history session

check_verdict_example :
    ((check (underway races history []) session (missing_property session)).0 ≡ none) ↔ (
      (length (note_race (underway races history []) session).active ≤ 10)
      × (streak session history < 3))
unfolding new_race_controller
check_verdict_example = check_verdict races refl history [] session (missing_property session)

abbrev first : Sample
first = record { user = 100; system = 50; children_user = 40; children_system = 10 }

abbrev second : Sample
second = record { user = 130; system = 60; children_user = 50; children_system = 15 }

update_all-total_example :
    Holds
      (update_all [] (codes "/") (first ∷ second ∷ []))
      (codes "/")
      second
      (total_user first (second ∷ []))
      (total_system first (second ∷ []))
unfolding lookup
update_all-total_example =
    update_all-total [] (codes "/") first (second ∷ []) refl (ground arith) (refl, tt)

abbrev stat_file : Reader
stat_file = record { content = codes "anon 5\nfile -7\n"; failure = none }

abbrev stat_of : Stat
stat_of = (codes "anon", pos 5) ∷ (codes "file", negsuc 6) ∷ []

parse_stat_iff_example :
    (parse_stat stat_file ≡ ok stat_of)
    ↔ (StateAll (payload stat_file) stat_of × HasUniqueKeys stat_of)
unfolding scan_lines split
parse_stat_iff_example = parse_stat_iff stat_file refl (ground arith) stat_of

abbrev own_amounts : Amounts
own_amounts = record { rss = 10; swap = 0; cache = 7; kernel = 1 }

abbrev child_amounts : Amounts
child_amounts = record { rss = 4; swap = 3; cache = 7; kernel = 0 }

subtract_children-pos_example :
    foldl subtract_child (usage own_amounts) (map usage (child_amounts ∷ []))
    ≡ usage (left_of own_amounts (child_amounts ∷ []))
subtract_children-pos_example =
    subtract_children-pos own_amounts (child_amounts ∷ []) (ground arith) (ground arith)

-- Every group has the same statistics, and the root group has one child.
abbrev memory_stat : Bytes
memory_stat =
    codes
      "anon 9\nfile 8\nkernel_stack 1\npagetables 1\npercpu 1\nslab_unreclaimable 1\nsock 1\nswapcached 0\n"

open_file : Bytes → Result Error File
open_file path = ok (record {
  reader = record {
    content =
        if same path (codes "/sys/fs/cgroup/a/memory.swap.current")
        then codes "0\n"
        else memory_stat;
    failure = none;
  };
  close_failure = none;
})

abbrev file_system : FileSystem
file_system = record {
  open_file = open_file;
  read_dir = λ path. ok (record { name = codes "a"; is_dir = true } ∷ []);
}

abbrev root : Group
root = record { name = codes "/"; has_races = true }

abbrev nothing : Usage
nothing = record { rss = pos 0; swap = pos 0; cache = pos 0; kernel = pos 0 }

collect-net_example :
    (own : Usage) × (gs : List Group) × (us : List Usage) × (c₁ : RaceController)
    × (c₂ : RaceController) × (collect_usage file_system root races ≡ (found own, c₁))
    × (net_children file_system root [] c₁ ≡ (found gs, c₂))
    × ReadEach (collect_usage file_system) gs us c₂ races
    × (nothing ≡ foldl subtract_child own us)
unfolding open_file read_file parse_file sub_int64 add_int64 collect collect_usage read_stat
    parse_stat read_property children child net_children collect_children collect_child
    subtract_child lookup split trim_space parse_int contains insert
collect-net_example = collect-net file_system root [] races refl refl

abbrev lost : RootState
lost = record {
  last_usage = record { root = zero_usage; children = zero_usage };
  net_usage = zero_usage;
  collected = false;
}

abbrev cpu_files : FileSystem
cpu_files = record {
  open_file = λ path. ok (record {
    reader = record { content = codes "user_usec 5\nsystem_usec 3\n"; failure = none };
    close_failure = none;
  });
  read_dir = λ path. ok [];
}

abbrev cpu_roots : Roots
cpu_roots = (session, lost) ∷ (codes "/", lost) ∷ (codes "/other", lost) ∷ []

-- The session is collected without one of its groups, and the other two are not collected.
abbrev cpu_round : List Call
cpu_round =
    record {
      fs = cpu_files;
      group = record { name = session; has_races = true };
      exclude = codes "a" ∷ [];
      races = races;
    }
    ∷ []

round-post_example :
    (contains session (post (collect_each (pre cpu_roots) cpu_round)) ≡ true)
    × (lookup session (post (collect_each (pre cpu_roots) cpu_round))
        ≡ lookup session (collect_each (pre cpu_roots) cpu_round))
unfolding Cpu.collect Cpu.gather Cpu.update_root pre Cpu.collect_usage Cpu.usage_of contains lookup
    insert net_children collect_children collect_child read_stat read_property read_file parse_file
    parse_stat split trim_space parse_int calculate_root_group_usage child add_int64 sub_int64
    add_usage zero_usage
round-post_example = round-post session cpu_roots cpu_round (refl, (refl, (refl, tt)))
