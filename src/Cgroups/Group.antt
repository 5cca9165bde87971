-- ===== src/Cgroups/Group.antt =====
-- internal/cgroups/group.go: a control group, and reading its files, any of which may vanish.
use server_metrics.Base.{
  ℕ, ◌^◌, Bool, true, false, not, suc, List, [], ◌∷◌, ◌++◌, Option, none, some, Bytes, codes, ltb,
  ◌==◌, same, if◌then◌else◌, is_empty, ℤ, pos, Result, ok, err, Read, found, missing, failed,
}
use server_metrics.Error.{Error, system, missing_property, unexpected_line}
use server_metrics.Text.{parse_int}
use server_metrics.Util.{Reader, File, read_file, parse_file}
use server_metrics.Cgroups.Reads.{Reads, pure, fail, absent, check_race, ◌>>=◌}

pub record DirEntry : Type 0 where
  pub name : Bytes
  pub is_dir : Bool

-- What the operating system answers: a function of the path, so the files are held fixed while one
-- value is used. That is so through the whole walk of Cgroups.Observer too, in which the walk and each
-- of the collectors read the directory of the root group. Two collections may take different values.
pub record FileSystem : Type 0 where
  pub open_file : Bytes → Result Error File
  pub read_dir : Bytes → Result Error (List DirEntry)

abbrev pub enoent : ℕ
enoent = 2

abbrev pub enodev : ℕ
enodev = 19

abbrev pub eopnotsupp : ℕ
eopnotsupp = 95

-- The flag tells whether the group holds the race controller, which is the state of `Reads`.
pub record Group : Type 0 where
  pub name : Bytes
  pub has_races : Bool

abbrev pub root_path : Bytes
root_path = codes "/sys/fs/cgroup"

-- `path.Join` of a clean path and a name of a directory entry.
unfoldable pub join_path : Bytes → Bytes → Bytes
join_path dir name = if same dir (codes "/") then b'/' ∷ name else dir ++ (b'/' ∷ name)

-- `IsRoot`
abbrev pub is_root : Group → Bool
is_root g = same g.name (codes "/")

-- `Path`
unfoldable pub group_path : Group → Bytes
group_path g = if is_root g then root_path else root_path ++ g.name

-- `Child`
unfoldable pub child : Group → Bytes → Group
unfolding join_path
child g name = record { name = join_path g.name name; has_races = g.has_races }

-- `mapReadError`: `none` means that the file is not there, or no more.
unfoldable pub map_read_error : Error → Option Error
map_read_error (system n) =
    if n == enoent then none else if n == enodev then none else some (system n)
map_read_error e = some e

-- `IsExist`, where `stat` gives the error of `os.Stat`, if it has one.
unfoldable pub is_exist : (Bytes → Option Error) → Group → Result Error Bool
unfolding map_read_error group_path
is_exist stat g = elim (stat (group_path g)) [
  | none ↦ ok true
  | some e ↦ elim (map_read_error e) [ none ↦ ok false | some e' ↦ err e' ]
]

-- `ReadProperty`, when reading the file has failed.
read_failed {ℓ} : {A : Type ℓ} → Group → Bytes → Option Error → Reads A
read_failed g path (some e) = fail e
read_failed g path none = if g.has_races then check_race g.name (missing_property path) else absent

-- What is read of the file, or the failure's outcome.
property_outcome {ℓ} : {A : Type ℓ} → Group → Bytes → Result Error A → Reads A
unfolding read_failed map_read_error
property_outcome g path (ok a) = pure a
property_outcome g path (err e) = read_failed g path (map_read_error e)

-- `ReadProperty`
unfoldable pub read_property {ℓ} :
    {A : Type ℓ} → FileSystem → Group → Bytes → (Reader → Result Error A) → Reads A
unfolding property_outcome join_path group_path
read_property fs g name reader =
    let path = join_path (group_path g) name in
    property_outcome g path (read_file (fs.open_file path) reader)

parse_pid : List ℕ → Bytes → Option ℤ → Result Error (List ℕ)
parse_pid pids line (some (pos (suc n))) =
    if ltb (suc n) (2 ^ 31) then ok (pids ++ (suc n ∷ [])) else err (unexpected_line line)
parse_pid pids line _ = err (unexpected_line line)

-- A thread group (`cgroup.type` is threaded) does not support the file.
threaded : Read Error (List ℕ) → Read Error (List ℕ)
threaded (failed (system n)) = if n == eopnotsupp then found [] else failed (system n)
threaded r = r

-- `PIDs`
unfoldable pub pids : FileSystem → Group → Reads (List ℕ)
unfolding parse_pid threaded
pids fs g c =
    let reader = parse_file (λ ps line. parse_pid ps line (parse_int line)) [] in
    let (r, c') = read_property fs g (codes "cgroup.procs") reader c in (threaded r, c')

-- `HasProcesses`
unfoldable pub has_processes : FileSystem → Group → Reads Bool
has_processes fs g = do ps ← pids fs g; pure (not (is_empty ps))

-- The loop of `Children` over the entries of a directory.
unfoldable pub child_groups : Group → List DirEntry → List Group
child_groups g [] = []
child_groups g (file ∷ files) =
    let rest = child_groups g files in if file.is_dir then child g file.name ∷ rest else rest

-- `list` and `Children`
unfoldable pub children : FileSystem → Group → Reads (List Group)
unfolding child_groups map_read_error
children fs g c = elim (fs.read_dir (group_path g)) [
  | ok files ↦ (found (child_groups g files), c)
  | err e ↦ elim (map_read_error e) [ none ↦ (missing, c) | some e' ↦ (failed e', c) ]
]
