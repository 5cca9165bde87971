-- ===== src/Cgroups/Roots.antt =====
-- What the collectors of CPU, memory and input/output share: a group that is recorded net of its
-- children.
pub mod Sums
use server_metrics.Base.{
  Bool, true, false, not, ◌||◌, List, [], ◌∷◌, Option, none, some, Bytes, map, if◌then◌else◌,
  is_empty,
}
use server_metrics.Error.{Error, deleted_group, missing_property}
use server_metrics.Base.{Read, found, missing, failed}
use server_metrics.Cgroups.Reads.{Reads, pure, fail, check_race, ◌>>=◌}
use server_metrics.Cgroups.Group.{FileSystem, Group, is_root, group_path, child, children}

-- `IsRoot() || len(exclude) != 0`
abbrev pub is_net : Group → List Bytes → Bool
is_net g exclude = is_root g || not (is_empty exclude)

-- The children that the usage of the group is net of.
unfoldable pub net_children : FileSystem → Group → List Bytes → Reads (List Group)
net_children fs g exclude = if is_root g then children fs g else pure (map (child g) exclude)

-- A child that is gone: an error for the root group, and maybe a race for another.
unfoldable pub child_is_gone {ℓ} : {A : Type ℓ} → Group → Group → Reads A
child_is_gone g lost =
    if is_root g
    then fail (deleted_group (group_path lost))
    else check_race g.name (missing_property (group_path lost))

unfoldable pub child_usage {ℓ} : {U : Type ℓ} → Group → Group → Read Error U → Reads U
unfolding child_is_gone
child_usage g c (found u) = pure u
child_usage g c missing = child_is_gone g c
child_usage g c (failed e) = fail e

module _ {ℓ κ} {U : Type ℓ} {A : Type κ} (collect : Group → Reads U) (add : A → U → A)
    (g : Group) where
  unfoldable pub collect_child : Group → Reads U
  unfolding child_usage
  collect_child c races = let (r, races') = collect c races in child_usage g c r races'

  -- The loop of `collectRoot` over the children; `add` takes in the usage of one.
  unfoldable pub collect_children : List Group → A → Reads A
  unfolding collect_child
  collect_children [] acc = pure acc
  collect_children (c ∷ cs) acc = collect_child c >>= λ u. collect_children cs (add acc u)
