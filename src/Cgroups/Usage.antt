-- ===== src/Cgroups/Usage.antt =====
-- internal/cgroups/usage.go: sums and differences of the counters of a group.
pub mod Net
use server_metrics.Base.{
  Bool, List, [], ◌∷◌, Bytes, if◌then◌else◌, ℤ, pos, ltb_ℤ, add_int64, sub_int64, Result, ok, err,
  ◌>>=◌,
}
use server_metrics.Error.{Error, negative_usage}

-- The interface `ToUsage`: the named values of a usage, and the writes through their pointers.
pub record ToUsage (U : Type 0) : Type 0 where
  pub names : List Bytes
  pub values : U → List ℤ
  pub write : List ℤ → U

-- `a[i] += b[i]`
unfoldable pub add_values : List ℤ → List ℤ → List ℤ
add_values (a ∷ as') (b ∷ bs) = add_int64 a b ∷ add_values as' bs
add_values as' _ = as'

-- The loop of `diffUsage`.
unfoldable pub diff_values : List Bytes → List ℤ → List ℤ → Result Error (List ℤ)
diff_values (name ∷ names) (current ∷ currents) (previous ∷ previouses) =
    let diff = sub_int64 current previous in
    if ltb_ℤ diff (pos 0)
    then err (negative_usage name)
    else diff_values names currents previouses >>= λ diffs. ok (diff ∷ diffs)
diff_values _ _ _ = ok []

-- `if rootDiff > childrenDiff { net += rootDiff - childrenDiff }`
unfoldable pub add_net : ℤ → ℤ → ℤ → ℤ
add_net net root_diff children_diff =
    if ltb_ℤ children_diff root_diff then add_int64 net (sub_int64 root_diff children_diff) else net

-- The last loop of `CalculateRootGroupUsage`.
unfoldable pub add_nets : List ℤ → List ℤ → List ℤ → List ℤ
add_nets (net ∷ nets) (r ∷ rs) (c ∷ cs) = add_net net r c ∷ add_nets nets rs cs
add_nets nets _ _ = nets

-- What `ToRootUsage` gives: the usage of the group, and of its children together.
pub record RootUsage (U : Type 0) : Type 0 where
  pub root : U
  pub children : U

module _ {U : Type 0} ⦃u : ToUsage U⦄ where
  -- `AddUsage`; the new total.
  unfoldable pub add_usage : U → U → U
  unfolding add_values
  add_usage total other = u.write (add_values (u.values total) (u.values other))

  -- `diffUsage`
  unfoldable pub diff_usage : U → U → Result Error (List ℤ)
  unfolding diff_values
  diff_usage current previous = diff_values u.names (u.values current) (u.values previous)

  -- `CalculateRootGroupUsage`; the new net usage. An error leaves the old one as it is.
  unfoldable pub calculate_root_group_usage : U → RootUsage U → RootUsage U → Result Error U
  unfolding diff_usage add_nets
  calculate_root_group_usage net current previous = do
    root_diffs ← diff_usage current.root previous.root
    children_diffs ← diff_usage current.children previous.children
    ok (u.write (add_nets (u.values net) root_diffs children_diffs))

  -- A usage of zeros, as Go initialises it.
  unfoldable pub zero_usage : U
  zero_usage = u.write []
