-- ===== src/Cgroups/Usage/Net.antt =====
-- The arithmetic of one counter, while nothing leaves the range of int64.
use server_metrics.Base.{
  ℕ, ◌+◌, ◌-◌, ◌≡◌, List, ◌∷◌, Bytes, arith, leb, if◌then◌else◌, ℤ, pos, Fits, add_int64-pos,
  sub_int64-pos, ok, err, ◌>>=◌,
}
use server_metrics.Error.{negative_usage}
use server_metrics.Cgroups.Usage.{diff_values, add_net}

-- A counter that did not fall has a difference, and one that fell makes an error.
pub diff_values-pos :
    (name : Bytes) (names : List Bytes) (a b : ℕ) (as' bs : List ℤ)
    → Fits a
    → Fits b
    → diff_values (name ∷ names) (pos a ∷ as') (pos b ∷ bs) ≡ (
        if leb b a
        then diff_values names as' bs >>= (λ ds. ok (pos (a - b) ∷ ds))
        else err (negative_usage name))
unfolding diff_values
diff_values-pos name names a b as' bs fa fb = ground (arith, sub_int64-pos a b)

-- The net usage grows by what the group used and its children did not, if that is positive.
pub add_net-pos :
    (net r c : ℕ)
    → Fits (net + r)
    → Fits c
    → add_net (pos net) (pos r) (pos c) ≡ pos (net + (r - c))
unfolding add_net
add_net-pos net r c f fc = ground (arith, sub_int64-pos r c, add_int64-pos net (r - c))
