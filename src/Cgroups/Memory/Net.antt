-- ===== src/Cgroups/Memory/Net.antt =====
-- The memory of a group net of its children.
use mathlib.Core.List.{foldl}
use server_metrics.Base.{
  ℕ, ◌+◌, ◌-◌, ◌∙◌, ap, ◌≡◌, true, List, [], ◌∷◌, Bytes, arith, pos, Fits, All, map, sub_int64,
  sub_int64-pos, found,
}
use server_metrics.Cgroups.Races.{RaceController}
use server_metrics.Cgroups.Group.{FileSystem, Group}
use server_metrics.Cgroups.Roots.{is_net, net_children}
use server_metrics.Cgroups.Roots.Sums.{ReadEach, run-eq-found, collect_children-eq-found}
use server_metrics.Cgroups.Memory.{
  Usage, at_least_zero, subtract_child, collect_usage, collect_root, collect,
}

-- Amounts of memory, none of them negative.
pub record Amounts : Type 0 where
  pub rss : ℕ
  pub swap : ℕ
  pub cache : ℕ
  pub kernel : ℕ

abbrev pub usage : Amounts → Usage
usage a = record { rss = pos a.rss; swap = pos a.swap; cache = pos a.cache; kernel = pos a.kernel }

abbrev pub AmountsFit : Amounts → Type 0
AmountsFit a = Fits a.rss × Fits a.swap × Fits a.cache × Fits a.kernel

abbrev pub sum_of : (Amounts → ℕ) → List Amounts → ℕ
sum_of f [] = 0
sum_of f (a ∷ as') = f a + sum_of f as'

-- What the children together leave of an amount, but not less than nothing.
abbrev pub left_of : Amounts → List Amounts → Amounts
left_of own children = record {
  rss = own.rss - sum_of (λ a. a.rss) children;
  swap = own.swap - sum_of (λ a. a.swap) children;
  cache = own.cache - sum_of (λ a. a.cache) children;
  kernel = own.kernel - sum_of (λ a. a.kernel) children;
}

abbrev less : Amounts → Amounts → Amounts
less a b = record {
  rss = a.rss - b.rss;
  swap = a.swap - b.swap;
  cache = a.cache - b.cache;
  kernel = a.kernel - b.kernel;
}

clamp_lem : (a b : ℕ) → Fits a → Fits b → at_least_zero (sub_int64 (pos a) (pos b)) ≡ pos (a - b)
clamp_lem a b fa fb = ground (arith, sub_int64-pos a b)

subtract_child-pos :
    (a b : Amounts)
    → AmountsFit a
    → AmountsFit b
    → subtract_child (usage a) (usage b) ≡ usage (less a b)
unfolding subtract_child
subtract_child-pos a b fa fb = λ i. record {
  rss = clamp_lem a.rss b.rss fa.0 fb.0 i;
  swap = clamp_lem a.swap b.swap fa.1 fb.1 i;
  cache = clamp_lem a.cache b.cache fa.2 fb.2 i;
  kernel = clamp_lem a.kernel b.kernel fa.3 fb.3 i;
}

left_of-less :
    (own c : Amounts) (children : List Amounts)
    → left_of (less own c) children ≡ left_of own (c ∷ children)
left_of-less own c children = ground arith

-- Taking the children away one after another, each time no further than to zero, leaves what their
-- sum leaves.
pub subtract_children-pos :
    (own : Amounts) (children : List Amounts)
    → AmountsFit own
    → All AmountsFit children
    → foldl subtract_child (usage own) (map usage children) ≡ usage (left_of own children)
subtract_children-pos own [] f h = ground arith
subtract_children-pos own (c ∷ children) f (fc, h) =
    ap (λ u. foldl subtract_child u (map usage children)) (subtract_child-pos own c f fc)
    ∙ subtract_children-pos (less own c) children (omega arith) h
    ∙ ap usage (left_of-less own c children)

-- If the collector finds a usage for a group that is net of its children, it read the group, then
-- listed the children, then read each of them, and the usage is what the children leave.
pub collect-net :
    (fs : FileSystem) (g : Group) (exclude : List Bytes) (c : RaceController) {total : Usage}
    {d : RaceController}
    → is_net g exclude ≡ true
    → collect fs g exclude c ≡ (found total, d)
    → (own : Usage) × (gs : List Group) × (us : List Usage) × (c₁ : RaceController)
      × (c₂ : RaceController) × (collect_usage fs g c ≡ (found own, c₁))
      × (net_children fs g exclude c₁ ≡ (found gs, c₂))
      × ReadEach (collect_usage fs) gs us c₂ d
      × (total ≡ foldl subtract_child own us)
unfolding collect collect_root
collect-net fs g exclude c net h =
    let (own, c₁, read, rest) = run-eq-found (collect_usage fs g) _ c h in
    let (gs, c₂, listed, loop) = run-eq-found (net_children fs g exclude) _ c₁ (rw net at rest) in
    let (us, each, total) =
      collect_children-eq-found (collect_usage fs) subtract_child g gs own c₂ loop in
    (own, gs, us, c₁, c₂, read, listed, each, total)
