-- ===== src/Cgroups/Cpu/Rounds/Calls.antt =====
-- What the calls of `Collect` in a round do to the states of the groups.
use server_metrics.Base.{
  ◌≡◌, ◌∙◌, ap, sym, subst, refl, ◌⊎◌, inl, inr, Bool, true, false, ◌&&◌, ◌||◌, List, [], ◌∷◌,
  Option, none, some, Bytes, bytes_eq, same, if◌then◌else◌, Bool-cases, Option-cases, Result, ok,
  err, Read, found, missing, failed,
}
use server_metrics.Error.{Error}
use server_metrics.Map.{
  lookup, insert, contains, HasUniqueKeys, insert-HasUniqueKeys, lookup-insert, contains-insert,
}
use server_metrics.Cgroups.Races.{RaceController}
use server_metrics.Cgroups.Group.{FileSystem, Group}
use server_metrics.Cgroups.Roots.{is_net}
use server_metrics.Cgroups.Usage.{RootUsage, zero_usage, calculate_root_group_usage}
use server_metrics.Cgroups.Cpu.{
  Usage, cpu_usage, RootState, Roots, gather, advance, update_root, settle, collect,
  collected_state,
}

-- A call of `Collect`, with the files and the races of its time.
pub record Call : Type 0 where
  pub fs : FileSystem
  pub group : Group
  pub exclude : List Bytes
  pub races : RaceController

abbrev pub answer_of : Roots → Call → Read Error Usage
answer_of roots c = (collect c.fs roots c.group c.exclude c.races).0.0

abbrev pub roots_after : Roots → Call → Roots
roots_after roots c = (collect c.fs roots c.group c.exclude c.races).0.1

-- The calls of a round, one after another.
abbrev pub collect_each : Roots → List Call → Roots
collect_each roots [] = roots
collect_each roots (c ∷ calls) = collect_each (roots_after roots c) calls

abbrev pub is_found {ℓ} : {A : Type ℓ} → Read Error A → Bool
is_found (found a) = true
is_found missing = false
is_found (failed e) = false

-- The call collects the group net of its children, and gives a usage.
abbrev pub gives_net : Roots → Call → Bool
gives_net roots c = is_net c.group c.exclude && is_found (answer_of roots c)

-- One of the calls does so for this group.
abbrev pub was_collected : Bytes → Roots → List Call → Bool
was_collected name roots [] = false
was_collected name roots (c ∷ calls) =
    (same c.group.name name && gives_net roots c) || was_collected name (roots_after roots c) calls

-- A group's new state is marked as collected, or nothing has changed.
abbrev Settled : Roots → Bytes → Bool → Roots → Type 0
Settled roots name net roots' =
    ((net ≡ true) × ((s : RootState) × (s.collected ≡ true) × (roots' ≡ insert name s roots)))
    ⊎ ((net ≡ false) × (roots' ≡ roots))

advance-Settled :
    (roots : Roots) (name : Bytes) (current : RootUsage Usage) (r : Result Error Usage)
    → Settled roots name
        (is_found (advance roots name current r).0)
        (advance roots name current r).1
unfolding advance
advance-Settled roots name current (err e) = inr (refl, refl)
advance-Settled roots name current (ok net) = inl (refl, (_, refl, refl))

update_root-none :
    (roots : Roots) (name : Bytes) (current : RootUsage Usage)
    → lookup name roots ≡ none
    → update_root roots name current
      ≡ (found zero_usage, insert name (collected_state current zero_usage) roots)
unfolding update_root
update_root-none roots name current e = rw (e, update_root) refl

update_root-some :
    (roots : Roots) (name : Bytes) (current : RootUsage Usage) {state : RootState}
    → lookup name roots ≡ some state
    → update_root roots name current
      ≡ advance roots name current
          (calculate_root_group_usage state.net_usage current state.last_usage)
unfolding update_root
update_root-some roots name current e = rw (e, update_root) refl

-- An answer, and the roots behind it.
abbrev Settles : Roots → Bytes → Read Error Usage × Roots → Type 0
Settles roots name p = Settled roots name (is_found p.0) p.1

update_root-Settles :
    (roots : Roots) (name : Bytes) (current : RootUsage Usage)
    → Settles roots name (update_root roots name current)
update_root-Settles roots name current = elim (Option-cases (lookup name roots)) [
  | inl new ↦
      subst (Settles roots name) (sym (update_root-none roots name current new))
        (inl (refl, (_, refl, refl)))
  | inr (state, old) ↦ subst (Settles roots name) (sym (update_root-some roots name current old)) (
      advance-Settled roots name current
        (calculate_root_group_usage state.net_usage current state.last_usage))
]

and_false : (b : Bool) → (b && false) ≡ false
and_false true = refl
and_false false = refl

settle-Settled :
    (roots : Roots) (g : Group) (exclude : List Bytes) (r : Read Error (RootUsage Usage))
    → Settled roots g.name
        (is_net g exclude && is_found (settle roots g exclude r).0)
        (settle roots g exclude r).1
unfolding settle
settle-Settled roots g exclude (found current) = elim (Bool-cases (is_net g exclude)) [
  | inl net ↦ rw net (update_root-Settles roots g.name current)
  | inr own ↦ rw own (inr (refl, refl))
]
settle-Settled roots g exclude missing = inr (and_false (is_net g exclude), refl)
settle-Settled roots g exclude (failed e) = inr (and_false (is_net g exclude), refl)

collect-Settled :
    (roots : Roots) (c : Call)
    → Settled roots c.group.name (gives_net roots c) (roots_after roots c)
unfolding collect
collect-Settled roots c =
    settle-Settled roots c.group c.exclude (gather c.fs c.group c.exclude c.races).0

-- The state is there and marked as collected.
abbrev pub flagged : Option RootState → Bool
flagged none = false
flagged (some state) = state.collected

-- What a round keeps of the roots, whatever group is looked at.
abbrev pub Follows : Bytes → Bool → Roots → Roots → Type 0
Follows name net roots roots' =
    (flagged (lookup name roots') ≡ (net || flagged (lookup name roots)))
    × (contains name roots' ≡ (net || contains name roots))
    × (HasUniqueKeys roots → HasUniqueKeys roots')

and_or_true : (b d : Bool) → ((b && true) || d) ≡ (if b then true else d)
and_or_true true d = refl
and_or_true false d = refl

flagged_if :
    (b : Bool) (s : RootState) (o : Option RootState)
    → s.collected ≡ true
    → flagged (if b then some s else o) ≡ (if b then true else flagged o)
flagged_if true s o marked = marked
flagged_if false s o marked = refl

or_three : (a b d : Bool) → (b || (a || d)) ≡ ((a || b) || d)
or_three true true d = refl
or_three true false d = refl
or_three false b d = refl

Settled-Follows :
    (roots : Roots) (j name : Bytes) (net : Bool) (roots' : Roots)
    → Settled roots j net roots'
    → Follows name (same j name && net) roots roots'
Settled-Follows roots j name net roots' (inl (given, (s, marked, e))) = (
  ap (λ m. flagged (lookup name m)) e
      ∙ ap flagged (lookup-insert j name s roots)
      ∙ flagged_if (same j name) s (lookup name roots) marked
      ∙ sym (rw given (and_or_true (same j name) (flagged (lookup name roots)))),
  ap (contains name) e
      ∙ contains-insert j name s roots
      ∙ sym (rw given (and_or_true (same j name) (contains name roots))),
  λ u. rw e (insert-HasUniqueKeys j s roots u),
)
Settled-Follows roots j name net roots' (inr (no_net, e)) = (
  rw (e, no_net, and_false (same j name)) refl,
  rw (e, no_net, and_false (same j name)) refl,
  λ u. rw e u,
)

pub collect_each-Follows :
    (name : Bytes) (roots : Roots) (calls : List Call)
    → Follows name (was_collected name roots calls) roots (collect_each roots calls)
collect_each-Follows name roots [] = (refl, refl, λ u. u)
collect_each-Follows name roots (c ∷ calls) =
    let (f, k, u) =
      Settled-Follows roots c.group.name name (gives_net roots c) (roots_after roots c)
        (collect-Settled roots c) in
    let (f', k', u') = collect_each-Follows name (roots_after roots c) calls in
    (
      f'
          ∙ ap (λ d. was_collected name (roots_after roots c) calls || d) f
          ∙ or_three _ (was_collected name (roots_after roots c) calls) _,
      k'
          ∙ ap (λ d. was_collected name (roots_after roots c) calls || d) k
          ∙ or_three _ (was_collected name (roots_after roots c) calls) _,
      λ unique. u' (u unique),
    )
