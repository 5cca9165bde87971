-- ===== src/Kernel/Collector/Groups/Kept.antt =====
-- What the processor keeps of the entries that it received, and the steps that keep it.
use server_metrics.Base.{
  ◌≤◌, ◌<◌, ◌≡◌, ◌≢◌, ◌∙◌, ap, sym, refl, Bool, false, not, List, [], ◌∷◌, ◌++◌, append_assoc,
  append-nil, arith, All, All-append, length, length-append, is_empty, ltb_ℤ, sub_int64,
}
use server_metrics.Kernel.LogEntry.{LogEntry}
use server_metrics.Kernel.Matchers.{ErrorType, Matcher}
use server_metrics.Kernel.Classifier.{classify}
use server_metrics.Kernel.Collector.{
  Processor, Event, entry, fired, max_group_size, max_group_time, messages_of, is_late, group_time,
  process_group,
}

-- The entries among the events.
abbrev pub entries_of : List Event → List LogEntry
entries_of [] = []
entries_of (entry e ∷ es) = e ∷ entries_of es
entries_of (fired t ∷ es) = entries_of es

-- No entry is later than the first of the group by more than `max_group_time`.
abbrev pub IsShort : List LogEntry → Type 0
IsShort [] = Unit
IsShort (e ∷ es) = All (λ f. ltb_ℤ max_group_time (sub_int64 f.time e.time) ≡ false) es

-- A group that may be classified.
abbrev pub IsGroup : List LogEntry → Type 0
IsGroup g = (g ≢ []) × (length g ≤ max_group_size) × IsShort g

module _ (matchers : List Matcher) where
  -- What the groups count as, one after another.
  abbrev pub counted : List (List LogEntry) → List ErrorType
  counted [] = []
  counted (g ∷ gs) = classify matchers (messages_of g) ++ counted gs

  abbrev pub joined : List (List LogEntry) → List LogEntry
  joined [] = []
  joined (g ∷ gs) = g ++ joined gs

  -- After these entries, the groups that were classified and the group that is being collected are
  -- the entries in their order.
  pub record Keeps (received : List LogEntry) (s : Processor) : Type 0 where
    pub groups : List (List LogEntry)
    pub all_groups : All IsGroup groups
    pub in_order : joined groups ++ s.group ≡ received
    pub counts : s.errors ≡ counted groups
    pub has_size : length s.group ≤ max_group_size
    pub is_short : IsShort s.group

  -- Between two events the group is not full, and the timer runs exactly while there is a group.
  abbrev pub IsIdle : Processor → Type 0
  IsIdle s = (length s.group < max_group_size) × (s.timer ≡ not (is_empty s.group))

  joined-snoc :
      (gs : List (List LogEntry)) (g : List LogEntry) → joined (gs ++ (g ∷ [])) ≡ joined gs ++ g
  joined-snoc [] g = append-nil g
  joined-snoc (h ∷ gs) g = ap (λ t. h ++ t) (joined-snoc gs g) ∙ sym (append_assoc h (joined gs) g)

  counted-snoc :
      (gs : List (List LogEntry)) (g : List LogEntry)
      → counted (gs ++ (g ∷ [])) ≡ counted gs ++ classify matchers (messages_of g)
  counted-snoc [] g = append-nil _
  counted-snoc (h ∷ gs) g =
      ap (λ t. classify matchers (messages_of h) ++ t) (counted-snoc gs g)
      ∙ sym (append_assoc (classify matchers (messages_of h)) (counted gs) _)

  IsShort-snoc :
      (g : List LogEntry) (e : LogEntry)
      → IsShort g
      → is_late e (group_time g) ≡ false
      → IsShort (g ++ (e ∷ []))
  unfolding is_late group_time
  IsShort-snoc [] e h late = tt
  IsShort-snoc (f ∷ g) e h late = All-append _ g (e ∷ []) h (late, tt)

  abbrev pub state : List LogEntry → Bool → List ErrorType → Processor
  state g t errors = record { group = g; timer = t; errors = errors }

  pub process_group-empty :
      (g : List LogEntry) (t : Bool) (errors : List ErrorType)
      → (process_group matchers (state g t errors)).group ≡ []
  unfolding process_group
  process_group-empty [] t errors = refl
  process_group-empty (e ∷ g) t errors = refl

  process_group-timer :
      (g : List LogEntry) (t : Bool) (errors : List ErrorType)
      → (process_group matchers (state g t errors)).timer ≡ t
  unfolding process_group
  process_group-timer [] t errors = refl
  process_group-timer (e ∷ g) t errors = refl

  pub process_group-Keeps :
      (g : List LogEntry) (t : Bool) (errors : List ErrorType) {received : List LogEntry}
      → Keeps received (state g t errors)
      → Keeps received (process_group matchers (state g t errors))
  unfolding process_group
  process_group-Keeps [] t errors k = k
  process_group-Keeps (e ∷ g) t errors k = record {
    groups = k.groups ++ ((e ∷ g) ∷ []);
    all_groups =
        All-append IsGroup k.groups ((e ∷ g) ∷ []) k.all_groups
          (((λ h. cc), k.has_size, k.is_short), tt);
    in_order = append-nil _ ∙ joined-snoc k.groups (e ∷ g) ∙ k.in_order;
    counts =
        ap (λ t. t ++ classify matchers (messages_of (e ∷ g))) k.counts
        ∙ sym (counted-snoc k.groups (e ∷ g));
    has_size = omega arith;
    is_short = tt;
  }

  -- The timer is no part of what is kept.
  pub Keeps-timer :
      (s : Processor) (t : Bool) {received : List LogEntry}
      → Keeps received s
      → Keeps received (record s { timer = t })
  Keeps-timer s t k = record {
    groups = k.groups;
    all_groups = k.all_groups;
    in_order = k.in_order;
    counts = k.counts;
    has_size = k.has_size;
    is_short = k.is_short;
  }

  pub append-Keeps :
      (s : Processor) (e : LogEntry) {received : List LogEntry}
      → Keeps received s
      → length s.group < max_group_size
      → is_late e (group_time s.group) ≡ false
      → Keeps (received ++ (e ∷ [])) (record s { group = s.group ++ (e ∷ []) })
  append-Keeps s e k room late = record {
    groups = k.groups;
    all_groups = k.all_groups;
    in_order =
        sym (append_assoc (joined k.groups) s.group (e ∷ [])) ∙ ap (λ t. t ++ (e ∷ [])) k.in_order;
    counts = k.counts;
    has_size = omega (arith, length-append s.group (e ∷ []));
    is_short = IsShort-snoc s.group e k.is_short late;
  }
