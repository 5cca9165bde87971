-- ===== src/Meminfo/Counters.antt =====
-- The counters are those that the lines of the file state, each of them once.
use server_metrics.Base.{
  ◌≡◌, ◌↔◌, ◌<◌, refl, sym, subst, ◌∙◌, ap, false, List, [], ◌∷◌, ◌++◌, append_assoc, append-nil,
  Option, none, some, Bytes, bytes_eq, Bool-cases, inl, inr, length, All, ℤ, pos, mul_int64, codes,
  same, same_iff, Option-cases, ◌⊎◌, ok, bind-eq-ok,
}
use server_metrics.Map.New.{AreNew, AreNew-snoc, AreNew-unsnoc, AreNew-nil}
use server_metrics.Map.{insert, contains, HasUniqueKeys, insert_new}
use server_metrics.Text.{split_two, trim_space, fields, parse_int}
use server_metrics.Util.{Reader, max_line, scan_lines}
use server_metrics.Util.Lines.{payload, fold_lines, parse_file-fold}
use server_metrics.Meminfo.{
  Meminfo, parse_value, add_counter, add_parts, parse_meminfo_line, parse_meminfo,
}

-- The tokens are an int64, or one with the unit kB, of which the value is the product by 1024 in int64.
abbrev pub StatesValue : List Bytes → ℤ → Type 0
StatesValue tokens value =
    (number : Bytes) × (((tokens ≡ number ∷ []) × (parse_int number ≡ some value))
      ⊎ ((n : ℤ) × (tokens ≡ number ∷ codes "kB" ∷ [])
          × (parse_int number ≡ some n)
          × (value ≡ mul_int64 n (pos 1024))))

parse_value_complete :
    (tokens : List Bytes) {value : ℤ} → StatesValue tokens value → parse_value tokens ≡ some value
unfolding parse_value
parse_value_complete tokens (number, inl (e, parsed)) = rw (e, parse_value) parsed
parse_value_complete tokens (number, inr (n, e, parsed, times)) =
    rw (e, parse_value) (rw (parsed, times) refl)

parse_value_sound :
    (tokens : List Bytes) {value : ℤ} → parse_value tokens ≡ some value → StatesValue tokens value
unfolding parse_value
parse_value_sound [] h = absurd (cc h)
parse_value_sound (number ∷ []) h = (number, inl (refl, h))
parse_value_sound (number ∷ unit ∷ []) {value} h = elim (Bool-cases (same unit (codes "kB"))) [
  | inr other ↦ absurd (cc (rw other at h))
  | inl kb ↦ elim (Option-cases (parse_int number)) [
    | inl nothing ↦ absurd (cc (rw (kb, nothing) at h))
    | inr (n, parsed) ↦ (
      number,
      inr (
        n,
        ap (λ u. number ∷ u ∷ []) ((same_iff unit (codes "kB")).0 kb),
        parsed,
        cc (rw (kb, parsed) at h),
      ),
    )
  ]
]
parse_value_sound (a ∷ b ∷ c ∷ d) h = absurd (cc h)

-- The line is `name: value`.
abbrev pub StatesCounter : Bytes → Bytes → ℤ → Type 0
StatesCounter line name value =
    (left : Bytes) × (right : Bytes) × (split_two line b':' ≡ left ∷ right ∷ [])
    × (trim_space left ≡ name)
    × StatesValue (fields right) value

-- The lines state these counters, in their order.
abbrev pub StateCounters : List Bytes → Meminfo → Type 0
StateCounters [] [] = Unit
StateCounters (line ∷ lines) ((name, value) ∷ more) =
    StatesCounter line name value × StateCounters lines more
StateCounters _ _ = ⊥

add_counter-ok :
    (m : Meminfo) (line name : Bytes) (value : ℤ) {o : Option ℤ}
    → o ≡ some value
    → contains name m ≡ false
    → add_counter m line name o ≡ ok (m ++ ((name, value) ∷ []))
unfolding add_counter
add_counter-ok m line name value parsed new =
    rw (parsed, add_counter) (rw (new, insert_new name value m new) refl)

add_counter-eq-ok :
    (m : Meminfo) (line name : Bytes) (o : Option ℤ) {t : Meminfo}
    → add_counter m line name o ≡ ok t
    → (value : ℤ) × (o ≡ some value) × (contains name m ≡ false) × (t ≡ insert name value m)
unfolding add_counter
add_counter-eq-ok m line name none h = absurd (cc h)
add_counter-eq-ok m line name (some value) h = elim (Bool-cases (contains name m)) [
  | inl old ↦ absurd (cc (rw old at h))
  | inr new ↦ (value, refl, new, cc (rw new at h))
]

add_parts-eq-ok :
    (m : Meminfo) (line : Bytes) (parts : List Bytes) {t : Meminfo}
    → add_parts m line parts ≡ ok t
    → (left : Bytes) × (right : Bytes) × (value : ℤ) × (parts ≡ left ∷ right ∷ [])
      × (parse_value (fields right) ≡ some value)
      × (contains (trim_space left) m ≡ false)
      × (t ≡ insert (trim_space left) value m)
unfolding add_parts
add_parts-eq-ok m line [] h = absurd (cc h)
add_parts-eq-ok m line (a ∷ []) h = absurd (cc h)
add_parts-eq-ok m line (left ∷ right ∷ []) h =
    let (value, parsed, new, e) =
      add_counter-eq-ok m line (trim_space left) (parse_value (fields right)) h in
    (left, right, value, refl, parsed, new, e)
add_parts-eq-ok m line (a ∷ b ∷ c ∷ d) h = absurd (cc h)

fold_counters :
    (m : Meminfo) (lines : List Bytes) (more : Meminfo)
    → StateCounters lines more
    → HasUniqueKeys more
    → AreNew m more
    → fold_lines parse_meminfo_line m lines ≡ ok (m ++ more)
unfolding fold_lines parse_meminfo_line add_parts
fold_counters m [] [] s u n = ap ok (sym (append-nil m))
fold_counters m (line ∷ lines) ((name, value) ∷ more) ((left, right, splits, named, parsed), s) u
      (new, n) =
    rw
      (
        splits,
        named,
        add_counter-ok m line name value (parse_value_complete (fields right) parsed) new,
      )
      (fold_counters (m ++ ((name, value) ∷ [])) lines more s u.1
          (AreNew-snoc m name value more u n)
        ∙ ap ok (append_assoc m ((name, value) ∷ []) more))
fold_counters m [] (e ∷ more) s u n = absurd s
fold_counters m (line ∷ lines) [] s u n = absurd s

fold_counters_sound :
    (m : Meminfo) (lines : List Bytes) {t : Meminfo}
    → fold_lines parse_meminfo_line m lines ≡ ok t
    → (more : Meminfo) × (t ≡ m ++ more)
      × StateCounters lines more
      × HasUniqueKeys more
      × AreNew m more
unfolding fold_lines parse_meminfo_line
fold_counters_sound m [] h = ([], cc (append-nil m), tt, tt, tt)
fold_counters_sound m (line ∷ lines) {t} h =
    let (u, first, later) = bind-eq-ok (parse_meminfo_line m line) _ h in
    let (left, right, value, splits, parsed, new, e) =
      add_parts-eq-ok m line (split_two line b':') first in
    let name : Bytes = trim_space left in
    let (more, whole, s, unique, fresh) = fold_counters_sound u lines later in
    let u_is : u ≡ m ++ ((name, value) ∷ []) = e ∙ insert_new name value m new in
    let (apart, once) = AreNew-unsnoc m name value more (subst (λ m. AreNew m more) u_is fresh) in
    (
      (name, value) ∷ more,
      whole ∙ ap (λ m. m ++ more) u_is ∙ append_assoc m ((name, value) ∷ []) more,
      ((left, right, splits, refl, parse_value_sound (fields right) parsed), s),
      (once, unique),
      (new, apart),
    )

-- A file that can be read, and whose lines are not too long, is parsed exactly if each of its lines
-- that is not blank states a counter, a name in front of the first colon and an int64 behind it, with
-- the unit kB or with none, and no two lines state the same name; the counters are then those that
-- the lines state, in their order, each of them the number itself where it has no unit, and its product
-- by 1024, wrapped around to an int64, where it has one.
pub parse_meminfo_iff :
    (r : Reader)
    → r.failure ≡ none
    → All (λ line. length line < max_line) (scan_lines r.content)
    → (m : Meminfo) → (parse_meminfo r ≡ ok m) ↔ (StateCounters (payload r) m × HasUniqueKeys m)
unfolding parse_meminfo
parse_meminfo_iff r ended short m =
    let folds = parse_file-fold parse_meminfo_line [] r ended short in
    (
      λ h.
          let (more, whole, s, unique, _) = fold_counters_sound [] (payload r) (sym folds ∙ h) in
          rw whole (s, unique),
      λ h. folds ∙ fold_counters [] (payload r) m h.0 h.1 (AreNew-nil m),
    )
