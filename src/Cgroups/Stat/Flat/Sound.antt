-- ===== src/Cgroups/Stat/Flat/Sound.antt =====
-- The statistics are those that the lines of the file state, each of them once.
use server_metrics.Base.{
  ◌≡◌, ◌↔◌, ◌<◌, refl, sym, subst, ◌∙◌, ap, false, List, [], ◌∷◌, ◌++◌, append_assoc, append-nil,
  Option, none, some, Bytes, bytes_eq, Bool-cases, inl, inr, length, All, ℤ, ok, bind-eq-ok,
}
use server_metrics.Map.New.{AreNew, AreNew-snoc, AreNew-unsnoc, AreNew-nil}
use server_metrics.Map.{insert, contains, HasUniqueKeys, insert_new}
use server_metrics.Text.{split, parse_int}
use server_metrics.Util.{Reader, max_line, scan_lines}
use server_metrics.Util.Lines.{payload, fold_lines, parse_file-fold}
use server_metrics.Cgroups.Stat.Flat.{Stat, parse_stat_line, parse_stat, add_value, add_tokens}

-- The line is `name value`.
abbrev pub States : Bytes → Bytes → ℤ → Type 0
States line name value =
    (text : Bytes) × (split line b' ' ≡ name ∷ text ∷ []) × (parse_int text ≡ some value)

-- The lines state these entries, in their order.
abbrev pub StateAll : List Bytes → Stat → Type 0
StateAll [] [] = Unit
StateAll (line ∷ lines) ((name, value) ∷ stat) = States line name value × StateAll lines stat
StateAll _ _ = ⊥

add_value-eq-ok :
    (stat : Stat) (line name : Bytes) (parsed : Option ℤ) {t : Stat}
    → add_value stat line name parsed ≡ ok t
    → (value : ℤ) × (parsed ≡ some value) × (t ≡ insert name value stat)
unfolding add_value
add_value-eq-ok stat line name none h = cc
add_value-eq-ok stat line name (some value) h = (value, refl, cc)

add_tokens-eq-ok :
    (stat : Stat) (line : Bytes) (tokens : List Bytes) {t : Stat}
    → add_tokens stat line tokens ≡ ok t
    → (name : Bytes) × (value : ℤ) × (text : Bytes) × (tokens ≡ name ∷ text ∷ [])
      × (parse_int text ≡ some value)
      × (contains name stat ≡ false)
      × (t ≡ insert name value stat)
unfolding add_tokens
add_tokens-eq-ok stat line [] h = cc
add_tokens-eq-ok stat line (name ∷ []) h = cc
add_tokens-eq-ok stat line (name ∷ text ∷ []) h = elim (Bool-cases (contains name stat)) [
  | inl old ↦ cc (rw old at h)
  | inr new ↦
      let (value, parsed, e) = add_value-eq-ok stat line name (parse_int text) (rw new at h) in
      (name, value, text, refl, parsed, new, e)
]
add_tokens-eq-ok stat line (name ∷ text ∷ x ∷ xs) h = cc

add_tokens-ok :
    (stat : Stat) (line name text : Bytes) (value : ℤ)
    → parse_int text ≡ some value
    → contains name stat ≡ false
    → add_tokens stat line (name ∷ text ∷ []) ≡ ok (stat ++ ((name, value) ∷ []))
unfolding add_tokens add_value
add_tokens-ok stat line name text value parsed new =
    rw (new, parsed, insert_new name value stat new)

-- The fold over lines that state new entries appends them.
fold_complete :
    (stat : Stat) (lines : List Bytes) (more : Stat)
    → StateAll lines more
    → HasUniqueKeys more
    → AreNew stat more
    → fold_lines parse_stat_line stat lines ≡ ok (stat ++ more)
unfolding fold_lines parse_stat_line
fold_complete stat [] [] s u n = ap ok (sym (append-nil stat))
fold_complete stat (line ∷ lines) ((name, value) ∷ more) ((text, splits, parsed), s) u (new, n) =
    rw (splits, add_tokens-ok stat line name text value parsed new)
      (fold_complete (stat ++ ((name, value) ∷ [])) lines more s u.1
          (AreNew-snoc stat name value more u n)
        ∙ ap ok (append_assoc stat ((name, value) ∷ []) more))
fold_complete stat [] (e ∷ more) s u n = absurd s
fold_complete stat (line ∷ lines) [] s u n = absurd s

fold_sound :
    (stat : Stat) (lines : List Bytes) {t : Stat}
    → fold_lines parse_stat_line stat lines ≡ ok t
    → (more : Stat) × (t ≡ stat ++ more)
      × StateAll lines more
      × HasUniqueKeys more
      × AreNew stat more
unfolding fold_lines parse_stat_line
fold_sound stat [] h = ([], cc (append-nil stat), tt, tt, tt)
fold_sound stat (line ∷ lines) {t} h =
    let (u, first, later) = bind-eq-ok (parse_stat_line stat line) _ h in
    let (name, value, text, splits, parsed, new, e) =
      add_tokens-eq-ok stat line (split line b' ') first in
    let (more, whole, s, unique, fresh) = fold_sound u lines later in
    let u_is : u ≡ stat ++ ((name, value) ∷ []) = e ∙ insert_new name value stat new in
    let (apart, once) =
      AreNew-unsnoc stat name value more (subst (λ m. AreNew m more) u_is fresh) in
    (
      (name, value) ∷ more,
      whole ∙ ap (λ m. m ++ more) u_is ∙ append_assoc stat ((name, value) ∷ []) more,
      ((text, splits, parsed), s),
      (once, unique),
      (new, apart),
    )

-- A file that can be read, and whose lines are not too long, is parsed exactly if each of its lines
-- that is not blank has the form `name value`, with an int64 behind a name that no other line has;
-- the statistics are then the names and values of the lines, in their order.
pub parse_stat_iff :
    (r : Reader)
    → r.failure ≡ none
    → All (λ line. length line < max_line) (scan_lines r.content)
    → (stat : Stat) → (parse_stat r ≡ ok stat) ↔ (StateAll (payload r) stat × HasUniqueKeys stat)
unfolding parse_stat
parse_stat_iff r ended short stat =
    let folds = parse_file-fold parse_stat_line [] r ended short in
    (
      λ h.
          let (more, whole, s, unique, _) = fold_sound [] (payload r) (sym folds ∙ h) in
          rw whole (s, unique),
      λ h. folds ∙ fold_complete [] (payload r) stat h.0 h.1 (AreNew-nil stat),
    )
