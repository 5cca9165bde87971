-- ===== src/Network/Deletion/Batches.antt =====
-- The batches are what the sets hold, in its order, none empty and none too large.
use server_metrics.Base.{
  ℕ, zero, suc, ◌≤◌, ◌≡◌, ◌∙◌, ap, sym, refl, List, [], ◌∷◌, ◌++◌, append_assoc, append-nil, Option,
  none, some, Bytes, length, take, drop, arith, take-append-drop, length-drop, length-take, All,
  All-append,
}
use server_metrics.Error.{Error}
use server_metrics.Network.Deletion.{
  batch_size, Call, Deletion, proceed, then_sets, delete_set, delete_sets, delete_banned,
}

-- The elements of calls, each with its set.
abbrev pub elements_of : Bytes → List Bytes → List (Bytes × Bytes)
elements_of set [] = []
elements_of set (key ∷ keys) = (set, key) ∷ elements_of set keys

abbrev pub flat : List Call → List (Bytes × Bytes)
flat [] = []
flat ((set, keys) ∷ calls) = elements_of set keys ++ flat calls

-- A call that the socket can take.
abbrev pub Fitting : Call → Type 0
Fitting (set, keys) = (1 ≤ length keys) × (length keys ≤ batch_size)

-- The calls of a deletion go on from earlier calls and take from the elements in their order: all
-- of them where there was no failure.
pub record Deletes (before : List Call) (elements : List (Bytes × Bytes)) (d : Deletion)
    : Type 0 where
  pub fitting : All Fitting before → All Fitting d.calls
  pub left : List (Bytes × Bytes)
  pub taken : flat d.calls ++ left ≡ flat before ++ elements
  pub whole : d.failure ≡ none → left ≡ []

flat-append : (a b : List Call) → flat (a ++ b) ≡ flat a ++ flat b
flat-append [] b = refl
flat-append ((set, keys) ∷ a) b =
    ap (λ l. elements_of set keys ++ l) (flat-append a b)
    ∙ sym (append_assoc (elements_of set keys) (flat a) (flat b))

elements_of-append :
    (set : Bytes) (a b : List Bytes)
    → elements_of set (a ++ b) ≡ elements_of set a ++ elements_of set b
elements_of-append set [] b = refl
elements_of-append set (key ∷ a) b = ap (λ l. (set, key) ∷ l) (elements_of-append set a b)

flat-add :
    (calls : List Call) (set : Bytes) (batch remaining : List Bytes)
    → flat (calls ++ ((set, batch) ∷ [])) ++ elements_of set remaining
      ≡ flat calls ++ elements_of set (batch ++ remaining)
flat-add calls set batch remaining = rw (
  flat-append calls ((set, batch) ∷ []),
  append-nil (elements_of set batch),
  append_assoc (flat calls) (elements_of set batch) (elements_of set remaining),
  elements_of-append set batch remaining,
)

-- A call that takes the next elements comes before the rest of a deletion.
after_call :
    (calls : List Call) (set : Bytes) (batch remaining keys : List Bytes) (d : Deletion)
    → batch ++ remaining ≡ keys
    → Fitting (set, batch)
    → Deletes (calls ++ ((set, batch) ∷ [])) (elements_of set remaining) d
    → Deletes calls (elements_of set keys) d
after_call calls set batch remaining keys d parts fit rest = record {
  fitting = λ h. rest.fitting (All-append Fitting calls ((set, batch) ∷ []) h (fit, tt));
  left = rest.left;
  taken =
      rest.taken
      ∙ flat-add calls set batch remaining
      ∙ ap (λ l. flat calls ++ elements_of set l) parts;
  whole = rest.whole;
}

stopped :
    (calls : List Call) (elements : List (Bytes × Bytes)) (e : Error)
    → Deletes calls elements (record { calls = calls; failure = some e })
stopped calls elements e = record {
  fitting = λ h. h;
  left = elements;
  taken = refl;
  whole = λ k. absurd (cc k);
}

finished : (calls : List Call) → Deletes calls [] (record { calls = calls; failure = none })
finished calls = record { fitting = λ h. h; left = []; taken = refl; whole = λ _. refl }

proceed-Deletes :
    (a : Option Error) (now : List Call) (elements : List (Bytes × Bytes)) (d : Deletion)
    → Deletes now elements d
    → Deletes now elements (proceed a now d)
proceed-Deletes none now elements d v = v
proceed-Deletes (some e) now elements d v = stopped now elements e

first_batch : (set key : Bytes) (keys : List Bytes) → Fitting (set, take batch_size (key ∷ keys))
first_batch set key keys = omega (arith, length-take batch_size (key ∷ keys))

delete_set-Deletes :
    (answer : ℕ → Option Error) (set : Bytes) (fuel : ℕ) (keys : List Bytes) (calls : List Call)
    → length keys ≤ fuel
    → Deletes calls (elements_of set keys) (delete_set answer set fuel keys calls)
unfolding delete_set
delete_set-Deletes answer set zero [] calls enough = finished calls
delete_set-Deletes answer set (suc fuel) [] calls enough = finished calls
delete_set-Deletes answer set zero (key ∷ keys) calls enough = absurd (omega arith)
delete_set-Deletes answer set (suc fuel) (key ∷ keys) calls enough =
    let now : List Call = calls ++ ((set, take batch_size (key ∷ keys)) ∷ []) in
    let rest : List Bytes = drop batch_size (key ∷ keys) in
    after_call calls set (take batch_size (key ∷ keys)) rest (key ∷ keys) _
      (take-append-drop batch_size (key ∷ keys)) (first_batch set key keys)
      (proceed-Deletes (answer (length calls)) now (elements_of set rest) _ (
        delete_set-Deletes answer set fuel rest now
          (omega (arith, length-drop batch_size (key ∷ keys)))))

-- The sets one after the other.
then-Deletes :
    (before : List Call) (first more : List (Bytes × Bytes)) (now : List Call)
    (failure : Option Error) (next : List Call → Deletion)
    → Deletes before first (record { calls = now; failure = failure })
    → ((calls : List Call) → Deletes calls more (next calls))
    → Deletes before (first ++ more) (then_sets (record { calls = now; failure = failure }) next)
then-Deletes before first more now none next v n = record {
  fitting = λ h. (n now).fitting (v.fitting h);
  left = (n now).left;
  taken =
      (n now).taken
      ∙ ap (λ l. l ++ more)
          (sym (append-nil (flat now)) ∙ ap (λ l. flat now ++ l) (sym (v.whole refl)) ∙ v.taken)
      ∙ append_assoc (flat before) first more;
  whole = (n now).whole;
}
then-Deletes before first more now (some e) next v n = record {
  fitting = v.fitting;
  left = v.left ++ more;
  taken =
      sym (append_assoc (flat now) v.left more)
      ∙ ap (λ l. l ++ more) v.taken
      ∙ append_assoc (flat before) first more;
  whole = λ k. absurd (cc k);
}

delete_sets-Deletes :
    (answer : ℕ → Option Error) (sets calls : List Call)
    → Deletes calls (flat sets) (delete_sets answer sets calls)
unfolding delete_sets
delete_sets-Deletes answer [] calls = finished calls
delete_sets-Deletes answer ((set, keys) ∷ sets) calls =
    then-Deletes calls (elements_of set keys) (flat sets) _ _ (λ now. delete_sets answer sets now)
      (delete_set-Deletes answer set (length keys) keys calls (omega arith))
      (delete_sets-Deletes answer sets)

delete_banned-Deletes :
    (answer : ℕ → Option Error) (sets : List Call)
    → Deletes [] (flat sets) (delete_banned answer sets)
unfolding delete_banned
delete_banned-Deletes answer sets = delete_sets-Deletes answer sets []

-- Whatever the connection answers, no call is empty or has more than 1000 elements, and the calls
-- take elements of the sets in their order, each at most once.
pub delete_banned-batches :
    (answer : ℕ → Option Error) (sets : List Call)
    → All Fitting (delete_banned answer sets).calls
      × (left : List (Bytes × Bytes)) × (flat (delete_banned answer sets).calls ++ left ≡ flat sets)
delete_banned-batches answer sets =
    let d = delete_banned-Deletes answer sets in (d.fitting tt, d.left, d.taken)

-- A deletion that reports no error has deleted every element of every set.
pub delete_banned-whole :
    (answer : ℕ → Option Error) (sets : List Call)
    → (delete_banned answer sets).failure ≡ none
    → flat (delete_banned answer sets).calls ≡ flat sets
delete_banned-whole answer sets fine =
    let d = delete_banned-Deletes answer sets in
    sym (append-nil (flat (delete_banned answer sets).calls))
    ∙ ap (λ l. flat (delete_banned answer sets).calls ++ l) (sym (d.whole fine))
    ∙ d.taken
