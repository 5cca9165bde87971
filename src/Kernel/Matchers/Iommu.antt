-- ===== src/Kernel/Matchers/Iommu.antt =====
-- The message of an IOMMU that fails, and the one that may come behind it.
use server_metrics.Base.{
  ℕ, ◌-◌, ◌≤◌, ◌<◌, ◌≡◌, ◌≢◌, ◌↔◌, ◌⊎◌, ◌∙◌, ap, sym, refl, inl, inr, true, false, List, [], ◌∷◌,
  ◌++◌, none, some, Bytes, codes, bytes_eq, same, length, take, arith, All, all, if◌then◌else◌,
  Bool-cases, Option-cases, same_iff, some_cancel,
}
use server_metrics.Text.{is_digit}
use server_metrics.Regexp.{
  Regex, at_end, Captures, Next, run, find_submatch, captured, group, many, seq, end_of_text,
}
use server_metrics.Regexp.Literal.{run-literal, run-literal-eq-some, run_many-all}
use server_metrics.Kernel.Matchers.{
  next_is, is_device, iommu_regexp, match_iommu_device, match_amd_iommu,
}

-- A byte of the name of a device: one of a to f, a digit, or a colon.
abbrev pub IsDeviceByte : ℕ → Type 0
IsDeviceByte c = ((b'a' ≤ c) × (c ≤ b'f')) ⊎ (((b'0' ≤ c) × (c ≤ b'9')) ⊎ (c ≡ b':'))

is_device_iff : (c : ℕ) → (is_device c ≡ true) ↔ IsDeviceByte c
unfolding is_digit
is_device_iff c = ground arith

abbrev prefix : Bytes
prefix = codes "kfd kfd: amdgpu: Failed to resume IOMMU for device "

-- The message names the device that failed.
abbrev pub Names : Bytes → Bytes → Type 0
Names m device = (device ≢ []) × All IsDeviceByte device × (m ≡ prefix ++ device)

-- What follows the literal in the expression.
abbrev device_regexp : Regex
device_regexp = seq (group 1 (many is_device)) end_of_text

abbrev finish : Next
finish rest caps = some (rest, caps)

take-all : (s : Bytes) → take (length s) s ≡ s
take-all [] = refl
take-all (c ∷ s) = ap (◌∷◌ c) (take-all s)

sub_zero : (n : ℕ) → n - 0 ≡ n
sub_zero n = omega arith

take-length : (s : Bytes) → take (length s - 0) s ≡ s
take-length [] = refl
take-length (c ∷ s) = ap (λ n. take n (c ∷ s)) (sub_zero (length (c ∷ s))) ∙ take-all (c ∷ s)

run_device :
    (c : ℕ) (s : Bytes)
    → run device_regexp (c ∷ s) [] finish
      ≡ (if all is_device (c ∷ s) then some ([], (1, c ∷ s) ∷ []) else none)
unfolding run at_end
run_device c s =
    run_many-all is_device c s [] _ (λ x xs. refl)
    ∙ ap (λ t. if all is_device (c ∷ s) then some ([], (1, t) ∷ []) else none) (take-length (c ∷ s))

all-All : (s : Bytes) → (all is_device s ≡ true) ↔ All IsDeviceByte s
all-All [] = (λ h. tt, λ h. refl)
all-All (c ∷ s) = elim (Bool-cases (is_device c)) [
  | inl fits ↦ (
    λ h. ((is_device_iff c).0 fits, (all-All s).0 (rw fits at h)),
    λ h. rw fits ((all-All s).1 h.1),
  )
  | inr other ↦
      (λ h. absurd (cc (rw other at h)), λ h. absurd (cc (sym other ∙ (is_device_iff c).1 h.0)))
]

run_device-eq-some :
    (s : Bytes) {found : Bytes × Captures}
    → run device_regexp s [] finish ≡ some found
    → (s ≢ []) × All IsDeviceByte s × (found ≡ ([], (1, s) ∷ []))
unfolding run
run_device-eq-some [] h = absurd (cc h)
run_device-eq-some (c ∷ s) h = elim (Bool-cases (all is_device (c ∷ s))) [
  | inr other ↦ absurd (cc (rw other at (sym (run_device c s) ∙ h)))
  | inl fits ↦ (
    λ e. cc e,
    (all-All (c ∷ s)).0 fits,
    some_cancel (sym (rw fits at (sym (run_device c s) ∙ h))),
  )
]

find_submatch-Names :
    (m device : Bytes) → Names m device → find_submatch iommu_regexp m ≡ some ([], (1, device) ∷ [])
unfolding find_submatch run
find_submatch-Names m [] (some_byte, _, _) = absurd (some_byte refl)
find_submatch-Names m (c ∷ s) (some_byte, bytes, e) =
    ap (λ m. run iommu_regexp m [] finish) e
    ∙ run-literal prefix (c ∷ s) [] (λ s caps. run device_regexp s caps finish)
    ∙ run_device c s
    ∙ rw ((all-All (c ∷ s)).1 bytes) refl

find_submatch-eq-some :
    (m : Bytes) {found : Bytes × Captures}
    → find_submatch iommu_regexp m ≡ some found
    → (device : Bytes) × Names m device × (found ≡ ([], (1, device) ∷ []))
unfolding find_submatch run
find_submatch-eq-some m h =
    let (s, whole, k) =
      run-literal-eq-some prefix m [] (λ s caps. run device_regexp s caps finish) h in
    let (some_byte, bytes, e) = run_device-eq-some s k in (s, (some_byte, bytes, whole), e)

-- The message behind it tells that the device was not added.
abbrev not_added : Bytes → Bytes
not_added device = codes "kfd kfd: amdgpu: device " ++ (device ++ codes " NOT added due to errors")

-- The error of a device, alone or with the message behind it.
abbrev pub Takes : Bytes → List Bytes → ℕ → Type 0
Takes m ms n =
    (device : Bytes) × Names m device
    × (((n ≡ 2) × ((rest : List Bytes) × (ms ≡ not_added device ∷ rest)))
        ⊎ ((n ≡ 1) × ((rest : List Bytes) → ms ≢ not_added device ∷ rest)))

follows :
    (text : Bytes) (ms : List Bytes)
    → ((next_is text ms ≡ true) × ((rest : List Bytes) × (ms ≡ text ∷ rest)))
      ⊎ ((next_is text ms ≡ false) × ((rest : List Bytes) → ms ≢ text ∷ rest))
follows text [] = inr (refl, λ rest e. cc e)
follows text (m ∷ ms) = elim (Bool-cases (same m text)) [
  | inl e ↦ inl (e, (ms, ap (λ x. x ∷ ms) ((same_iff m text).0 e)))
  | inr d ↦ inr (d, λ rest e. cc (sym d ∙ (same_iff m text).1 (cc e)))
]

match-Names :
    (m device : Bytes) (ms : List Bytes)
    → Names m device
    → match_amd_iommu (m ∷ ms) ≡ (if next_is (not_added device) ms then 2 else 1, [])
unfolding match_amd_iommu match_iommu_device captured
match-Names m device ms named = rw (find_submatch-Names m device named) refl

match-none :
    (m : Bytes) (ms : List Bytes)
    → find_submatch iommu_regexp m ≡ none
    → match_amd_iommu (m ∷ ms) ≡ (0, [])
unfolding match_amd_iommu match_iommu_device
match-none m ms e = rw e refl

count_of :
    (text : Bytes) (ms : List Bytes) (n : ℕ)
    → ((if next_is text ms then 2 else 1) ≡ n) ↔ (
        ((n ≡ 2) × ((rest : List Bytes) × (ms ≡ text ∷ rest)))
        ⊎ ((n ≡ 1) × ((rest : List Bytes) → ms ≢ text ∷ rest)))
count_of text ms n = elim (follows text ms) [
  | inl (e, (rest, whole)) ↦ (
    λ h. inl (sym (rw e at h), (rest, whole)),
    λ h. rw e (elim h [ inl (two, _) ↦ sym two | inr (_, other) ↦ absurd (other rest whole) ]),
  )
  | inr (e, other) ↦ (
    λ h. inr (sym (rw e at h), other),
    λ h.
        rw e
          (elim h [ inl (_, (rest, whole)) ↦ absurd (other rest whole) | inr (one, _) ↦ sym one ]),
  )
]

-- For a positive number: the matcher of IOMMU errors takes so many messages, which count as no other
-- type, exactly if the first of them is "kfd kfd: amdgpu: Failed to resume IOMMU for device " and then
-- one or more bytes of a to f, digits, and colons, and nothing else, and the number is 2 if the message
-- behind it is "kfd kfd: amdgpu: device ", those bytes, and " NOT added due to errors", and 1 if it is
-- not.
pub match_amd_iommu_iff :
    (m : Bytes) (ms : List Bytes) (n : ℕ)
    → 0 < n
    → (match_amd_iommu (m ∷ ms) ≡ (n, [])) ↔ Takes m ms n
match_amd_iommu_iff m ms n positive = (
  λ h. elim (Option-cases (find_submatch iommu_regexp m)) [
    | inl nothing ↦
        absurd (omega (arith, positive, ap (λ p. p.0) (sym (match-none m ms nothing) ∙ h)))
    | inr (_, e) ↦
        let (device, named, _) = find_submatch-eq-some m e in
        let count = ap (λ p. p.0) (sym (match-Names m device ms named) ∙ h) in
        (device, named, (count_of (not_added device) ms n).0 count)
  ],
  λ (device, named, counts).
      match-Names m device ms named
      ∙ ap (λ k. (k, [])) ((count_of (not_added device) ms n).1 counts),
)
