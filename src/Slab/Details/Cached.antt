-- ===== src/Slab/Details/Cached.antt =====
-- The cache of slab details is transparent while the files stay as they are.
use server_metrics.Base.{
  ◌≡◌, ◌∙◌, ap, sym, refl, Bool, List, [], ◌∷◌, some, Bytes, bytes_eq, same, same_iff, All,
  Bool-cases, Option-cases, inl, inr, Result, ok, err, ◌>>=◌, some_cancel,
}
use server_metrics.Error.{Error}
use server_metrics.Map.{lookup, insert}
use server_metrics.Slab.Info.{SlabInfo}
use server_metrics.Slab.Details.{
  Cache, parse_reclaim_account, remember, read_details, is_reclaimable, add_slab, observe_slabs,
}

-- Without a cache: what the file of a slab says.
abbrev pub reclaim_account : (Bytes → Result Error Bytes) → Bytes → Result Error Bool
reclaim_account files name = files name >>= parse_reclaim_account

abbrev pub add_labelled :
    SlabInfo
    → Result Error Bool
    → Result Error (List (SlabInfo × Bool))
    → Result Error (List (SlabInfo × Bool))
add_labelled info (err e) rest = err e
add_labelled info (ok b) (err e) = err e
add_labelled info (ok b) (ok slabs) = ok ((info, b) ∷ slabs)

-- Every slab with what its file says, or the first error.
abbrev pub labelled :
    (Bytes → Result Error Bytes) → List SlabInfo → Result Error (List (SlabInfo × Bool))
labelled files [] = ok []
labelled files (info ∷ infos) =
    add_labelled info (reclaim_account files info.name) (labelled files infos)

module _ (files : Bytes → Result Error Bytes) where
  -- The cache holds what the files say.
  abbrev pub IsRead : Cache → Type 0
  IsRead cache = All (λ entry. reclaim_account files entry.0 ≡ ok entry.1) cache

  lookup-IsRead :
      (cache : Cache) (name : Bytes) {b : Bool}
      → IsRead cache
      → lookup name cache ≡ some b
      → reclaim_account files name ≡ ok b
  unfolding lookup
  lookup-IsRead [] name v h = absurd (cc h)
  lookup-IsRead ((j, w) ∷ cache) name (here, v) h = elim (Bool-cases (same j name)) [
    | inl e ↦
        ap (reclaim_account files) (sym ((same_iff j name).0 e))
        ∙ here
        ∙ ap ok (some_cancel (rw e at h))
    | inr d ↦ lookup-IsRead cache name v (rw d at h)
  ]

  insert-IsRead :
      (cache : Cache) (name : Bytes) (b : Bool)
      → reclaim_account files name ≡ ok b
      → IsRead cache
      → IsRead (insert name b cache)
  unfolding insert
  insert-IsRead [] name b h v = (h, tt)
  insert-IsRead ((j, w) ∷ cache) name b h (here, v) = elim (Bool-cases (same j name)) [
    | inl e ↦ rw e (ap (reclaim_account files) ((same_iff j name).0 e) ∙ h, v)
    | inr d ↦ rw d (here, insert-IsRead cache name b h v)
  ]

  remember-IsRead :
      (cache : Cache) (name : Bytes) (p : Result Error Bool)
      → reclaim_account files name ≡ p
      → IsRead cache
      → ((remember cache name p).0 ≡ p) × IsRead (remember cache name p).1
  unfolding remember
  remember-IsRead cache name (err e) h v = (refl, v)
  remember-IsRead cache name (ok b) h v = (refl, insert-IsRead cache name b h v)

  read_details-IsRead :
      (cache : Cache) (name : Bytes) (r : Result Error Bytes)
      → files name ≡ r
      → IsRead cache
      → ((read_details cache name r).0 ≡ (r >>= parse_reclaim_account))
        × IsRead (read_details cache name r).1
  unfolding read_details
  read_details-IsRead cache name (err e) h v = (refl, v)
  read_details-IsRead cache name (ok content) h v =
      remember-IsRead cache name (parse_reclaim_account content)
        (ap (λ r. r >>= parse_reclaim_account) h) v

  add_slab-labelled :
      (info : SlabInfo) (r : Result Error Bool) (cache : Cache)
      (later : Result Error (List (SlabInfo × Bool)) × Cache)
      → IsRead cache
      → IsRead later.1
      → ((add_slab info r cache later).0 ≡ add_labelled info r later.0)
        × IsRead (add_slab info r cache later).1
  unfolding add_slab
  add_slab-labelled info (err e) cache later v w = (refl, v)
  add_slab-labelled info (ok b) cache (ok slabs, later) v w = (refl, w)
  add_slab-labelled info (ok b) cache (err e, later) v w = (refl, w)

  is_reclaimable-IsRead :
      (cache : Cache) (name : Bytes)
      → IsRead cache
      → ((is_reclaimable files cache name).0 ≡ reclaim_account files name)
        × IsRead (is_reclaimable files cache name).1
  unfolding is_reclaimable
  is_reclaimable-IsRead cache name v = elim (Option-cases (lookup name cache)) [
    | inr (b, e) ↦ rw (e, is_reclaimable) (sym (lookup-IsRead cache name v e), v)
    | inl new ↦ rw (new, is_reclaimable) (read_details-IsRead cache name (files name) refl v)
  ]

  -- While the cache holds what the files say, the slabs that are observed are those that would be
  -- without a cache, or the same error, and the cache then still holds what the files say.
  pub observe_slabs-labelled :
      (cache : Cache) (infos : List SlabInfo)
      → IsRead cache
      → ((observe_slabs files cache infos).0 ≡ labelled files infos)
        × IsRead (observe_slabs files cache infos).1
  unfolding observe_slabs
  observe_slabs-labelled cache [] v = (refl, v)
  observe_slabs-labelled cache (info ∷ infos) v =
      let (r, w) = is_reclaimable-IsRead cache info.name v in
      let (rest, later) = observe_slabs-labelled (is_reclaimable files cache info.name).1 infos w in
      let (here, kept) =
        add_slab-labelled info (is_reclaimable files cache info.name).0
          (is_reclaimable files cache info.name).1
          (observe_slabs files (is_reclaimable files cache info.name).1 infos) w later in
      (here ∙ (λ i. add_labelled info (r i) (rest i)), kept)
