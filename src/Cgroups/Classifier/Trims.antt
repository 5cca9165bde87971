-- ===== src/Cgroups/Classifier/Trims.antt =====
-- `trim` is called where the two parts that it cuts off do not overlap.
use server_metrics.Base.{
  ◌+◌, ◌-◌, ◌≡◌, true, [], ◌∷◌, Bytes, codes, arith, length, take, drop, ok, ◌≤◌,
}
use server_metrics.Text.{has_prefix, has_suffix}
use server_metrics.Cgroups.Classifier.{trim}

-- A name that starts and ends like the scope of a Docker container holds both parts in full.
docker_scope-length :
    (name : Bytes)
    → has_prefix name (codes "docker-") ≡ true
    → has_suffix name (codes ".scope") ≡ true
    → 13 ≤ length name
unfolding has_prefix has_suffix
docker_scope-length (_ ∷ _ ∷ _ ∷ _ ∷ _ ∷ _ ∷ _ ∷ []) p s = ground arith
docker_scope-length (_ ∷ _ ∷ _ ∷ _ ∷ _ ∷ _ ∷ _ ∷ _ ∷ []) p s = ground arith
docker_scope-length (_ ∷ _ ∷ _ ∷ _ ∷ _ ∷ _ ∷ _ ∷ _ ∷ _ ∷ []) p s = ground arith
docker_scope-length (_ ∷ _ ∷ _ ∷ _ ∷ _ ∷ _ ∷ _ ∷ _ ∷ _ ∷ _ ∷ []) p s = ground arith
docker_scope-length (_ ∷ _ ∷ _ ∷ _ ∷ _ ∷ _ ∷ _ ∷ _ ∷ _ ∷ _ ∷ _ ∷ []) p s = ground arith
docker_scope-length (_ ∷ _ ∷ _ ∷ _ ∷ _ ∷ _ ∷ _ ∷ _ ∷ _ ∷ _ ∷ _ ∷ _ ∷ []) p s = ground arith
docker_scope-length (_ ∷ _ ∷ _ ∷ _ ∷ _ ∷ _ ∷ _ ∷ _ ∷ _ ∷ _ ∷ _ ∷ _ ∷ _ ∷ rest) p s = omega arith
docker_scope-length (_ ∷ _ ∷ _ ∷ _ ∷ _ ∷ _ ∷ []) p s = ground arith
docker_scope-length (_ ∷ _ ∷ _ ∷ _ ∷ _ ∷ []) p s = ground arith
docker_scope-length (_ ∷ _ ∷ _ ∷ _ ∷ []) p s = ground arith
docker_scope-length (_ ∷ _ ∷ _ ∷ []) p s = ground arith
docker_scope-length (_ ∷ _ ∷ []) p s = ground arith
docker_scope-length (_ ∷ []) p s = ground arith
docker_scope-length [] p s = ground arith

-- A text that is long enough is cut.
trim-succeeds :
    (prefix name suffix : Bytes)
    → length prefix + length suffix ≤ length name
    → (rest : Bytes) × (trim prefix name suffix ≡ ok rest)
unfolding trim
trim-succeeds prefix name suffix h =
    (take (length name - length suffix - length prefix) (drop (length prefix) name), ground arith)

pub trim-docker :
    (name : Bytes)
    → has_prefix name (codes "docker-") ≡ true
    → has_suffix name (codes ".scope") ≡ true
    → (rest : Bytes) × (trim (codes "docker-") name (codes ".scope") ≡ ok rest)
trim-docker name p s =
    trim-succeeds (codes "docker-") name (codes ".scope") (docker_scope-length name p s)

pub trim-service :
    (name : Bytes)
    → has_suffix name (codes ".service") ≡ true
    → (rest : Bytes) × (trim [] name (codes ".service") ≡ ok rest)
unfolding has_suffix
trim-service name s = trim-succeeds [] name (codes ".service") (ground arith)
