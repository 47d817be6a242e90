-- ===== src/Rules/Uri/Laws.antt =====
-- The four kinds of Docker request that the rules tell apart.
use authzmtls.Common.{
  ℕ, ◌+◌, ◌≤◌, ◌≡◌, ◌≢◌, ◌⊎◌, ◌↔◌, true, Bool, List, [], ◌∷◌, Bytes, codes, arith, bytes_eq_iff,
  bytes_eq_refl, if◌then◌else◌,
}
use authzmtls.Rules.Uri.{
  two_segments, container_segments, path_segments, is_container_create, is_volume_create,
  is_docker_cp, is_docker_exec_create,
}

two_segments_iff :
    (a b : Bytes) (segs : List Bytes) → (two_segments a b segs ≡ true) ↔ (segs ≡ a ∷ b ∷ [])
unfolding two_segments
two_segments_iff a b [] = ground arith
two_segments_iff a b (x ∷ []) = ground arith
two_segments_iff a b (x ∷ y ∷ []) = ground (arith, bytes_eq_iff x a, bytes_eq_iff y b)
two_segments_iff a b (x ∷ y ∷ z ∷ segs) = ground arith

-- `containers`, an id that is not empty, and the last segment.
abbrev pub IsContainerPath : Bytes → List Bytes → Type 0
IsContainerPath last segs = (id : Bytes) × (id ≢ []) × (segs ≡ codes "containers" ∷ id ∷ last ∷ [])

container_segments-IsContainerPath :
    (last : Bytes) (segs : List Bytes)
    → container_segments last segs ≡ true
    → IsContainerPath last segs
unfolding container_segments
container_segments-IsContainerPath last [] h = cc
container_segments-IsContainerPath last (x ∷ []) h = cc
container_segments-IsContainerPath last (x ∷ y ∷ []) h = cc
container_segments-IsContainerPath last (x ∷ y ∷ z ∷ w ∷ segs) h = cc
container_segments-IsContainerPath last (x ∷ id ∷ y ∷ []) h = (
  id,
  ground (arith, bytes_eq_iff id []),
  ground (arith, bytes_eq_iff x (codes "containers"), bytes_eq_iff y last),
)

IsContainerPath-container_segments :
    (last : Bytes) (segs : List Bytes)
    → IsContainerPath last segs
    → container_segments last segs ≡ true
unfolding container_segments
IsContainerPath-container_segments last segs (id, some_id, e) =
    rw e
      (ground (arith, bytes_eq_iff id [], bytes_eq_refl last, bytes_eq_refl (codes "containers")))

-- Each test, by the segments of the path and the method.
pub is_container_create_iff :
    (uri : Bytes)
    → (is_container_create uri ≡ true)
      ↔ (path_segments uri ≡ codes "containers" ∷ codes "create" ∷ [])
unfolding is_container_create
is_container_create_iff uri = two_segments_iff _ _ (path_segments uri)

pub is_volume_create_iff :
    (uri : Bytes)
    → (is_volume_create uri ≡ true) ↔ (path_segments uri ≡ codes "volumes" ∷ codes "create" ∷ [])
unfolding is_volume_create
is_volume_create_iff uri = two_segments_iff _ _ (path_segments uri)

pub is_docker_cp_iff :
    (method uri : Bytes)
    → (is_docker_cp method uri ≡ true) ↔ (
        ((method ≡ codes "GET") ⊎ (method ≡ codes "PUT"))
        × IsContainerPath (codes "archive") (path_segments uri))
unfolding is_docker_cp
is_docker_cp_iff method uri = ground (
  arith,
  bytes_eq_iff method (codes "GET"),
  bytes_eq_iff method (codes "PUT"),
  container_segments-IsContainerPath (codes "archive") (path_segments uri),
  IsContainerPath-container_segments (codes "archive") (path_segments uri),
)

pub is_docker_exec_create_iff :
    (method uri : Bytes)
    → (is_docker_exec_create method uri ≡ true)
      ↔ ((method ≡ codes "POST") × IsContainerPath (codes "exec") (path_segments uri))
unfolding is_docker_exec_create
is_docker_exec_create_iff method uri = ground (
  arith,
  bytes_eq_iff method (codes "POST"),
  container_segments-IsContainerPath (codes "exec") (path_segments uri),
  IsContainerPath-container_segments (codes "exec") (path_segments uri),
)

abbrev pub one_if : Bool → ℕ
one_if b = if b then 1 else 0

not-IsContainerPath :
    (last a b : Bytes) (segs : List Bytes) → segs ≡ a ∷ b ∷ [] → ¬ IsContainerPath last segs
not-IsContainerPath last a b segs e (id, _, e') = cc

last_unique :
    (segs : List Bytes)
    → IsContainerPath (codes "archive") segs
    → ¬ IsContainerPath (codes "exec") segs
last_unique segs (id, _, e) (id', _, e') = cc

-- No request is of two of the kinds that the rules tell apart.
pub kinds_exclusive :
    (method uri : Bytes)
    → one_if (is_container_create uri)
        + one_if (is_volume_create uri)
        + one_if (is_docker_cp method uri)
        + one_if (is_docker_exec_create method uri)
      ≤ 1
kinds_exclusive method uri = ground (
  arith,
  is_container_create_iff uri,
  is_volume_create_iff uri,
  (is_docker_cp_iff method uri).0,
  (is_docker_exec_create_iff method uri).0,
  not-IsContainerPath (codes "archive") (codes "containers") (codes "create") (path_segments uri),
  not-IsContainerPath (codes "archive") (codes "volumes") (codes "create") (path_segments uri),
  not-IsContainerPath (codes "exec") (codes "containers") (codes "create") (path_segments uri),
  not-IsContainerPath (codes "exec") (codes "volumes") (codes "create") (path_segments uri),
  last_unique (path_segments uri),
)
