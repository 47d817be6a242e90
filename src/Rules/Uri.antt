-- ===== src/Rules/Uri.antt =====
-- internal/rules/mounts.go: which Docker request a method and a URI make.
pub mod Laws
pub mod RoundTrip
pub mod Version
use mathlib.Core.List.{tail}
use authzmtls.Common.{
  ◌≡◌, refl, ℕ, Bool, true, false, not, ◌&&◌, ◌||◌, List, [], ◌∷◌, Bytes, codes, bytes_eq, ltb, leb,
  ◌==◌, all, if◌then◌else◌,
}
use authzmtls.GoStd.Runes.{runes}
use authzmtls.GoStd.Strings.{before, split, trim}

-- `c < '0' || c > '9'` fails.
abbrev pub is_digit : ℕ → Bool
is_digit c = not (ltb c b'0' || ltb b'9' c)

abbrev digit_group : Bytes → Bool
digit_group part = not (bytes_eq part []) && all is_digit (runes part)

-- `isVersionSegment`.
unfoldable pub is_version_segment : Bytes → Bool
is_version_segment [] = false
is_version_segment (c ∷ []) = false
is_version_segment (c ∷ d ∷ s) = c == b'v' && all digit_group (split b'.' (d ∷ s))

abbrev pub drop_version : List Bytes → List Bytes
drop_version [] = []
drop_version (v ∷ segs) = if is_version_segment v then segs else v ∷ segs

-- What `pathSegments` does with the trimmed path.
abbrev pub segments_of : Bytes → List Bytes
segments_of p = if bytes_eq p [] then [] else drop_version (split b'/' p)

-- `pathSegments`; a nil slice is the empty list.
unfoldable pub path_segments : Bytes → List Bytes
path_segments uri = segments_of (trim b'/' (before b'?' uri))

two_segments : Bytes → Bytes → List Bytes → Bool
two_segments a b (x ∷ y ∷ []) = bytes_eq x a && bytes_eq y b
two_segments a b _ = false

container_segments : Bytes → List Bytes → Bool
container_segments last (x ∷ id ∷ y ∷ []) =
    bytes_eq x (codes "containers") && not (bytes_eq id []) && bytes_eq y last
container_segments last _ = false

-- `isContainerCreate`.
unfoldable pub is_container_create : Bytes → Bool
unfolding two_segments
is_container_create uri = two_segments (codes "containers") (codes "create") (path_segments uri)

-- `isVolumeCreate`.
unfoldable pub is_volume_create : Bytes → Bool
unfolding two_segments
is_volume_create uri = two_segments (codes "volumes") (codes "create") (path_segments uri)

-- `IsDockerCP`.
unfoldable pub is_docker_cp : Bytes → Bytes → Bool
unfolding container_segments
is_docker_cp method uri =
    if not (bytes_eq method (codes "GET")) && not (bytes_eq method (codes "PUT"))
    then false
    else container_segments (codes "archive") (path_segments uri)

-- `IsDockerExecCreate`.
unfoldable pub is_docker_exec_create : Bytes → Bytes → Bool
unfolding container_segments
is_docker_exec_create method uri =
    if not (bytes_eq method (codes "POST"))
    then false
    else container_segments (codes "exec") (path_segments uri)
