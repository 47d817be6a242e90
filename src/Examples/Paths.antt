-- ===== src/Examples/Paths.antt =====
-- Paths, patterns and URIs.
use authzmtls.Common.{
  false, ◌≡◌, ◌↔◌, refl, inl, arith, true, List, [], ◌∷◌, some, Bytes, codes, bytes_eq, All, Any,
  Elem, ok, count, lookup, insert,
}
use authzmtls.Examples.Setup.{host, host-WaitsForAll, host-IsUnix, directory, homes, create}
use authzmtls.GoStd.FilePath.Laws.{components, IsPlain}
use authzmtls.GoStd.FilePath.{is_abs, render, clean}
use authzmtls.GoStd.Runes.{runes}
use authzmtls.GoStd.Strings.{join, split, before, trim, has_prefix, trim_suffix}
use authzmtls.Rules.Body.Asks.{Mounts, as_bind, with_target}
use authzmtls.Rules.Body.{decode_host_config, binds}
use authzmtls.Rules.Decision.{Decision, allow}
use authzmtls.Rules.Expand.Laws.{Expands, expand-Elem_iff}
use authzmtls.Rules.Expand.Product.{cartesian_product}
use authzmtls.Rules.Expand.Scan.{tokens}
use authzmtls.Rules.Expand.Slashes.{expand-count_slash}
use authzmtls.Rules.Expand.{VarMap, values, expand}
use authzmtls.Rules.Matcher.Laws.Components.{IsAbove, allowed-IsAbove_iff}
use authzmtls.Rules.Matcher.{normalize_prefix, allowed_by, new_matcher, allowed}
use authzmtls.Rules.Mounts.Concurrent.{check_concurrently}
use authzmtls.Rules.Mounts.Laws.{MountAnswer, mount_rule-MountAnswer}
use authzmtls.Rules.Mounts.Security.{Below, mount_rule-Below, dot_dot_opens_root}
use authzmtls.Rules.Canonical.{check_no_control_chars, abs, canonicalize}
use authzmtls.Rules.Reqvars.{extract}
use authzmtls.Rules.Mounts.{
  mount_paths, mount_decision, first_not_allowed, check_paths_concurrently, check_path, expand_all,
  resolve_matcher, mount_rule,
}
use authzmtls.Rules.Sources.{resolve_vars}
use authzmtls.Rules.Uri.RoundTrip.{uri_of, path_segments-uri_of}
use authzmtls.Rules.Uri.{
  path_segments, is_version_segment, is_container_create, is_docker_cp, is_docker_exec_create,
}
use authzmtls.Rules.Verdicts.{Verdict}

abbrev srv : List Bytes
srv = codes "/srv/data" ∷ []

abbrev srv_a : List Bytes
srv_a = codes "srv" ∷ codes "data" ∷ codes "a" ∷ []

srv-is_abs : All (λ q. is_abs q ≡ true) srv
unfolding is_abs has_prefix
srv-is_abs = (refl, tt)

homes-is_abs : All (λ q. is_abs q ≡ true) homes
unfolding is_abs has_prefix
homes-is_abs = (refl, tt)

srv_a-IsPlain : All IsPlain srv_a
srv_a-IsPlain = ground arith

allowed-IsAbove_iff_example :
    (allowed (new_matcher srv) (render true srv_a) ≡ true)
    ↔ Any (λ q. IsAbove (components q) srv_a) srv
allowed-IsAbove_iff_example = allowed-IsAbove_iff srv srv_a srv-is_abs srv_a-IsPlain

abbrev two_users : VarMap
two_users = (codes "USER", codes "jdoe" ∷ codes "a/b" ∷ []) ∷ []

expand-Elem_iff_example :
    Elem (codes "/home/jdoe") (expand (codes "/home/$USER") two_users)
    ↔ Expands (codes "/home/$USER") two_users (codes "/home/jdoe")
expand-Elem_iff_example = expand-Elem_iff (codes "/home/$USER") two_users (codes "/home/jdoe")

expand_run : expand (codes "/home/$USER") two_users ≡ codes "/home/jdoe" ∷ []
unfolding expand bytes_eq lookup insert runes tokens cartesian_product
expand_run = refl

expand-count_slash_example : count b'/' (codes "/home/jdoe") ≡ count b'/' (codes "/home/$USER")
expand-count_slash_example =
    expand-count_slash (codes "/home/$USER") two_users (codes "/home/jdoe")
      (rw expand_run (inl refl))

mount_rule-MountAnswer_example :
    (d : Decision) × ((mount_rule host directory homes create tt).0 ≡ ok d)
    × MountAnswer host
        (resolve_matcher directory create homes tt).0
        (binds host create.request_uri create.request_body)
        d
mount_rule-MountAnswer_example =
    mount_rule-MountAnswer host directory homes create tt host-WaitsForAll

abbrev home_source : Bytes
home_source = codes "/home/jdoe/../jdoe/src"

mount_run :
    (mount_rule host directory homes create tt).0
    ≡ ok (allow (codes "mount path(s) /home/jdoe/../jdoe/src allowed"))
unfolding mount_rule binds resolve_matcher resolve_vars expand_all expand new_matcher
    normalize_prefix clean is_container_create path_segments is_version_segment split before trim
    bytes_eq runes lookup tokens cartesian_product mount_paths mount_decision first_not_allowed
    check_paths_concurrently check_concurrently check_path canonicalize check_no_control_chars abs
    is_abs allowed allowed_by has_prefix trim_suffix decode_host_config extract join
mount_run = refl

allow-allows : (msg : Bytes) → (allow msg).verdict ≡ Verdict.allow
unfolding allow
allow-allows msg = refl

home_source-Mounts : Mounts host create home_source
unfolding path_segments is_version_segment split before trim bytes_eq runes
home_source-Mounts =
    as_bind refl refl (inl refl) (with_target (codes "/src:ro")) (ground arith) (λ e. cc)

mount_rule-Below_example :
    Below host (expand_all homes (resolve_vars directory create tt).0) home_source
mount_rule-Below_example =
    mount_rule-Below host directory homes create tt
      (allow (codes "mount path(s) /home/jdoe/../jdoe/src allowed")) host-WaitsForAll host-IsUnix
      homes-is_abs mount_run (allow-allows (codes "mount path(s) /home/jdoe/../jdoe/src allowed"))
      home_source home_source-Mounts

abbrev dot_dot_user : VarMap
dot_dot_user = (codes "USER", codes ".." ∷ []) ∷ []

dot_dot-Elem : Elem (codes "..") (values (codes "USER") dot_dot_user)
unfolding lookup bytes_eq
dot_dot-Elem = inl refl

dot_dot_opens_root_example :
    allowed
      (new_matcher (expand_all (codes "/home/$USER" ∷ srv) dot_dot_user))
      (render true (codes "etc" ∷ codes "shadow" ∷ []))
    ≡ true
dot_dot_opens_root_example =
    dot_dot_opens_root dot_dot_user srv (codes "etc" ∷ codes "shadow" ∷ []) dot_dot-Elem

version_fits : is_version_segment (codes "v1.43") ≡ true
unfolding is_version_segment split bytes_eq runes
version_fits = refl

path_segments-uri_of_example :
    path_segments
      (uri_of (some (codes "v1.43")) (codes "volumes" ∷ codes "create" ∷ []) (some (codes "a/b?c")))
    ≡ codes "volumes" ∷ codes "create" ∷ []
path_segments-uri_of_example =
    path_segments-uri_of (some (codes "v1.43")) (codes "volumes") (codes "create" ∷ [])
      (some (codes "a/b?c")) (ground arith, version_fits) (ground arith)

uri_tests :
    (is_container_create (codes "/v1.43/containers/create?name=x/y") ≡ true)
    × (is_container_create (codes "/containers/create") ≡ true)
    × (is_container_create (codes "/vx/containers/create") ≡ false)
    × (is_docker_cp (codes "GET") (codes "/v1.4/containers/ab/archive?path=/") ≡ true)
    × (is_docker_exec_create (codes "POST") (codes "/exec/ab/start") ≡ false)
unfolding is_container_create is_docker_cp is_docker_exec_create path_segments is_version_segment
    split before trim bytes_eq runes
uri_tests = (refl, refl, refl, refl, refl)
