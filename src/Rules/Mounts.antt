-- ===== src/Rules/Mounts.antt =====
-- internal/rules/mounts.go: `MountAllowlistRule` and `VolumeBindMountRule`.
pub mod Concurrent
pub mod Laws
pub mod Security
use authzmtls.Common.{
  ℕ, Bool, true, false, not, List, [], ◌∷◌, ◌++◌, Option, none, some, Bytes, codes, Result, ok,
  fail, if◌then◌else◌,
}
use authzmtls.GoStd.Strings.{join}
use authzmtls.DockerApi.{AuthzReq}
use authzmtls.Rules.Body.{binds, volume_bind_device}
use authzmtls.Rules.Canonical.{canonicalize}
use authzmtls.Rules.Decision.{Decision, Rule, abstain, allow, deny}
use authzmtls.Rules.Expand.{VarMap, expand}
use authzmtls.Rules.Host.{Host}
use authzmtls.Rules.Matcher.{Matcher, new_matcher, allowed}
use authzmtls.Rules.Mounts.Concurrent.{check_concurrently}
use authzmtls.Rules.Sources.{Resolver, resolve_vars}

-- The loop of `resolveMatcher`.
unfoldable pub expand_all : List Bytes → VarMap → List Bytes
expand_all [] vars = []
expand_all (pattern ∷ patterns) vars = expand pattern vars ++ expand_all patterns vars

-- `resolveMatcher`.
unfoldable pub resolve_matcher : {S : Type 0} → Resolver S → AuthzReq → List Bytes → S → Matcher × S
resolve_matcher ds req patterns s =
    let (vars, s') = resolve_vars ds req s in (new_matcher (expand_all patterns vars), s')

-- The loop of `MountAllowlistRule.Evaluate` over `allowedFor`.
unfoldable pub first_not_allowed : List Bytes → List Bool → Option Bytes
first_not_allowed [] flags = none
first_not_allowed (p ∷ ps) [] = none
first_not_allowed (p ∷ ps) (flag ∷ flags) = if not flag then some p else first_not_allowed ps flags

abbrev pub mount_denied : Bytes → Bytes
mount_denied path = codes "mount path " ++ (path ++ codes " not allowed")

abbrev pub mounts_allowed : List Bytes → Bytes
mounts_allowed paths = codes "mount path(s) " ++ (join (codes ", ") paths ++ codes " allowed")

abbrev pub device_denied : Bytes → Bytes
device_denied device =
    codes "volume-create bind-mount device " ++ (device ++ codes " not in allowlist")

abbrev pub device_allowed : Bytes → Bytes
device_allowed device = codes "volume-create bind-mount device " ++ (device ++ codes " allowed")

-- The end of `MountAllowlistRule.Evaluate`, given the first path that is not allowed.
unfoldable pub mount_decision : List Bytes → Option Bytes → Decision
mount_decision paths (some path) = deny (mount_denied path)
mount_decision paths none = allow (mounts_allowed paths)

module _ (host : Host) where
  -- The body of one goroutine; also the check of `VolumeBindMountRule`.
  unfoldable pub check_path : Matcher → Bytes → Bool
  check_path m path = elim (canonicalize host path) [ fail e ↦ false | ok canon ↦ allowed m canon ]

  -- `checkPathsConcurrently`.
  unfoldable pub check_paths_concurrently : List Bytes → Matcher → List Bool
  check_paths_concurrently paths m = check_concurrently host.schedule (check_path m) paths

  module _ {S : Type 0} (ds : Resolver S) where
    unfoldable pub mount_paths : List Bytes → AuthzReq → List Bytes → S → Result Decision × S
    mount_paths patterns req [] s = (ok abstain, s)
    mount_paths patterns req (p ∷ ps) s =
        let (m, s') = resolve_matcher ds req patterns s in
        let flags = check_paths_concurrently (p ∷ ps) m in
        (ok (mount_decision (p ∷ ps) (first_not_allowed (p ∷ ps) flags)), s')

    -- `MountAllowlistRule.Evaluate`.
    unfoldable pub mount_rule : List Bytes → Rule S
    mount_rule patterns req s =
        mount_paths patterns req (binds host req.request_uri req.request_body) s

    unfoldable pub volume_device : List Bytes → AuthzReq → Option Bytes → S → Result Decision × S
    volume_device patterns req none s = (ok abstain, s)
    volume_device patterns req (some device) s =
        let (m, s') = resolve_matcher ds req patterns s in
        if not (check_path m device)
        then (ok (deny (device_denied device)), s')
        else (ok (allow (device_allowed device)), s')

    -- `VolumeBindMountRule.Evaluate`.
    unfoldable pub volume_rule : List Bytes → Rule S
    volume_rule patterns req s =
        volume_device patterns req (volume_bind_device host req.request_uri req.request_body) s
