-- ===== src/Rules/Mounts/Laws.antt =====
-- What `MountAllowlistRule` and `VolumeBindMountRule` answer.
use authzmtls.Common.{
  ◌≡◌, ◌≢◌, ◌↔◌, refl, ap, true, false, List, [], ◌∷◌, ◌++◌, map, Option, none, some, Bytes, arith,
  All, ok, Result-cases, Bool-cases, inl, inr, length,
}
use authzmtls.DockerApi.{AuthzReq}
use authzmtls.Rules.Body.{binds, volume_bind_device}
use authzmtls.Rules.Canonical.{canonicalize}
use authzmtls.Rules.Decision.{Decision, abstain, allow, deny}
use authzmtls.Rules.Host.{Host, WaitsForAll}
use authzmtls.Rules.Matcher.{Matcher, allowed}
use authzmtls.Rules.Mounts.Concurrent.{check_concurrently-map}
use authzmtls.Rules.Mounts.{
  resolve_matcher, first_not_allowed, mount_denied, mounts_allowed, device_denied, device_allowed,
  check_path, check_paths_concurrently, mount_decision, mount_paths, mount_rule, volume_device,
  volume_rule,
}
use authzmtls.Rules.Sources.{Resolver}

-- The path can be made canonical, and the matcher allows what it is then.
abbrev pub Permitted : Host → Matcher → Bytes → Type 0
Permitted host m path =
    (canon : Bytes) × (canonicalize host path ≡ ok canon) × (allowed m canon ≡ true)

module _ (host : Host) (m : Matcher) where
  pub check_path_iff : (path : Bytes) → (check_path host m path ≡ true) ↔ Permitted host m path
  unfolding check_path
  check_path_iff path = elim (Result-cases (canonicalize host path)) [
    | inl (canon, e) ↦
        (λ h. (canon, e, rw (e, check_path) at h), λ (c, e', h). rw (e', check_path) h)
    | inr (msg, e) ↦ (λ h. refuse (rw (e, check_path) at h), λ (c, e', h). cc)
  ]
    where
      refuse : false ≡ true → Permitted host m path
      refuse h = cc

  -- The mount rule's answer to the requested paths.
  pub data MountAnswer (paths : List Bytes) (d : Decision) : Type 0 where
    nothing_asked : paths ≡ [] → d ≡ abstain → MountAnswer paths d
    all_permitted :
        paths ≢ []
        → All (Permitted host m) paths
        → d ≡ allow (mounts_allowed paths)
        → MountAnswer paths d
    first_refused :
        (before : List Bytes) (path : Bytes) (after : List Bytes)
        → paths ≡ before ++ path ∷ after
        → All (Permitted host m) before
        → ¬ Permitted host m path
        → d ≡ deny (mount_denied path)
        → MountAnswer paths d

  -- What the walk over the flags finds.
  data Walk (paths : List Bytes) (o : Option Bytes) : Type 0 where
    none_refused : All (Permitted host m) paths → o ≡ none → Walk paths o
    refused :
        (before : List Bytes) (path : Bytes) (after : List Bytes)
        → paths ≡ before ++ path ∷ after
        → All (Permitted host m) before
        → ¬ Permitted host m path
        → o ≡ some path
        → Walk paths o

  Walk-cons :
      (p : Bytes) (ps : List Bytes) (o : Option Bytes)
      → Permitted host m p
      → Walk ps o
      → Walk (p ∷ ps) o
  Walk-cons p ps o h (none_refused k e) = none_refused (h, k) e
  Walk-cons p ps o h (refused before path after e k r f) =
      refused (p ∷ before) path after (ap (◌∷◌ p) e) (h, k) r f

  first_not_allowed-Walk :
      (paths : List Bytes) → Walk paths (first_not_allowed paths (map (check_path host m) paths))
  unfolding first_not_allowed
  first_not_allowed-Walk [] = none_refused tt refl
  first_not_allowed-Walk (p ∷ ps) = elim (Bool-cases (check_path host m p)) [
    | inl hit ↦ rw hit (Walk-cons p ps _ ((check_path_iff p).0 hit) (first_not_allowed-Walk ps))
    | inr miss ↦ rw miss (refused [] p ps refl tt (λ h. cc (miss, (check_path_iff p).1 h)) refl)
  ]

  mount_decision-MountAnswer :
      (paths : List Bytes) (o : Option Bytes)
      → paths ≢ []
      → Walk paths o
      → MountAnswer paths (mount_decision paths o)
  unfolding mount_decision
  mount_decision-MountAnswer paths o some_path (none_refused k e) = all_permitted some_path k (rw e)
  mount_decision-MountAnswer paths o some_path (refused before path after e k r f) =
      first_refused before path after e k r (rw f)

  check_paths-map :
      WaitsForAll host
      → (paths : List Bytes) → check_paths_concurrently host paths m ≡ map (check_path host m) paths
  unfolding check_paths_concurrently
  check_paths-map waits paths =
      check_concurrently-map host.schedule (check_path host m) paths (waits (length paths))

-- `MountAllowlistRule` abstains if the request mounts nothing, allows it if every path is permitted,
-- and else denies it, naming the first path that is not: in whatever order the checks finish. The
-- matcher is the one that `resolveMatcher` gives, and the rule never fails.
pub mount_rule-MountAnswer :
    (host : Host) {S : Type 0} (ds : Resolver S) (patterns : List Bytes) (req : AuthzReq) (s : S)
    → WaitsForAll host
    → (d : Decision) × ((mount_rule host ds patterns req s).0 ≡ ok d)
      × MountAnswer host
          (resolve_matcher ds req patterns s).0
          (binds host req.request_uri req.request_body)
          d
unfolding mount_rule mount_paths
mount_rule-MountAnswer host ds patterns req s waits =
    answer (binds host req.request_uri req.request_body)
  where
    m : Matcher
    m = (resolve_matcher ds req patterns s).0

    answer :
        (paths : List Bytes)
        → (d : Decision) × ((mount_paths host ds patterns req paths s).0 ≡ ok d)
          × MountAnswer host m paths d
    answer [] = (abstain, refl, nothing_asked refl refl)
    answer (p ∷ ps) = (
      mount_decision (p ∷ ps) (first_not_allowed (p ∷ ps) (map (check_path host m) (p ∷ ps))),
      ap (λ flags. ok (mount_decision (p ∷ ps) (first_not_allowed (p ∷ ps) flags)))
          (check_paths-map host m waits (p ∷ ps)),
      mount_decision-MountAnswer host m (p ∷ ps) _ (ground arith)
          (first_not_allowed-Walk host m (p ∷ ps)),
    )

-- The volume rule's answer to the device that is to be bound.
pub data VolumeAnswer (host : Host) (m : Matcher) (device : Option Bytes) (d : Decision)
    : Type 0 where
  not_a_bind : device ≡ none → d ≡ abstain → VolumeAnswer host m device d
  permitted :
      (path : Bytes)
      → device ≡ some path
      → Permitted host m path
      → d ≡ allow (device_allowed path)
      → VolumeAnswer host m device d
  refused :
      (path : Bytes)
      → device ≡ some path
      → ¬ Permitted host m path
      → d ≡ deny (device_denied path)
      → VolumeAnswer host m device d

pub volume_rule-VolumeAnswer :
    (host : Host) {S : Type 0} (ds : Resolver S) (patterns : List Bytes) (req : AuthzReq) (s : S)
    → (d : Decision) × ((volume_rule host ds patterns req s).0 ≡ ok d)
      × VolumeAnswer host
          (resolve_matcher ds req patterns s).0
          (volume_bind_device host req.request_uri req.request_body)
          d
unfolding volume_rule volume_device
volume_rule-VolumeAnswer host ds patterns req s =
    answer (volume_bind_device host req.request_uri req.request_body)
  where
    m : Matcher
    m = (resolve_matcher ds req patterns s).0

    answer :
        (device : Option Bytes)
        → (d : Decision) × ((volume_device host ds patterns req device s).0 ≡ ok d)
          × VolumeAnswer host m device d
    answer none = (abstain, refl, not_a_bind refl refl)
    answer (some path) = elim (Bool-cases (check_path host m path)) [
      | inl hit ↦ (
        allow (device_allowed path),
        rw hit,
        permitted path refl ((check_path_iff host m path).0 hit) refl,
      )
      | inr miss ↦ (
        deny (device_denied path),
        rw miss,
        refused path refl (λ h. cc (miss, (check_path_iff host m path).1 h)) refl,
      )
    ]
