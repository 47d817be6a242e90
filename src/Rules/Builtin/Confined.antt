-- ===== src/Rules/Builtin/Confined.antt =====
-- What the built-in chain lets a caller who is no administrator reach of the host's directory tree.
use authzmtls.Common.{
  Any-append_left, Any-append_right, Elem, ◌≡◌, ◌≢◌, refl, ap, ◌∙◌, inl, inr, true, List, [], ◌∷◌,
  ◌++◌, Option, none, some, Bytes, arith, All, All-map, All-append, ok, Bool-cases,
}
use authzmtls.Config.{Config}
use authzmtls.DockerApi.{AuthzReq}
use authzmtls.GoStd.FilePath.{is_abs}
use authzmtls.Rules.Body.Asks.{Asks, binds-Mounts, volume_bind_device-BindsVolume}
use authzmtls.Rules.Body.{binds, volume_bind_device}
use authzmtls.Rules.Builtin.Admins.{IsAdmin}
use authzmtls.Rules.Builtin.Gated.{after_admins, not_admin}
use authzmtls.Rules.Builtin.Steps.{
  evaluate-passed, evaluate-decided, no_binds, no_volume, mount_rule-no_binds,
}
use authzmtls.Rules.Builtin.{admins, builtin_chain}
use authzmtls.Rules.Canonical.Laws.{IsUnix}
use authzmtls.Rules.Chain.Outcomes.{decide-denied}
use authzmtls.Rules.Chain.{Process, decide, evaluate}
use authzmtls.Rules.Decision.{Decision, Rule, deny}
use authzmtls.Rules.Gates.{host_network_rule, privileged_rule, docker_cp_rule, docker_exec_rule}
use authzmtls.Rules.Host.{Host, WaitsForAll}
use authzmtls.Rules.Matcher.{Matcher}
use authzmtls.Rules.Mounts.Laws.{
  Permitted, MountAnswer, nothing_asked, all_permitted, first_refused, mount_rule-MountAnswer,
  VolumeAnswer, not_a_bind, permitted, refused, volume_rule-VolumeAnswer,
}
use authzmtls.Rules.Mounts.Security.{Below, Permitted-Below, expand_all-is_abs}
use authzmtls.Rules.Mounts.{expand_all, resolve_matcher, mount_rule, volume_rule}
use authzmtls.Rules.Sources.{Resolver, resolve_vars}
use authzmtls.Rules.Uri.Laws.{kinds_exclusive}
use authzmtls.Rules.Uri.{is_container_create}

abbrev pub device_paths : Option Bytes → List Bytes
device_paths none = []
device_paths (some path) = path ∷ []

-- The host paths that `Binds` and `VolumeBindDevice` give.
abbrev pub host_paths : Host → AuthzReq → List Bytes
host_paths host req =
    binds host req.request_uri req.request_body
    ++ device_paths (volume_bind_device host req.request_uri req.request_body)

-- Among them are those that the request names.
pub host_paths-Asks :
    (host : Host) (req : AuthzReq) (path : Bytes)
    → Asks host req path
    → Elem path (host_paths host req)
host_paths-Asks host req path (inl mounts) =
    Any-append_left _ (binds host req.request_uri req.request_body)
      (device_paths (volume_bind_device host req.request_uri req.request_body))
      (binds-Mounts host req path mounts)
host_paths-Asks host req path (inr volume) =
    Any-append_right _ (binds host req.request_uri req.request_body)
      (device_paths (volume_bind_device host req.request_uri req.request_body))
      (rw (volume_bind_device-BindsVolume host req path volume) (inl refl))

binds-no_volume :
    (host : Host) (req : AuthzReq)
    → binds host req.request_uri req.request_body ≢ []
    → volume_bind_device host req.request_uri req.request_body ≡ none
binds-no_volume host req some_path =
    no_volume host req.request_uri req.request_body
      (elim (Bool-cases (is_container_create req.request_uri)) [
        | inl create ↦ ground (arith, kinds_exclusive req.request_method req.request_uri)
        | inr other ↦ absurd (some_path (no_binds host req.request_uri req.request_body other))
      ])

module _ {S Node : Type 0} (host : Host) (cfg : Config Node) (ds : Resolver S) (req : AuthzReq)
    (p : Process S) where
  -- The matcher of both rules, for a caller who is no administrator.
  abbrev matcher : Matcher
  matcher = (resolve_matcher ds req cfg.allowlist (after_admins host cfg ds req p.sources)).0

  never_denied :
      (msg : Bytes)
      → (evaluate (builtin_chain host cfg ds) req p.sources).0 ≡ ok (deny msg)
      → (decide (builtin_chain host cfg ds) req p).0.allow ≡ true
      → ⊥
  unfolding deny
  never_denied msg e h =
      cc (ap (λ a. a.allow) (decide-denied (builtin_chain host cfg ds) req p (deny msg) e refl), h)

  abbrev here : S
  here = after_admins host cfg ds req p.sources

  -- The chain behind the two rules on host paths.
  abbrev behind : List (Rule S)
  behind =
      host_network_rule host cfg.checks.host_network
      ∷ privileged_rule host cfg.checks.privileged
      ∷ docker_cp_rule cfg.checks.docker_cp
      ∷ docker_exec_rule cfg.checks.docker_exec
      ∷ []

  volume_refused :
      (msg : Bytes)
      → ¬ IsAdmin (admins host cfg ds) (resolve_vars ds req p.sources).0
      → binds host req.request_uri req.request_body ≡ []
      → (volume_rule host ds cfg.allowlist req here).0 ≡ ok (deny msg)
      → (decide (builtin_chain host cfg ds) req p).0.allow ≡ true
      → ⊥
  unfolding deny
  volume_refused msg other nothing e = never_denied msg (
      ap (λ x. x.0)
        (not_admin host cfg ds req p.sources other
          ∙ evaluate-passed (mount_rule host ds cfg.allowlist)
              (volume_rule host ds cfg.allowlist ∷ behind) req here
              (mount_rule-no_binds host ds req here cfg.allowlist nothing))
      ∙ evaluate-decided (volume_rule host ds cfg.allowlist) behind req here (deny msg) e refl)

  volume-Permitted :
      (d : Decision)
      → ¬ IsAdmin (admins host cfg ds) (resolve_vars ds req p.sources).0
      → binds host req.request_uri req.request_body ≡ []
      → (decide (builtin_chain host cfg ds) req p).0.allow ≡ true
      → (volume_rule host ds cfg.allowlist req here).0 ≡ ok d
      → VolumeAnswer host matcher (volume_bind_device host req.request_uri req.request_body) d
      → All
          (Permitted host matcher)
          (device_paths (volume_bind_device host req.request_uri req.request_body))
  volume-Permitted d other nothing allow e (not_a_bind no_device _) = rw no_device tt
  volume-Permitted d other nothing allow e (permitted path device k _) = rw device (k, tt)
  volume-Permitted d other nothing allow e (refused path _ _ denied) =
      absurd (volume_refused _ other nothing (e ∙ ap ok denied) allow)

  mounts-Permitted :
      (d : Decision)
      → ¬ IsAdmin (admins host cfg ds) (resolve_vars ds req p.sources).0
      → (decide (builtin_chain host cfg ds) req p).0.allow ≡ true
      → (mount_rule host ds cfg.allowlist req here).0 ≡ ok d
      → MountAnswer host matcher (binds host req.request_uri req.request_body) d
      → All (Permitted host matcher) (host_paths host req)
  unfolding deny
  mounts-Permitted d other allow e (nothing_asked nothing _) =
      let (v, ve, answer) = volume_rule-VolumeAnswer host ds cfg.allowlist req here in
      rw nothing (volume-Permitted v other nothing allow ve answer)
  mounts-Permitted d other allow e (all_permitted some_path all _) =
      rw (binds-no_volume host req some_path) (
        All-append (Permitted host matcher) (binds host req.request_uri req.request_body) [] all tt)
  mounts-Permitted d other allow e (first_refused _ path _ _ _ _ denied) = absurd (
      never_denied _
        (ap (λ x. x.0) (not_admin host cfg ds req p.sources other)
          ∙ evaluate-decided (mount_rule host ds cfg.allowlist)
              (volume_rule host ds cfg.allowlist ∷ behind) req here _ (e ∙ ap ok denied) refl)
        allow)

  -- If the built-in chain lets a request of a caller who is no administrator pass, then every path
  -- that `Binds` or `VolumeBindDevice` gives for the request leads, once symbolic links are resolved, to a place at or below an expansion of an allowlist entry, component by component.
  -- The entries are absolute; the working directory is absolute and resolving links keeps paths
  -- absolute; the group waits for all its goroutines.
  pub decide-Below :
      WaitsForAll host
      → IsUnix host
      → All (λ entry. is_abs entry ≡ true) cfg.allowlist
      → ¬ IsAdmin (admins host cfg ds) (resolve_vars ds req p.sources).0
      → (decide (builtin_chain host cfg ds) req p).0.allow ≡ true
      → All
          (Below host (expand_all cfg.allowlist (resolve_vars ds req here).0))
          (host_paths host req)
  unfolding resolve_matcher
  decide-Below waits unix absolute other allow =
      let (d, e, answer) = mount_rule-MountAnswer host ds cfg.allowlist req here waits in
      let vars = (resolve_vars ds req here).0 in
      All-map (Permitted host matcher) (Below host (expand_all cfg.allowlist vars))
        (λ path k.
          Permitted-Below host unix (expand_all cfg.allowlist vars) path
            (expand_all-is_abs cfg.allowlist vars absolute) k)
        (host_paths host req) (mounts-Permitted d other allow e answer)
