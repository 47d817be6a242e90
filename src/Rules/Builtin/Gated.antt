-- ===== src/Rules/Builtin/Gated.antt =====
-- Where in the chain a request is decided, for a caller who is no administrator.
use authzmtls.Common.{
  ◌≡◌, ◌≢◌, refl, ap, ◌∙◌, inl, inr, true, false, List, [], ◌∷◌, Bytes, codes, arith, All,
  All-of_append, subst, ok, bytes_eq,
}
use authzmtls.Config.{Config, check_deny}
use authzmtls.DockerApi.{AuthzReq}
use authzmtls.Rules.Admin.{admin_rule}
use authzmtls.Rules.Body.{binds}
use authzmtls.Rules.Builtin.Admins.{IsAdmin, admin_rule-Matched}
use authzmtls.Rules.Builtin.Steps.{
  evaluate-nil, evaluate-passed, evaluate-decided, evaluate-abstained, no_binds, no_volume,
  mount_rule-no_binds, volume_rule-no_device, host_network_rule-no_create,
  privileged_rule-no_create, docker_cp_rule-other, docker_exec_rule-other,
}
use authzmtls.Rules.Builtin.{admins, builtin_chain}
use authzmtls.Rules.Chain.Outcomes.{decide-allowed, decide-denied, decide-abstained}
use authzmtls.Rules.Chain.{Process, decide, evaluate}
use authzmtls.Rules.Decision.{Decision, Rule, abstain, allow, deny, prefix_identity}
use authzmtls.Rules.Gates.{host_network_rule, privileged_rule, docker_cp_rule, docker_exec_rule}
use authzmtls.Rules.Host.{Host, WaitsForAll}
use authzmtls.Rules.Matcher.{Matcher}
use authzmtls.Rules.Mounts.Laws.{
  Permitted, MountAnswer, nothing_asked, all_permitted, first_refused, mount_rule-MountAnswer,
}
use authzmtls.Rules.Mounts.{resolve_matcher, mounts_allowed, mount_rule, volume_rule}
use authzmtls.Rules.Sources.{Resolver, resolve_vars}
use authzmtls.Rules.Uri.Laws.{kinds_exclusive}
use authzmtls.Rules.Uri.{is_container_create, is_volume_create, is_docker_cp, is_docker_exec_create}

module _ {S Node : Type 0} (host : Host) (cfg : Config Node) (ds : Resolver S)
    (req : AuthzReq) where
  -- What the datasources hold once the bypass has asked them.
  abbrev pub after_admins : S → S
  after_admins s = (admin_rule host ds (admins host cfg ds) req s).1

  -- The chain behind the bypass.
  abbrev pub gates : List (Rule S)
  gates =
      mount_rule host ds cfg.allowlist
      ∷ volume_rule host ds cfg.allowlist
      ∷ host_network_rule host cfg.checks.host_network
      ∷ privileged_rule host cfg.checks.privileged
      ∷ docker_cp_rule cfg.checks.docker_cp
      ∷ docker_exec_rule cfg.checks.docker_exec
      ∷ []

  pub not_admin :
      (s : S)
      → ¬ IsAdmin (admins host cfg ds) (resolve_vars ds req s).0
      → evaluate (builtin_chain host cfg ds) req s ≡ evaluate gates req (after_admins s)
  unfolding builtin_chain abstain
  not_admin s h =
      let (d, e, answer) = admin_rule-Matched host ds (admins host cfg ds) req s in
      elim answer [
        | inl (k, _, _) ↦ absurd (h k)
        | inr (_, same) ↦ evaluate-abstained _ gates req s d e (rw same)
      ]

  -- A request that creates no container and no volume passes the first five rules.
  no_create :
      (s : S)
      → is_container_create req.request_uri ≡ false
      → is_volume_create req.request_uri ≡ false
      → evaluate gates req s
        ≡ evaluate
            (docker_cp_rule cfg.checks.docker_cp ∷ docker_exec_rule cfg.checks.docker_exec ∷ [])
            req
            s
  no_create s c v =
      evaluate-passed (mount_rule host ds cfg.allowlist) _ req s (
        mount_rule-no_binds host ds req s cfg.allowlist
          (no_binds host req.request_uri req.request_body c))
      ∙ (evaluate-passed (volume_rule host ds cfg.allowlist) _ req s (
            volume_rule-no_device host ds req s cfg.allowlist
              (no_volume host req.request_uri req.request_body v))
          ∙ (evaluate-passed (host_network_rule host cfg.checks.host_network) _ req s
                (host_network_rule-no_create host ds req s cfg.checks.host_network c)
              ∙ evaluate-passed (privileged_rule host cfg.checks.privileged) _ req s
                  (privileged_rule-no_create host ds req s cfg.checks.privileged c)))

-- A request that is none of the four kinds that the rules tell apart passes: unless its sender is
-- an administrator, it is allowed with no message, nothing is logged and nothing counted.
pub decide-unconcerned :
    {S Node : Type 0} (host : Host) (cfg : Config Node) (ds : Resolver S) (req : AuthzReq)
    (p : Process S)
    → ¬ IsAdmin (admins host cfg ds) (resolve_vars ds req p.sources).0
    → is_container_create req.request_uri ≡ false
    → is_volume_create req.request_uri ≡ false
    → is_docker_cp req.request_method req.request_uri ≡ false
    → is_docker_exec_create req.request_method req.request_uri ≡ false
    → decide (builtin_chain host cfg ds) req p ≡ (
      record { allow = true; msg = [] },
      record p { sources = after_admins host cfg ds req p.sources },
    )
decide-unconcerned host cfg ds req p other c v cp exec =
    let s = after_admins host cfg ds req p.sources in
    decide-abstained (builtin_chain host cfg ds) req p (
      not_admin host cfg ds req p.sources other
      ∙ (no_create host cfg ds req s c v
          ∙ (evaluate-passed (docker_cp_rule cfg.checks.docker_cp)
                (docker_exec_rule cfg.checks.docker_exec ∷ []) req s
                (docker_cp_rule-other req s cfg.checks.docker_cp cp)
              ∙ (evaluate-passed (docker_exec_rule cfg.checks.docker_exec) [] req s
                    (docker_exec_rule-other req s cfg.checks.docker_exec exec)
                  ∙ evaluate-nil req s))))

MountAnswer-Permitted :
    (host : Host) (m : Matcher) (paths : List Bytes) (d : Decision)
    → paths ≢ []
    → All (Permitted host m) paths
    → MountAnswer host m paths d
    → d ≡ allow (mounts_allowed paths)
MountAnswer-Permitted host m paths d some_path k (nothing_asked e _) = absurd (some_path e)
MountAnswer-Permitted host m paths d some_path k (all_permitted _ _ e) = e
MountAnswer-Permitted host m paths d some_path k (first_refused before path after e _ r _) =
    absurd (
      r
        (All-of_append (Permitted host m) before (path ∷ after)
          (subst (All (Permitted host m)) e k)).1.0)

docker_exec_rule-denied :
    {S : Type 0} (req : AuthzReq) (s : S)
    → is_docker_exec_create req.request_method req.request_uri ≡ true
    → (docker_exec_rule check_deny req s).0 ≡ ok (deny (codes "docker exec denied by policy"))
unfolding docker_exec_rule bytes_eq
docker_exec_rule-denied req s h = rw h

docker_cp_rule-denied :
    {S : Type 0} (req : AuthzReq) (s : S)
    → is_docker_cp req.request_method req.request_uri ≡ true
    → (docker_cp_rule check_deny req s).0 ≡ ok (deny (codes "docker cp denied by policy"))
unfolding docker_cp_rule bytes_eq
docker_cp_rule-denied req s h = rw h

docker_exec_rule-no_other :
    (req : AuthzReq)
    → is_docker_exec_create req.request_method req.request_uri ≡ true
    → (is_container_create req.request_uri ≡ false)
      × (is_volume_create req.request_uri ≡ false)
      × (is_docker_cp req.request_method req.request_uri ≡ false)
docker_exec_rule-no_other req h = ground (arith, kinds_exclusive req.request_method req.request_uri)

docker_cp_rule-no_other :
    (req : AuthzReq)
    → is_docker_cp req.request_method req.request_uri ≡ true
    → (is_container_create req.request_uri ≡ false) × (is_volume_create req.request_uri ≡ false)
docker_cp_rule-no_other req h = ground (arith, kinds_exclusive req.request_method req.request_uri)

-- With `checks.docker_exec: deny`, nobody but an administrator can create an exec instance.
pub decide-docker_exec_denied :
    {S Node : Type 0} (host : Host) (cfg : Config Node) (ds : Resolver S) (req : AuthzReq)
    (p : Process S)
    → ¬ IsAdmin (admins host cfg ds) (resolve_vars ds req p.sources).0
    → is_docker_exec_create req.request_method req.request_uri ≡ true
    → cfg.checks.docker_exec ≡ check_deny
    → (decide (builtin_chain host cfg ds) req p).0 ≡ record {
      allow = false;
      msg = prefix_identity req.user (codes "docker exec denied by policy");
    }
unfolding deny
decide-docker_exec_denied host cfg ds req p other h setting =
    let s = after_admins host cfg ds req p.sources in
    let (c, v, cp) = docker_exec_rule-no_other req h in
    decide-denied (builtin_chain host cfg ds) req p (deny (codes "docker exec denied by policy"))
      (ap (λ x. x.0)
          (not_admin host cfg ds req p.sources other
            ∙ (no_create host cfg ds req s c v
                ∙ evaluate-passed (docker_cp_rule cfg.checks.docker_cp) _ req s
                    (docker_cp_rule-other req s cfg.checks.docker_cp cp)))
        ∙ evaluate-decided (docker_exec_rule cfg.checks.docker_exec) [] req s
            (deny (codes "docker exec denied by policy"))
            (rw setting (docker_exec_rule-denied req s h)) refl)
      refl

-- With `checks.docker_cp: deny`, nobody but an administrator can copy files.
pub decide-docker_cp_denied :
    {S Node : Type 0} (host : Host) (cfg : Config Node) (ds : Resolver S) (req : AuthzReq)
    (p : Process S)
    → ¬ IsAdmin (admins host cfg ds) (resolve_vars ds req p.sources).0
    → is_docker_cp req.request_method req.request_uri ≡ true
    → cfg.checks.docker_cp ≡ check_deny
    → (decide (builtin_chain host cfg ds) req p).0 ≡ record {
      allow = false;
      msg = prefix_identity req.user (codes "docker cp denied by policy");
    }
unfolding deny
decide-docker_cp_denied host cfg ds req p other h setting =
    let s = after_admins host cfg ds req p.sources in
    let (c, v) = docker_cp_rule-no_other req h in
    decide-denied (builtin_chain host cfg ds) req p (deny (codes "docker cp denied by policy"))
      (ap (λ x. x.0) (not_admin host cfg ds req p.sources other ∙ no_create host cfg ds req s c v)
        ∙ evaluate-decided (docker_cp_rule cfg.checks.docker_cp) _ req s
            (deny (codes "docker cp denied by policy")) (rw setting (docker_cp_rule-denied req s h))
            refl)
      refl

-- A container is created whenever its sender may have every path that it mounts, if it mounts any
-- at all: whatever the checks on host networking and privileged mode are set to, and
-- whether or not the request asks for these.
pub decide-mounts_allowed :
    {S Node : Type 0} (host : Host) (cfg : Config Node) (ds : Resolver S) (req : AuthzReq)
    (p : Process S)
    → WaitsForAll host
    → ¬ IsAdmin (admins host cfg ds) (resolve_vars ds req p.sources).0
    → binds host req.request_uri req.request_body ≢ []
    → All
        (Permitted host
          (resolve_matcher ds req cfg.allowlist (after_admins host cfg ds req p.sources)).0)
        (binds host req.request_uri req.request_body)
    → (decide (builtin_chain host cfg ds) req p).0
      ≡ record { allow = true; msg = mounts_allowed (binds host req.request_uri req.request_body) }
unfolding allow
decide-mounts_allowed host cfg ds req p waits other some_path permitted =
    let s = after_admins host cfg ds req p.sources in
    let (d, e, answer) = mount_rule-MountAnswer host ds cfg.allowlist req s waits in
    let same = MountAnswer-Permitted host _ _ d some_path permitted answer in
    decide-allowed (builtin_chain host cfg ds) req p
      (allow (mounts_allowed (binds host req.request_uri req.request_body)))
      (ap (λ x. x.0) (not_admin host cfg ds req p.sources other)
        ∙ evaluate-decided (mount_rule host ds cfg.allowlist) _ req s
            (allow (mounts_allowed (binds host req.request_uri req.request_body))) (e ∙ ap ok same)
            refl)
      refl
