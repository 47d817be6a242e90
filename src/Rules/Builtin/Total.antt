-- ===== src/Rules/Builtin/Total.antt =====
-- None of the built-in rules fails.
use authzmtls.Common.{
  ◌≡◌, refl, inl, inr, Bool, Bool-cases, true, false, not, List, [], ◌∷◌, Bytes, All, Result, ok,
  if◌then◌else◌,
}
use authzmtls.Config.{Config, CheckSetting}
use authzmtls.DockerApi.{AuthzReq}
use authzmtls.Rules.Body.{network_mode, privileged, binds}
use authzmtls.Rules.Builtin.Admins.{admin_rule-Matched}
use authzmtls.Rules.Builtin.{admins, builtin_chain}
use authzmtls.Rules.Chain.{evaluate, first_decided}
use authzmtls.Rules.Decision.{Decision, Rule, abstain}
use authzmtls.Rules.Gates.{
  is_host_mode, is_set, host_network_rule, privileged_rule, docker_cp_rule, docker_exec_rule,
}
use authzmtls.Rules.Host.{Host}
use authzmtls.Rules.Mounts.Laws.{volume_rule-VolumeAnswer}
use authzmtls.Rules.Mounts.{mount_rule, mount_paths, volume_rule}
use authzmtls.Rules.Sources.{Resolver}
use authzmtls.Rules.Uri.{is_docker_cp, is_docker_exec_create}
use authzmtls.Rules.Verdicts.{is_abstain}

abbrev Gives : Result Decision → Type 0
Gives result = (d : Decision) × (result ≡ ok d)

abbrev Total : {S : Type 0} → Rule S → Type 0
Total {S} r = (req : AuthzReq) (s : S) → Gives (r req s).0

first_decided-Gives :
    {S : Type 0} (d : Decision) (s : S) (later : Result Decision × S)
    → Gives later.0
    → Gives (first_decided (ok d) s later).0
first_decided-Gives d s later h = elim (Bool-cases (is_abstain d.verdict)) [
  | inl yields ↦ rw yields h
  | inr decides ↦ rw decides (d, refl)
]

evaluate-Total : {S : Type 0} (rules : List (Rule S)) → All Total rules → Total (evaluate rules)
unfolding evaluate
evaluate-Total [] h req s = (abstain, refl)
evaluate-Total (r ∷ rs) h req s =
    let (d, e) = h.0 req s in
    rw e (first_decided-Gives d _ _ (evaluate-Total rs h.1 req (r req s).1))

abbrev pub gated : {S : Type 0} → Bool → Decision → S → Result Decision × S
gated asked d s = if not asked then (ok abstain, s) else (ok d, s)

gated-Gives : {S : Type 0} (asked : Bool) (d : Decision) (s : S) → Gives (gated asked d s).0
gated-Gives true d s = (d, refl)
gated-Gives false d s = (abstain, refl)

module _ {S : Type 0} (host : Host) (setting : CheckSetting) where
  host_network_rule-Total : Total {S = S} (host_network_rule host setting)
  unfolding host_network_rule
  host_network_rule-Total req s =
      gated-Gives (is_host_mode (network_mode host req.request_uri req.request_body)) _ s

  privileged_rule-Total : Total {S = S} (privileged_rule host setting)
  unfolding privileged_rule
  privileged_rule-Total req s =
      gated-Gives (is_set (privileged host req.request_uri req.request_body)) _ s

  docker_cp_rule-Total : Total {S = S} (docker_cp_rule setting)
  unfolding docker_cp_rule
  docker_cp_rule-Total req s = gated-Gives (is_docker_cp req.request_method req.request_uri) _ s

  docker_exec_rule-Total : Total {S = S} (docker_exec_rule setting)
  unfolding docker_exec_rule
  docker_exec_rule-Total req s =
      gated-Gives (is_docker_exec_create req.request_method req.request_uri) _ s

module _ {S : Type 0} (host : Host) (ds : Resolver S) (patterns : List Bytes) where
  mount_rule-Total : Total (mount_rule host ds patterns)
  unfolding mount_rule mount_paths
  mount_rule-Total req s = given (binds host req.request_uri req.request_body)
    where
      given : (paths : List Bytes) → Gives (mount_paths host ds patterns req paths s).0
      given [] = (abstain, refl)
      given (p ∷ ps) = (_, refl)

  volume_rule-Total : Total (volume_rule host ds patterns)
  volume_rule-Total req s =
      let (d, e, _) = volume_rule-VolumeAnswer host ds patterns req s in (d, e)

-- The built-in chain comes to a decision on every request: its evaluation never fails, whatever the
-- body holds, the datasources resolve and the file system answers.
pub builtin_chain-Total :
    {S Node : Type 0} (host : Host) (cfg : Config Node) (ds : Resolver S) (req : AuthzReq) (s : S)
    → (d : Decision) × ((evaluate (builtin_chain host cfg ds) req s).0 ≡ ok d)
unfolding builtin_chain
builtin_chain-Total host cfg ds = evaluate-Total _ (
  (λ req s. let (d, e, _) = admin_rule-Matched host ds (admins host cfg ds) req s in (d, e)),
  (
    mount_rule-Total host ds cfg.allowlist,
    (
      volume_rule-Total host ds cfg.allowlist,
      (
        host_network_rule-Total host cfg.checks.host_network,
        (
          privileged_rule-Total host cfg.checks.privileged,
          (
            docker_cp_rule-Total host cfg.checks.docker_cp,
            (docker_exec_rule-Total host cfg.checks.docker_exec, tt),
          ),
        ),
      ),
    ),
  ),
)
