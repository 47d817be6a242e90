-- ===== src/Rules/Gates.antt =====
-- internal/rules/decision.go: the four gates, which are the same for every identity.
use authzmtls.Common.{
  Bool, false, not, Option, none, some, Bytes, codes, bytes_eq, ok, if◌then◌else◌,
}
use authzmtls.Config.{CheckSetting, check_deny}
use authzmtls.Rules.Body.{network_mode, privileged}
use authzmtls.Rules.Decision.{Decision, Rule, abstain, allow, deny}
use authzmtls.Rules.Host.{Host}
use authzmtls.Rules.Uri.{is_docker_cp, is_docker_exec_create}

-- The answer of a gate to a request that it concerns.
abbrev pub gate : CheckSetting → Bytes → Bytes → Decision
gate setting denied permitted = if bytes_eq setting check_deny then deny denied else allow permitted

-- `mode == "host"`, on a present field.
abbrev pub is_host_mode : Option Bytes → Bool
is_host_mode none = false
is_host_mode (some mode) = bytes_eq mode (codes "host")

abbrev pub is_set : Option Bool → Bool
is_set none = false
is_set (some b) = b

module _ {S : Type 0} where
  -- `HostNetworkRule.Evaluate`.
  unfoldable pub host_network_rule : Host → CheckSetting → Rule S
  host_network_rule host setting req s =
      if not (is_host_mode (network_mode host req.request_uri req.request_body))
      then (ok abstain, s)
      else (
        ok (
            gate setting (codes "host networking requested and denied by policy")
              (codes "host networking requested and permitted by policy")),
        s,
      )

  -- `PrivilegedRule.Evaluate`.
  unfoldable pub privileged_rule : Host → CheckSetting → Rule S
  privileged_rule host setting req s =
      if not (is_set (privileged host req.request_uri req.request_body)) then (ok abstain, s) else (
        ok (
            gate setting (codes "privileged mode requested and denied by policy")
              (codes "privileged mode requested and permitted by policy")),
        s,
      )

  -- `DockerCPRule.Evaluate`.
  unfoldable pub docker_cp_rule : CheckSetting → Rule S
  docker_cp_rule setting req s =
      if not (is_docker_cp req.request_method req.request_uri) then (ok abstain, s) else (
        ok (
            gate setting (codes "docker cp denied by policy")
              (codes "docker cp permitted by policy")),
        s,
      )

  -- `DockerExecRule.Evaluate`.
  unfoldable pub docker_exec_rule : CheckSetting → Rule S
  docker_exec_rule setting req s =
      if not (is_docker_exec_create req.request_method req.request_uri) then (ok abstain, s) else (
        ok (
            gate setting (codes "docker exec denied by policy")
              (codes "docker exec permitted by policy")),
        s,
      )
