-- ===== src/Rules/Builtin.antt =====
-- internal/rules/decision.go: `NewBuiltinChain`, the rules in the order in which they are asked.
pub mod Steps
pub mod Total
pub mod Admins
pub mod Messages
pub mod Gated
pub mod Confined
use authzmtls.Common.{List, [], ◌∷◌}
use authzmtls.Config.{Config}
use authzmtls.Rules.Admin.{AdminRule, admin_rule}
use authzmtls.Rules.Decision.{Rule}
use authzmtls.Rules.Gates.{host_network_rule, privileged_rule, docker_cp_rule, docker_exec_rule}
use authzmtls.Rules.Host.{Host}
use authzmtls.Rules.Mounts.{mount_rule, volume_rule}
use authzmtls.Rules.Sources.{Resolver}

module _ {S Node : Type 0} (host : Host) (cfg : Config Node) (ds : Resolver S) where
  -- `NewAdminRule(cfg.AdminUsers, cfg.AdminGroups, ds)`.
  abbrev pub admins : AdminRule
  admins = record { users = cfg.admin_users; groups = cfg.admin_groups }

  -- `NewBuiltinChain`.
  unfoldable pub builtin_chain : List (Rule S)
  builtin_chain =
      admin_rule host ds admins
      ∷ mount_rule host ds cfg.allowlist
      ∷ volume_rule host ds cfg.allowlist
      ∷ host_network_rule host cfg.checks.host_network
      ∷ privileged_rule host cfg.checks.privileged
      ∷ docker_cp_rule cfg.checks.docker_cp
      ∷ docker_exec_rule cfg.checks.docker_exec
      ∷ []
