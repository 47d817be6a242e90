-- ===== src/Rules/Builtin/Steps.antt =====
-- One step of a chain, and what the rules answer to a request that does not concern them.
use authzmtls.Common.{◌≡◌, refl, true, false, List, [], ◌∷◌, none, Bytes, ok}
use authzmtls.Config.{CheckSetting}
use authzmtls.DockerApi.{AuthzReq}
use authzmtls.Rules.Body.{
  decode_host_config, binds, network_mode, privileged, decode_volume_create, volume_bind_device,
}
use authzmtls.Rules.Chain.{evaluate}
use authzmtls.Rules.Decision.{Decision, Rule, abstain}
use authzmtls.Rules.Gates.{host_network_rule, privileged_rule, docker_cp_rule, docker_exec_rule}
use authzmtls.Rules.Host.{Host}
use authzmtls.Rules.Mounts.{mount_rule, mount_paths, volume_rule, volume_device}
use authzmtls.Rules.Sources.{Resolver}
use authzmtls.Rules.Uri.{is_container_create, is_volume_create, is_docker_cp, is_docker_exec_create}
use authzmtls.Rules.Verdicts.{is_abstain}

module _ {S : Type 0} (r : Rule S) (rs : List (Rule S)) (req : AuthzReq) (s : S) where
  pub evaluate-passed :
      {t : S} → r req s ≡ (ok abstain, t) → evaluate (r ∷ rs) req s ≡ evaluate rs req t
  unfolding evaluate abstain
  evaluate-passed e = rw e

  pub evaluate-decided :
      (d : Decision)
      → (r req s).0 ≡ ok d
      → is_abstain d.verdict ≡ false
      → (evaluate (r ∷ rs) req s).0 ≡ ok d
  unfolding evaluate
  evaluate-decided d e h = rw (e, h)

  pub evaluate-abstained :
      (d : Decision)
      → (r req s).0 ≡ ok d
      → is_abstain d.verdict ≡ true
      → evaluate (r ∷ rs) req s ≡ evaluate rs req (r req s).1
  unfolding evaluate
  evaluate-abstained d e h = rw (e, h)

pub evaluate-nil : {S : Type 0} (req : AuthzReq) (s : S) → evaluate [] req s ≡ (ok abstain, s)
unfolding evaluate abstain
evaluate-nil req s = refl

module _ (host : Host) (uri body : Bytes) where
  pub no_host_config : is_container_create uri ≡ false → decode_host_config host uri body ≡ none
  unfolding decode_host_config
  no_host_config h = rw h

  pub no_volume : is_volume_create uri ≡ false → volume_bind_device host uri body ≡ none
  unfolding volume_bind_device decode_volume_create
  no_volume h = rw (h, volume_bind_device)

  pub no_binds : is_container_create uri ≡ false → binds host uri body ≡ []
  unfolding binds
  no_binds h = rw (no_host_config h, binds)

  no_network_mode : is_container_create uri ≡ false → network_mode host uri body ≡ none
  unfolding network_mode
  no_network_mode h = rw (no_host_config h, network_mode)

  no_privileged : is_container_create uri ≡ false → privileged host uri body ≡ none
  unfolding privileged
  no_privileged h = rw (no_host_config h, privileged)

module _ {S : Type 0} (host : Host) (ds : Resolver S) (req : AuthzReq) (s : S) where
  pub mount_rule-no_binds :
      (patterns : List Bytes)
      → binds host req.request_uri req.request_body ≡ []
      → mount_rule host ds patterns req s ≡ (ok abstain, s)
  unfolding mount_rule mount_paths
  mount_rule-no_binds patterns h = rw h

  pub volume_rule-no_device :
      (patterns : List Bytes)
      → volume_bind_device host req.request_uri req.request_body ≡ none
      → volume_rule host ds patterns req s ≡ (ok abstain, s)
  unfolding volume_rule volume_device
  volume_rule-no_device patterns h = rw h

  pub host_network_rule-no_create :
      (setting : CheckSetting)
      → is_container_create req.request_uri ≡ false
      → host_network_rule host setting req s ≡ (ok abstain, s)
  unfolding host_network_rule
  host_network_rule-no_create setting h =
      rw (no_network_mode host req.request_uri req.request_body h)

  pub privileged_rule-no_create :
      (setting : CheckSetting)
      → is_container_create req.request_uri ≡ false
      → privileged_rule host setting req s ≡ (ok abstain, s)
  unfolding privileged_rule
  privileged_rule-no_create setting h = rw (no_privileged host req.request_uri req.request_body h)

module _ {S : Type 0} (req : AuthzReq) (s : S) (setting : CheckSetting) where
  pub docker_cp_rule-other :
      is_docker_cp req.request_method req.request_uri ≡ false
      → docker_cp_rule setting req s ≡ (ok abstain, s)
  unfolding docker_cp_rule
  docker_cp_rule-other h = rw h

  pub docker_exec_rule-other :
      is_docker_exec_create req.request_method req.request_uri ≡ false
      → docker_exec_rule setting req s ≡ (ok abstain, s)
  unfolding docker_exec_rule
  docker_exec_rule-other h = rw h
