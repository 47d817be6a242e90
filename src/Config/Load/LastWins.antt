-- ===== src/Config/Load/LastWins.antt =====
-- What a load gives a scalar field.
use authzmtls.Common.{pos, ◌≡◌, Bool, List, ◌∷◌, Bytes, codes, ok}
use authzmtls.Config.Files.{Files}
use authzmtls.Config.Layers.{Yaml}
use authzmtls.Config.Load.Allowlist.{ConfDir, layers_of}
use authzmtls.Config.Load.{
  Loading, zero_config, or_default, or_duration, apply_defaults, merge_dir_entries, in_conf_dir,
}
use authzmtls.Config.Load.Scalars.{value_or, last_given}
use authzmtls.Config.{Config, check_allow}

module _ {Node : Type 0} (yaml : Yaml Node) (files : Files) where
  -- The steps of a load that succeeds.
  record Loaded (path : Bytes) (l : Loading Node) (dir : Bytes) (entries : List (Bytes × Bool))
      : Type 0 where
    conf : ConfDir yaml files path dir entries
    merged : Loading Node
    rest : merge_dir_entries yaml files dir entries (in_conf_dir path conf.first) ≡ ok merged
    done : apply_defaults merged.cfg ≡ l.cfg

  module _ (path : Bytes) (l : Loading Node) (dir : Bytes) (entries : List (Bytes × Bool)) where
    -- The last value given for a field by config.yaml and the files of conf.d, or its zero value.
    abbrev pub last_value : {A : Type 0} → Bytes → (Config Node → A) → A
    last_value key f =
        value_or (f zero_config)
          (last_given yaml files key f (path ∷ layers_of yaml files dir entries))

    -- Every scalar field has its last value, and a default in place of an empty one.
    pub record LastWins : Type 0 where
      pub logging_level :
          l.cfg.logging_level
          ≡ or_default (last_value (codes "logging_level") (λ c. c.logging_level)) (codes "info")
      pub listen_addr :
          l.cfg.server.listen_addr
          ≡ or_default
              (last_value (codes "server.listen_addr") (λ c. c.server.listen_addr))
              (codes ":80")
      pub server_cert :
          l.cfg.server.server_cert
          ≡ last_value (codes "server.server_cert") (λ c. c.server.server_cert)
      pub server_key :
          l.cfg.server.server_key
          ≡ last_value (codes "server.server_key") (λ c. c.server.server_key)
      pub metrics_path :
          l.cfg.server.metrics_path
          ≡ or_default
              (last_value (codes "server.metrics_path") (λ c. c.server.metrics_path))
              (codes "/metrics")
      pub decision_timeout :
          l.cfg.server.decision_timeout
          ≡ or_duration
              (last_value (codes "server.decision_timeout") (λ c. c.server.decision_timeout))
              (pos 2000000000)
      pub host_network :
          l.cfg.checks.host_network
          ≡ or_default
              (last_value (codes "checks.host_network") (λ c. c.checks.host_network))
              check_allow
      pub privileged :
          l.cfg.checks.privileged
          ≡ or_default
              (last_value (codes "checks.privileged") (λ c. c.checks.privileged))
              check_allow
      pub docker_cp :
          l.cfg.checks.docker_cp
          ≡ or_default (last_value (codes "checks.docker_cp") (λ c. c.checks.docker_cp)) check_allow
      pub docker_exec :
          l.cfg.checks.docker_exec
          ≡ or_default
              (last_value (codes "checks.docker_exec") (λ c. c.checks.docker_exec))
              check_allow
