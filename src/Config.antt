-- ===== src/Config.antt =====
-- internal/config/config.go: the configuration schema.
pub mod Layers
pub mod Merge
pub mod Files
pub mod Load
pub mod Overrides
pub mod Validate
pub mod Full
pub mod Decode
use authzmtls.Common.{ℤ, Bool, ◌||◌, List, Bytes, codes, bytes_eq}

-- `CheckSetting`, a string.
abbrev pub CheckSetting : Type 0
CheckSetting = Bytes

abbrev pub check_allow : CheckSetting
check_allow = codes "allow"

abbrev pub check_deny : CheckSetting
check_deny = codes "deny"

-- `CheckSetting.valid`.
unfoldable pub check_valid : CheckSetting → Bool
unfolding bytes_eq
check_valid c = bytes_eq c check_allow || bytes_eq c check_deny

pub record ChecksConfig : Type 0 where
  pub host_network : CheckSetting
  pub privileged : CheckSetting
  pub docker_cp : CheckSetting
  pub docker_exec : CheckSetting

pub record ServerConfig : Type 0 where
  pub listen_addr : Bytes
  pub server_cert : Bytes
  pub server_key : Bytes
  pub metrics_path : Bytes
  -- In nanoseconds; a `time.Duration` may be negative.
  pub decision_timeout : ℤ

-- `Node` is `yaml.Node`, which only a provider reads.
pub record DatasourceConfig (Node : Type 0) : Type 0 where
  pub name : Bytes
  pub kind : Bytes
  pub cache_ttl : ℤ
  pub raw : Node

pub record Config (Node : Type 0) : Type 0 where
  pub logging_level : Bytes
  pub server : ServerConfig
  pub allowlist : List Bytes
  pub datasources : List (DatasourceConfig Node)
  pub checks : ChecksConfig
  pub admin_users : List Bytes
  pub admin_groups : List Bytes
  pub config_dir : Bytes
