-- ===== src/Config/Overrides.antt =====
-- internal/config/config.go: `ApplyEnv` and `ApplyFlags`.
use authzmtls.Common.{
  ℤ, not, [], ◌++◌, Option, none, some, Bytes, codes, bytes_eq, Result, ok, wrapped, ◌>>=◌,
  if◌then◌else◌,
}
use authzmtls.Config.Files.{Files}
use authzmtls.Config.{Config}
use authzmtls.GoStd.Fmt.{Fmt}

-- `FlagOverrides`; an empty string is a flag that is not set.
pub record FlagOverrides : Type 0 where
  pub logging_level : Bytes
  pub listen_addr : Bytes
  pub server_cert : Bytes
  pub server_key : Bytes
  pub metrics_path : Bytes
  pub decision_timeout : Bytes

-- The value of a variable that is set, even to the empty string.
abbrev pub or_set : Option Bytes → Bytes → Bytes
or_set none value = value
or_set (some v) value = v

abbrev pub or_flag : Bytes → Bytes → Bytes
or_flag flag value = if not (bytes_eq flag []) then flag else value

module _ (fmt : Fmt) (files : Files) where
  abbrev pub env_duration : Option Bytes → ℤ → Result ℤ
  env_duration none value = ok value
  env_duration (some v) value =
      wrapped (codes "config: AUTHZ_SERVER_DECISION_TIMEOUT=" ++ (fmt.quote v ++ codes ": "))
        (files.parse_duration v)

  abbrev pub env_value : Bytes → Bytes → Bytes
  env_value name value = or_set (files.lookup_env name) value

  abbrev pub with_env : {Node : Type 0} → ℤ → Config Node → Config Node
  with_env timeout cfg = record cfg {
    logging_level = env_value (codes "AUTHZ_LOGGING_LEVEL") cfg.logging_level;
    server = record {
      listen_addr = env_value (codes "AUTHZ_SERVER_LISTEN_ADDR") cfg.server.listen_addr;
      server_cert = env_value (codes "AUTHZ_SERVER_CERT") cfg.server.server_cert;
      server_key = env_value (codes "AUTHZ_SERVER_KEY") cfg.server.server_key;
      metrics_path = env_value (codes "AUTHZ_SERVER_METRICS_PATH") cfg.server.metrics_path;
      decision_timeout = timeout;
    };
  }

  -- `ApplyEnv`.
  unfoldable pub apply_env : {Node : Type 0} → Config Node → Result (Config Node)
  apply_env cfg =
      env_duration (files.lookup_env (codes "AUTHZ_SERVER_DECISION_TIMEOUT"))
        cfg.server.decision_timeout
      >>= λ timeout. ok (with_env timeout cfg)

  abbrev pub flag_duration : Bytes → ℤ → Result ℤ
  flag_duration flag value =
      if not (bytes_eq flag [])
      then wrapped (codes "config: invalid --decision-timeout=" ++ (fmt.quote flag ++ codes ": "))
          (files.parse_duration flag)
      else ok value

  abbrev pub with_flags : {Node : Type 0} → FlagOverrides → ℤ → Config Node → Config Node
  with_flags o timeout cfg = record cfg {
    logging_level = or_flag o.logging_level cfg.logging_level;
    server = record {
      listen_addr = or_flag o.listen_addr cfg.server.listen_addr;
      server_cert = or_flag o.server_cert cfg.server.server_cert;
      server_key = or_flag o.server_key cfg.server.server_key;
      metrics_path = or_flag o.metrics_path cfg.server.metrics_path;
      decision_timeout = timeout;
    };
  }

  -- `ApplyFlags`.
  unfoldable pub apply_flags : {Node : Type 0} → FlagOverrides → Config Node → Result (Config Node)
  unfolding bytes_eq
  apply_flags o cfg = flag_duration o.decision_timeout cfg.server.decision_timeout >>= λ timeout.
      ok (with_flags o timeout cfg)
