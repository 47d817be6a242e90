-- ===== src/Config/Full.antt =====
-- internal/config/config.go: `LoadFull`.
pub mod Laws
use authzmtls.Common.{Option, Bytes, Result, ◌>>=◌}
use authzmtls.Config.Files.{Files}
use authzmtls.Config.Layers.{Yaml}
use authzmtls.Config.Load.{load}
use authzmtls.Config.Overrides.{FlagOverrides, apply_env, apply_flags}
use authzmtls.Config.Validate.{validate}
use authzmtls.Config.{Config}
use authzmtls.GoStd.Fmt.{Fmt}

module _ {Node : Type 0} (fmt : Fmt) (files : Files) where
  -- `LoadFull`; `stat` is `os.Stat`.
  unfoldable pub load_full :
      Yaml Node → (Bytes → Option Bytes) → Bytes → FlagOverrides → Result (Config Node)
  unfolding load apply_env apply_flags validate
  load_full yaml stat path overrides = load yaml files path >>= λ l.
      apply_env fmt files l.cfg >>= λ cfg.
      apply_flags fmt files overrides cfg >>= λ cfg'. validate fmt stat cfg'
