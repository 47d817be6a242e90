-- ===== src/Config/Full/Laws.antt =====
-- Where the fields of a loaded configuration come from.
use authzmtls.Common.{
  ℤ, ◌≡◌, ◌≢◌, refl, sym, ap, subst, ◌∙◌, [], ◌∷◌, ◌++◌, Option, none, some, Bytes, codes, bytes_eq,
  Result, ok, wrapped-eq-ok, bind-eq-ok, ok-injective,
}
use authzmtls.Config.Files.{Files}
use authzmtls.Config.Full.{load_full}
use authzmtls.Config.Layers.{Yaml}
use authzmtls.Config.Load.{Loading, load}
use authzmtls.Config.Overrides.{
  FlagOverrides, or_set, or_flag, env_duration, flag_duration, with_env, with_flags, apply_env,
  apply_flags,
}
use authzmtls.Config.Validate.Laws.{IsValid, validate-eq-ok_iff}
use authzmtls.Config.{Config}
use authzmtls.GoStd.Fmt.{Fmt}

-- The flag, else the environment variable, even an empty one, else the files' value.
pub data Chosen (flag : Bytes) (env : Option Bytes) (file : Bytes) : Bytes → Type 0 where
  by_flag : flag ≢ [] → Chosen flag env file flag
  by_env : flag ≡ [] → (v : Bytes) → env ≡ some v → Chosen flag env file v
  by_file : flag ≡ [] → env ≡ none → Chosen flag env file file

-- The same for a duration, which has to be read from its text.
pub data ChosenDuration (parse : Bytes → Result ℤ) (flag : Bytes) (env : Option Bytes) (file : ℤ)
    : ℤ → Type 0 where
  by_flag : {d : ℤ} → flag ≢ [] → parse flag ≡ ok d → ChosenDuration parse flag env file d
  by_env :
      {d : ℤ}
      → flag ≡ []
      → (v : Bytes) → env ≡ some v
      → parse v ≡ ok d
      → ChosenDuration parse flag env file d
  by_file : flag ≡ [] → env ≡ none → ChosenDuration parse flag env file file

chosen :
    (flag : Bytes) (env : Option Bytes) (file : Bytes)
    → Chosen flag env file (or_flag flag (or_set env file))
unfolding bytes_eq
chosen [] none file = by_file refl refl
chosen [] (some v) file = by_env refl v refl
chosen (b ∷ flag) env file = by_flag (λ e. cc)

module _ (fmt : Fmt) (files : Files) where
  chosen_duration :
      (flag : Bytes) (env : Option Bytes) (file d d' : ℤ)
      → env_duration fmt files env file ≡ ok d
      → flag_duration fmt files flag d ≡ ok d'
      → ChosenDuration files.parse_duration flag env file d'
  unfolding bytes_eq
  chosen_duration (b ∷ flag) env file d d' h k =
      by_flag (λ e. cc)
        (wrapped-eq-ok
          (codes "config: invalid --decision-timeout=" ++ (fmt.quote (b ∷ flag) ++ codes ": ")) d' _
          k)
  chosen_duration [] none file d d' h k =
      subst (ChosenDuration files.parse_duration [] none file) (ok-injective file d' (h ∙ k))
        (by_file refl refl)
  chosen_duration [] (some v) file d d' h k = by_env refl v refl (
      wrapped-eq-ok (codes "config: AUTHZ_SERVER_DECISION_TIMEOUT=" ++ (fmt.quote v ++ codes ": "))
        d _ h
      ∙ k)

  -- What `ApplyEnv` and `ApplyFlags` make of the files' configuration.
  pub record Overridden {Node : Type 0} (o : FlagOverrides) (file cfg : Config Node) : Type 0 where
    pub level :
        Chosen o.logging_level
          (files.lookup_env (codes "AUTHZ_LOGGING_LEVEL"))
          file.logging_level
          cfg.logging_level
    pub listen_addr :
        Chosen o.listen_addr
          (files.lookup_env (codes "AUTHZ_SERVER_LISTEN_ADDR"))
          file.server.listen_addr
          cfg.server.listen_addr
    pub server_cert :
        Chosen o.server_cert
          (files.lookup_env (codes "AUTHZ_SERVER_CERT"))
          file.server.server_cert
          cfg.server.server_cert
    pub server_key :
        Chosen o.server_key
          (files.lookup_env (codes "AUTHZ_SERVER_KEY"))
          file.server.server_key
          cfg.server.server_key
    pub metrics_path :
        Chosen o.metrics_path
          (files.lookup_env (codes "AUTHZ_SERVER_METRICS_PATH"))
          file.server.metrics_path
          cfg.server.metrics_path
    pub decision_timeout :
        ChosenDuration files.parse_duration o.decision_timeout
          (files.lookup_env (codes "AUTHZ_SERVER_DECISION_TIMEOUT"))
          file.server.decision_timeout
          cfg.server.decision_timeout
    -- The policy is the files'.
    pub allowlist : cfg.allowlist ≡ file.allowlist
    pub datasources : cfg.datasources ≡ file.datasources
    pub checks : cfg.checks ≡ file.checks
    pub admin_users : cfg.admin_users ≡ file.admin_users
    pub admin_groups : cfg.admin_groups ≡ file.admin_groups

  -- The two overrides, with the durations that they read.
  with_flags-Overridden :
      {Node : Type 0} (o : FlagOverrides) (file : Config Node) (d d' : ℤ)
      → env_duration fmt files
          (files.lookup_env (codes "AUTHZ_SERVER_DECISION_TIMEOUT"))
          file.server.decision_timeout
        ≡ ok d
      → flag_duration fmt files o.decision_timeout d ≡ ok d'
      → Overridden o file (with_flags fmt files o d' (with_env fmt files d file))
  with_flags-Overridden o file d d' h k = record {
    level = chosen _ _ _;
    listen_addr = chosen _ _ _;
    server_cert = chosen _ _ _;
    server_key = chosen _ _ _;
    metrics_path = chosen _ _ _;
    decision_timeout = chosen_duration _ _ _ d d' h k;
    allowlist = refl;
    datasources = refl;
    checks = refl;
    admin_users = refl;
    admin_groups = refl;
  }

  apply_env-eq-ok :
      {Node : Type 0} (file cfg : Config Node)
      → apply_env fmt files file ≡ ok cfg
      → (d : ℤ) × (env_duration fmt files
            (files.lookup_env (codes "AUTHZ_SERVER_DECISION_TIMEOUT"))
            file.server.decision_timeout
          ≡ ok d)
        × (with_env fmt files d file ≡ cfg)
  unfolding apply_env
  apply_env-eq-ok file cfg h =
      let (d, e, f) =
        bind-eq-ok
          (env_duration fmt files (files.lookup_env (codes "AUTHZ_SERVER_DECISION_TIMEOUT"))
            file.server.decision_timeout)
          (λ d. ok (with_env fmt files d file)) h in
      (d, e, ok-injective _ cfg f)

  apply_flags-eq-ok :
      {Node : Type 0} (o : FlagOverrides) (between cfg : Config Node)
      → apply_flags fmt files o between ≡ ok cfg
      → (d : ℤ) × (flag_duration fmt files o.decision_timeout between.server.decision_timeout
          ≡ ok d)
        × (with_flags fmt files o d between ≡ cfg)
  unfolding apply_flags
  apply_flags-eq-ok o between cfg h =
      let (d, e, f) =
        bind-eq-ok (flag_duration fmt files o.decision_timeout between.server.decision_timeout)
          (λ d. ok (with_flags fmt files o d between)) h in
      (d, e, ok-injective _ cfg f)

  overrides-Overridden :
      {Node : Type 0} (o : FlagOverrides) (file between cfg : Config Node)
      → apply_env fmt files file ≡ ok between
      → apply_flags fmt files o between ≡ ok cfg
      → Overridden o file cfg
  overrides-Overridden o file between cfg h k =
      let (d, e, env) = apply_env-eq-ok file between h in
      let (d', f, flags) = apply_flags-eq-ok o between cfg k in
      let f' =
        subst (λ c. flag_duration fmt files o.decision_timeout c.server.decision_timeout ≡ ok d')
          (sym env) f in
      subst (Overridden o file) (ap (with_flags fmt files o d') env ∙ flags)
        (with_flags-Overridden o file d d' e f')

  -- A configuration that `LoadFull` returns is valid, and comes from the files of a load: the six
  -- settings that have a flag and a variable take the flag if it is set, else the variable if it is
  -- set, else the files' value, and the policy is the files'.
  pub load_full-Overridden :
      {Node : Type 0} (yaml : Yaml Node) (stat : Bytes → Option Bytes) (path : Bytes)
      (o : FlagOverrides) (cfg : Config Node)
      → load_full fmt files yaml stat path o ≡ ok cfg
      → IsValid fmt stat cfg
        × ((l : Loading Node) × (load yaml files path ≡ ok l) × Overridden o l.cfg cfg)
  unfolding load_full
  load_full-Overridden yaml stat path o cfg h =
      let (l, loaded, h₁) = bind-eq-ok (load yaml files path) _ h in
      let (between, env, h₂) = bind-eq-ok (apply_env fmt files l.cfg) _ h₁ in
      let (last, flags, h₃) = bind-eq-ok (apply_flags fmt files o between) _ h₂ in
      let (same, valid) = (validate-eq-ok_iff fmt stat last cfg).0 h₃ in
      let done = overrides-Overridden o l.cfg between last env flags in
      (subst (IsValid fmt stat) same valid, (l, loaded, subst (Overridden o l.cfg) same done))
