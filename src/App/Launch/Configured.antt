-- ===== src/App/Launch/Configured.antt =====
-- What a startup that succeeds makes of the command line, the environment and the files.
use authzmtls.App.Laws.{start-Serving, start-loaded}
use authzmtls.App.Launch.Started.{launch-Started, Behind}
use authzmtls.App.Launch.{Cli, Kong, overrides_of, Launch, launch}
use authzmtls.App.{Snapshot}
use authzmtls.Common.{◌≡◌, List, Bytes, codes, ok}
use authzmtls.Config.Files.{Files}
use authzmtls.Config.Full.Laws.{Chosen, ChosenDuration, load_full-Overridden}
use authzmtls.Config.Layers.{Yaml}
use authzmtls.Config.Load.{Loading, load}
use authzmtls.Config.Validate.Laws.{IsValid}
use authzmtls.Config.{Config}
use authzmtls.Datasources.Registry.{source_resolver}
use authzmtls.Rules.Builtin.{builtin_chain}
use authzmtls.Server.Lifecycle.{Net}
use authzmtls.Server.{Outside, tls_mode}

-- The configuration is that of the files, but for six settings: a flag of the command line that is
-- not empty gives its setting, else the variable that is set, else the files.
pub record Configured {Node : Type 0} (files : Files) (c : Cli) (file cfg : Config Node)
    : Type 0 where
  pub level :
      Chosen c.logging_level
        (files.lookup_env (codes "AUTHZ_LOGGING_LEVEL"))
        file.logging_level
        cfg.logging_level
  pub listen_addr :
      Chosen c.listen_addr
        (files.lookup_env (codes "AUTHZ_SERVER_LISTEN_ADDR"))
        file.server.listen_addr
        cfg.server.listen_addr
  pub server_cert :
      Chosen c.server_cert
        (files.lookup_env (codes "AUTHZ_SERVER_CERT"))
        file.server.server_cert
        cfg.server.server_cert
  pub server_key :
      Chosen c.server_key
        (files.lookup_env (codes "AUTHZ_SERVER_KEY"))
        file.server.server_key
        cfg.server.server_key
  pub metrics_path :
      Chosen c.metrics_path
        (files.lookup_env (codes "AUTHZ_SERVER_METRICS_PATH"))
        file.server.metrics_path
        cfg.server.metrics_path
  pub decision_timeout :
      ChosenDuration files.parse_duration c.decision_timeout
        (files.lookup_env (codes "AUTHZ_SERVER_DECISION_TIMEOUT"))
        file.server.decision_timeout
        cfg.server.decision_timeout
  pub allowlist : cfg.allowlist ≡ file.allowlist
  pub datasources : cfg.datasources ≡ file.datasources
  pub checks : cfg.checks ≡ file.checks
  pub admin_users : cfg.admin_users ≡ file.admin_users
  pub admin_groups : cfg.admin_groups ≡ file.admin_groups

module _ {Node Cert L W Ln N : Type 0} (outside : Outside Node Cert L W) (yaml : Yaml Node)
    (kong : Kong) (network : Net Ln N) (version : Bytes) (show : List Bytes → Bytes) where
  -- The process is ready, from the arguments `args`.
  pub record Ready (now : Snapshot) (w : N) (args : List Bytes)
      (l : Launch outside yaml kong network version show) : Type 0 where
    pub parsed : kong.parse args ≡ ok l.cli
    pub file : Loading Node
    pub loaded : load yaml now.files l.cli.config_path ≡ ok file
    pub configured : Configured now.files l.cli file.cfg l.running.store
    pub valid : IsValid outside.fmt now.stat l.running.store
    pub rules :
        l.running.server.active.rules
        ≡ builtin_chain outside.host l.running.store (source_resolver outside.fmt outside.wiring)
    pub timeout : l.running.server.active.decision_timeout ≡ l.running.store.server.decision_timeout
    pub mode : tls_mode l.running.store ≡ ok l.running.server.tls_enabled
    pub behind :
        Behind outside yaml kong network version show l.running.store.server.listen_addr w l.life

  -- After a startup that succeeds, the arguments have been parsed; the configuration is valid, and is
  -- that of the files below the configuration path of the command line, each of the six flags that is
  -- set before its environment variable and this before the files; the server goes by the built-in
  -- chain, the deadline and the TLS mode of this configuration, and stands behind a listener that
  -- was opened for its address.
  pub launch-Ready :
      (now : Snapshot) (w : N) (args : List Bytes)
      (l : Launch outside yaml kong network version show)
      → (launch outside yaml kong network version show now w args).1 ≡ ok l
      → Ready now w args l
  launch-Ready now w args l h =
      let (parsed, begun, behind) =
        launch-Started outside yaml kong network version show now w args l h in
      let s =
        start-Serving outside yaml l.cli.config_path (overrides_of l.cli) now l.running begun in
      let (valid, (file, loaded, o)) =
        load_full-Overridden outside.fmt now.files yaml now.stat l.cli.config_path
          (overrides_of l.cli) l.running.store
          (start-loaded outside yaml l.cli.config_path (overrides_of l.cli) now l.running begun) in
      record {
        parsed = parsed;
        file = file;
        loaded = loaded;
        configured = record {
          level = o.level;
          listen_addr = o.listen_addr;
          server_cert = o.server_cert;
          server_key = o.server_key;
          metrics_path = o.metrics_path;
          decision_timeout = o.decision_timeout;
          allowlist = o.allowlist;
          datasources = o.datasources;
          checks = o.checks;
          admin_users = o.admin_users;
          admin_groups = o.admin_groups;
        };
        valid = valid;
        rules = s.rules;
        timeout = s.timeout;
        mode = s.mode;
        behind = behind;
      }
