-- ===== src/App/Launch.antt =====
-- cmd/authzmtls/main.go: `run` and `main`, with the lines that they give to the
-- logger, before the threshold of the level. kong is a parameter,
-- and so are the signals: what comes between the startup and a SIGINT or SIGTERM is the process of
-- App.antt. The calls of the telemetry, which change only its own state, are left out.
pub mod Laws
pub mod Started
pub mod Configured
use authzmtls.App.{Snapshot, Running, load_now}
use authzmtls.Common.{
  ℕ, Bool, true, false, List, [], ◌∷◌, ◌++◌, Option, none, some, Bytes, codes, Result, ok, fail,
}
use authzmtls.Config.Layers.{Yaml}
use authzmtls.Config.Overrides.{FlagOverrides}
use authzmtls.Config.{Config}
use authzmtls.Datasources.Registry.{new_set}
use authzmtls.Logging.{Level, level_debug, level_info, level_warn, level_error}
use authzmtls.Rules.Decision.{Rule}
use authzmtls.Server.Lifecycle.{Net, Life, not_started, start}
use authzmtls.Server.{Server, Outside, Sources, convert_datasources, new_builtin_chain, new_server}

-- `cli`.
pub record Cli : Type 0 where
  pub config_path : Bytes
  pub logging_level : Bytes
  pub listen_addr : Bytes
  pub server_cert : Bytes
  pub server_key : Bytes
  pub metrics_path : Bytes
  pub decision_timeout : Bytes

-- `kong.New` and `parser.Parse`.
pub record Kong : Type 0 where
  pub broken : Option Bytes
  pub parse : List Bytes → Result Cli

-- A line of the log: its level, its message, and its attributes.
pub record Line : Type 0 where
  pub level : Level
  pub message : Bytes
  pub attributes : List (Bytes × Bytes)

abbrev pub overrides_of : Cli → FlagOverrides
overrides_of c = record {
  logging_level = c.logging_level;
  listen_addr = c.listen_addr;
  server_cert = c.server_cert;
  server_key = c.server_key;
  metrics_path = c.metrics_path;
  decision_timeout = c.decision_timeout;
}

-- A step of `run` that can fail: its lines, and its result or the error that `run` returns.
abbrev pub Logged {ℓ} : Type ℓ → Type ℓ
Logged A = List Line × Result A

infixl 5 ◌>>>◌
unfoldable pub ◌>>>◌ {ℓ μ} : {B : Type μ} {A : Type ℓ} → Logged A → (A → Logged B) → Logged B
(lines, fail e) >>> next = (lines, fail e)
(lines, ok a) >>> next = let (more, result) = next a in (lines ++ more, result)

-- `logger.Error(...)` with the attributes and the error, and `return fmt.Errorf(...)`.
unfoldable pub or_exit {ℓ} :
    {A : Type ℓ} → Bytes → List (Bytes × Bytes) → Bytes → Result A → Logged A
or_exit message attributes context (ok a) = ([], ok a)
or_exit message attributes context (fail e) = (
  record {
    level = level_error;
    message = message;
    attributes = attributes ++ (codes "error", e) ∷ [];
  }
      ∷ [],
  fail (context ++ e),
)

unfoldable pub says {ℓ} : {A : Type ℓ} → Level → Bytes → List (Bytes × Bytes) → A → Logged A
says level message attributes a =
    (record { level = level; message = message; attributes = attributes } ∷ [], ok a)

-- The process once it listens: `run` at `<-shutdownCtx.Done()`.
pub record Launched (Node Cert S Ln N : Type 0) : Type 0 where
  pub cli : Cli
  pub running : Running Node Cert S
  pub life : Life Ln
  pub net : N

module _ {Node Cert L W Ln N : Type 0} (outside : Outside Node Cert L W) (yaml : Yaml Node)
    (kong : Kong) (network : Net Ln N) (version : Bytes) (show : List Bytes → Bytes) where
  abbrev pub Launch : Type 0
  Launch = Launched Node Cert (Sources outside) Ln N

  -- The command line, if the parser can be built.
  abbrev pub parsed_by : Option Bytes → List Bytes → Logged Cli
  parsed_by (some e) args = ([], fail (codes "build CLI parser: " ++ e))
  parsed_by none args =
      or_exit (codes "startup: failed to parse arguments") [] (codes "parse arguments: ")
        (kong.parse args)

  -- `srv.Start()`.
  abbrev pub listening :
      Cli → Running Node Cert (Sources outside) → Result Ln × Life Ln × N → Logged Launch
  listening c r (fail e, life, w) =
      or_exit (codes "startup: failed to start listening")
        ((codes "listen_addr", r.store.server.listen_addr) ∷ []) (codes "start server: ") (fail e)
  listening c r (ok ln, life, w) = ([], ok (record { cli = c; running = r; life = life; net = w }))

  -- From the loaded configuration to the server.
  unfoldable pub constructed : Config Node → Logged (Running Node Cert (Sources outside))
  unfolding new_set new_server
  constructed cfg =
      or_exit (codes "startup: failed to construct datasources") []
        (codes "construct datasources: ")
        (new_set outside.fmt outside.wiring outside.registry (convert_datasources cfg.datasources))
      >>> λ set.
          or_exit (codes "startup: failed to construct rule chain") []
            (codes "construct rule chain: ") (new_builtin_chain outside cfg)
          >>> λ rules.
              or_exit (codes "startup: failed to construct server") [] (codes "construct server: ")
                (new_server outside cfg rules
                  (record { sources = set; log = []; requests = 0; denials = 0 }))
              >>> λ server. ([], ok (record { store = cfg; server = server }))

  -- `run` with a parsed command line.
  unfoldable pub launched : Snapshot → N → Cli → Logged Launch
  unfolding constructed start
  launched now w c =
      or_exit (codes "startup: failed to load configuration")
        ((codes "config_path", c.config_path) ∷ []) (codes "load configuration: ")
        (load_now outside yaml c.config_path (overrides_of c) now)
      >>> λ cfg.
          says level_debug (codes "startup: allowlist")
            ((codes "allowlist", show cfg.allowlist) ∷ []) cfg
          >>> λ cfg. constructed cfg >>> λ r.
              says level_info (codes "STARTING")
                ((codes "version", version)
                  ∷ (codes "listen_addr", cfg.server.listen_addr)
                  ∷ (codes "config_path", c.config_path)
                  ∷ [])
                r
              >>> λ r. listening c r (start network cfg.server.listen_addr not_started w)

  -- `run`, up to the signal that ends it.
  unfoldable pub launch : Snapshot → N → List Bytes → Logged Launch
  unfolding launched
  launch now w args = parsed_by kong.broken args >>> λ c. launched now w c

  abbrev pub warned : Bytes → Option Bytes → List Line
  warned message none = []
  warned message (some e) =
      record { level = level_warn; message = message; attributes = (codes "error", e) ∷ [] } ∷ []

  -- The end of `run`, behind the signal, with the results of the two calls of Shutdown.
  unfoldable pub shutting_down : Option Bytes → Option Bytes → List Line × Option Bytes
  shutting_down server telemetry = (
    record { level = level_info; message = codes "SHUTTING DOWN"; attributes = [] }
        ∷ (warned (codes "shutdown: server did not drain cleanly within the grace period") server
            ++ warned (codes "shutdown: failed to flush telemetry") telemetry),
    none,
  )

  -- `main`: the exit status that an error of `run` gives.
  abbrev pub exit_status : Result Launch → ℕ
  exit_status (ok l) = 0
  exit_status (fail e) = 1
