-- ===== src/App.antt =====
-- cmd/authzmtls/main.go: `run`, and internal/config/config.go: `Store` and `Watch`. The command
-- line is parsed by kong, and signals and shutdown are the process's; the files may change between
-- two loads.
pub mod Laws
pub mod Confined
pub mod Launch
use authzmtls.Common.{List, [], ◌∷◌, Option, none, some, Bytes, Result, ok, fail, ◌>>=◌}
use authzmtls.Config.Files.{Files}
use authzmtls.Config.Full.{load_full}
use authzmtls.Config.Layers.{Yaml}
use authzmtls.Config.Overrides.{FlagOverrides}
use authzmtls.Config.{Config}
use authzmtls.Datasources.Registry.{new_set}
use authzmtls.DockerApi.{AuthzReq}
use authzmtls.Rules.Chain.{Answer}
use authzmtls.Server.{
  Server, Outside, Sources, convert_datasources, new_builtin_chain, new_server, reload,
  decide_active,
}

-- The files, the environment and `os.Stat` at one time.
pub record Snapshot : Type 0 where
  pub files : Files
  pub stat : Bytes → Option Bytes

-- The process while it serves: `Store`, and the server.
pub record Running (Node Cert S : Type 0) : Type 0 where
  pub store : Config Node
  pub server : Server Cert S

-- `os.Exit(1)` ends the process.
pub data AppState (Node Cert S : Type 0) : Type 0 where
  running : Running Node Cert S → AppState Node Cert S
  exited : AppState Node Cert S

module _ {Node Cert L W : Type 0} (outside : Outside Node Cert L W) (yaml : Yaml Node)
    (path : Bytes) (overrides : FlagOverrides) where
  abbrev pub load_now : Snapshot → Result (Config Node)
  load_now now = load_full outside.fmt now.files yaml now.stat path overrides

  -- The startup of `run`, up to the server.
  unfoldable pub start : Snapshot → Result (Running Node Cert (Sources outside))
  unfolding load_full new_set new_server
  start now = load_now now >>= λ cfg.
      new_set outside.fmt outside.wiring outside.registry (convert_datasources cfg.datasources)
      >>= λ set. new_builtin_chain outside cfg >>= λ rules.
          new_server outside cfg rules
            (record { sources = set; log = []; requests = 0; denials = 0 })
          >>= λ server. ok (record { store = cfg; server = server })

  -- The end of the callback that `run` gives to `Watch`, on the result of `Reload`.
  abbrev pub reloaded :
      Config Node
      → Option Bytes × Server Cert (Sources outside)
      → AppState Node Cert (Sources outside)
  reloaded cfg (some e, server) = exited
  reloaded cfg (none, server) = running (record { store = cfg; server = server })

  -- What `Watch` and its callback do with the result of the load.
  abbrev pub on_reload :
      Result (Config Node)
      → Running Node Cert (Sources outside)
      → AppState Node Cert (Sources outside)
  on_reload (fail e) r = exited
  on_reload (ok cfg) r = reloaded cfg (reload outside cfg r.server)

  -- A SIGHUP.
  unfoldable pub on_sighup :
      Snapshot → Running Node Cert (Sources outside) → AppState Node Cert (Sources outside)
  unfolding load_full reload
  on_sighup now r = on_reload (load_now now) r

  -- A request. One that a reload overtakes goes by the state that it has loaded, and changes only
  -- that, as if it had come before the reload.
  unfoldable pub on_request :
      AuthzReq → Running Node Cert (Sources outside) → Answer × Running Node Cert (Sources outside)
  unfolding decide_active
  on_request req r =
      let (answer, server) = decide_active outside req r.server in
      (answer, record r { server = server })
