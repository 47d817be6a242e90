-- ===== src/App/Confined.antt =====
-- What the running process lets a caller who is no administrator mount.
use authzmtls.App.Laws.{Reach, Reach-Serving}
use authzmtls.App.{Snapshot, Running, load_now, on_request}
use authzmtls.Common.{◌≡◌, sym, ap, ◌∙◌, true, Bytes, All, All-Elem, ok}
use authzmtls.Config.Layers.{Yaml}
use authzmtls.Config.Overrides.{FlagOverrides}
use authzmtls.Datasources.Cache.{IsLru}
use authzmtls.Datasources.Registry.{source_resolver}
use authzmtls.DockerApi.{AuthzReq}
use authzmtls.GoStd.FilePath.{is_abs}
use authzmtls.Rules.Body.Asks.{Asks}
use authzmtls.Rules.Builtin.Admins.{IsAdmin}
use authzmtls.Rules.Builtin.Confined.{host_paths, host_paths-Asks, decide-Below}
use authzmtls.Rules.Builtin.Gated.{after_admins}
use authzmtls.Rules.Builtin.{admins, builtin_chain}
use authzmtls.Rules.Canonical.Laws.{IsUnix}
use authzmtls.Rules.Chain.{Process, decide}
use authzmtls.Rules.Expand.{VarMap}
use authzmtls.Rules.Host.{WaitsForAll}
use authzmtls.Rules.Mounts.Security.{Below}
use authzmtls.Rules.Mounts.{expand_all}
use authzmtls.Rules.Sources.{Resolver, resolve_vars}
use authzmtls.Server.{Outside, Sources, decide_active}

module _ {Node Cert L W : Type 0} (outside : Outside Node Cert L W) (yaml : Yaml Node)
    (path : Bytes) (overrides : FlagOverrides) where
  -- The datasources as a request finds them, with its deadline.
  abbrev pub timed : Running Node Cert (Sources outside) → Process (Sources outside)
  timed r = record (r.server.active.process) {
    sources = outside.deadline r.server.active.decision_timeout r.server.active.process.sources;
  }

  abbrev pub resolver : Resolver (Sources outside)
  resolver = source_resolver outside.fmt outside.wiring

  -- The variables that the rules on host paths resolve for the request.
  abbrev pub request_vars : AuthzReq → Running Node Cert (Sources outside) → VarMap
  request_vars req r =
      let s = after_admins outside.host r.store resolver req (timed r).sources in
      (resolve_vars resolver req s).0

  on_request-decide :
      (req : AuthzReq) (r : Running Node Cert (Sources outside))
      → r.server.active.rules ≡ builtin_chain outside.host r.store resolver
      → (on_request outside yaml path overrides req r).0
        ≡ (decide (builtin_chain outside.host r.store resolver) req (timed r)).0
  unfolding on_request decide_active
  on_request-decide req r same = ap (λ rules. (decide rules req (timed r)).0) same

  -- In whatever order requests and reloads came before: if the process lets a request pass whose
  -- sender is no administrator, then every host path that the request names leads, once symbolic
  -- links are resolved, to a place at or below an expansion of an allowlist entry of a configuration
  -- that loading the files gave at some time. A request names the source of each bind and of each
  -- mount in a container's HostConfig, and the device of a volume of the local driver that has `bind`
  -- among its options. The entries are absolute; the working directory is absolute and resolving
  -- links keeps paths absolute; the group waits for all its goroutines.
  pub Reach-Below :
      {r : Running Node Cert (Sources outside)} (req : AuthzReq)
      → IsLru outside.wiring.lru
      → Reach outside yaml path overrides r
      → WaitsForAll outside.host
      → IsUnix outside.host
      → All (λ entry. is_abs entry ≡ true) r.store.allowlist
      → ¬ IsAdmin
          (admins outside.host r.store resolver)
          (resolve_vars resolver req (timed r).sources).0
      → (on_request outside yaml path overrides req r).0.allow ≡ true
      → (named : Bytes) → Asks outside.host req named
      → (now : Snapshot) × (load_now outside yaml path overrides now ≡ ok r.store)
        × Below outside.host (expand_all r.store.allowlist (request_vars req r)) named
  Reach-Below {r} req laws reach waits unix absolute other allow named asks =
      let s = Reach-Serving outside yaml path overrides laws reach in
      let all_below =
        decide-Below outside.host r.store resolver req (timed r) waits unix absolute other
          (sym (ap (λ a. a.allow) (on_request-decide req r s.rules)) ∙ allow) in
      (
        s.read_at,
        s.loaded,
        All-Elem (Below outside.host (expand_all r.store.allowlist (request_vars req r)))
            (host_paths outside.host req) all_below (host_paths-Asks outside.host req named asks),
      )
