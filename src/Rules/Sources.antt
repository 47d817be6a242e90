-- ===== src/Rules/Sources.antt =====
-- What the rules ask of the datasources: `datasources.Set.Resolve`, which never fails, and which may
-- change the caches that the state `S` holds. The rules hold for every such function.
use authzmtls.DockerApi.{AuthzReq}
use authzmtls.Rules.Expand.{VarMap}
use authzmtls.Rules.Reqvars.{Vars, extract}

pub record Resolver (S : Type 0) : Type 0 where
  pub resolve : Vars → S → VarMap × S

-- `resolveVars`, in internal/rules/mounts.go.
unfoldable pub resolve_vars : {S : Type 0} → Resolver S → AuthzReq → S → VarMap × S
resolve_vars ds req s = ds.resolve (extract req) s
