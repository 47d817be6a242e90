-- ===== src/Datasources/Callers.antt =====
-- The administrators' bypass with the set of providers as its datasource.
use authzmtls.Common.{
  ◌≡◌, refl, ap, ◌∙◌, inl, inr, [], ◌∷◌, some, Bytes, bytes_eq, lookup, insert, Result, ok,
}
use authzmtls.Datasources.Cache.{identity_of}
use authzmtls.Datasources.Inputs.Laws.{set_resolve-rejected}
use authzmtls.Datasources.Inputs.{valid_var_value, SetState, set_resolver}
use authzmtls.DockerApi.{AuthzReq}
use authzmtls.Rules.Admin.{AdminRule, admin_rule}
use authzmtls.Rules.Builtin.Admins.{IsAdmin, admin_rule-Matched}
use authzmtls.Rules.Decision.{abstain}
use authzmtls.Rules.Expand.{VarMap}
use authzmtls.Rules.Host.{Host}
use authzmtls.Rules.Reqvars.{Vars, extract_identity, extract}
use authzmtls.Rules.Sources.{resolve_vars}

identity_of_user :
    (user : Bytes) (req : AuthzReq) → req.user ≡ user → identity_of (extract req) ≡ user
unfolding extract extract_identity lookup bytes_eq insert
identity_of_user [] req e = rw e refl
identity_of_user (b ∷ user) req e = rw e refl

-- The identity that the datasources see is the name that the daemon sent.
identity_of-extract : (req : AuthzReq) → identity_of (extract req) ≡ req.user
identity_of-extract req = identity_of_user req.user req refl

nobody : (r : AdminRule) → ¬ IsAdmin r []
unfolding lookup
nobody r (inl (u, m, k)) = k
nobody r (inr (g, m, k)) = k

-- A caller whose name is empty, too long or holds a control character is no administrator, whatever
-- the providers would answer: the bypass abstains.
pub admin_rule-rejected :
    {P : Type 0} (host : Host) (step : Vars → P → Result VarMap × P) (r : AdminRule)
    (req : AuthzReq) (s : SetState P) (reason : Bytes)
    → valid_var_value req.user ≡ some reason
    → (admin_rule host (set_resolver step) r req s).0 ≡ ok abstain
unfolding resolve_vars
admin_rule-rejected host step r req s reason h =
    let (d, e, answer) = admin_rule-Matched host (set_resolver step) r req s in
    let invalid = ap valid_var_value (identity_of-extract req) ∙ h in
    let empty = (set_resolve-rejected step (extract req) s reason invalid).0 in
    elim answer [
      | inl (k, _, _) ↦ absurd (nobody r (rw empty at k))
      | inr (_, same) ↦ e ∙ ap ok same
    ]
