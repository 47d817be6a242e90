-- ===== src/Rules/Admin.antt =====
-- internal/rules/admin.go: the administrators' bypass.
use authzmtls.Common.{
  Bool, ◌&&◌, List, [], ◌∷◌, ◌++◌, Option, none, some, Bytes, codes, bytes_in, ok, length, ◌==◌,
  if◌then◌else◌,
}
use authzmtls.Rules.Verdicts.{Verdict}
use authzmtls.Rules.Decision.{Decision, Rule, abstain}
use authzmtls.Rules.Expand.{VarMap, values}
use authzmtls.Rules.Host.{Host}
use authzmtls.Rules.Sources.{Resolver, resolve_vars}

-- `AdminRule`; the two Go sets hold the entries of the two lists.
pub record AdminRule : Type 0 where
  pub users : List Bytes
  pub groups : List Bytes

abbrev pub admin_msg : Bytes
admin_msg = codes "admin: all commands allowed"

-- `adminAllow`.
unfoldable pub admin_allow : Bytes → Decision
admin_allow detail = record { verdict = Verdict.allow; detail = detail; msg = admin_msg }

-- The first of the values that the set holds.
unfoldable pub first_in : List Bytes → List Bytes → Option Bytes
first_in set [] = none
first_in set (v ∷ vs) = if bytes_in v set then some v else first_in set vs

abbrev is_unused : List Bytes → List Bytes → Bool
is_unused users groups = length users == 0 && length groups == 0

module _ (host : Host) where
  -- The two loops of `Evaluate`, on the resolved variables.
  unfoldable pub admin_match : AdminRule → VarMap → Decision
  admin_match r vars = elim (first_in r.users (values (codes "USER") vars)) [
    | some u ↦ admin_allow (codes "user " ++ (host.quote u ++ codes " matched admin_users"))
    | none ↦ elim (first_in r.groups (values (codes "GROUP") vars)) [
      | some g ↦ admin_allow (codes "group " ++ (host.quote g ++ codes " matched admin_groups"))
      | none ↦ abstain
    ]
  ]

  -- `AdminRule.Evaluate`.
  unfoldable pub admin_rule : {S : Type 0} → Resolver S → AdminRule → Rule S
  admin_rule ds r req s =
      let (vars, s') = resolve_vars ds req s in
      if is_unused r.users r.groups then (ok abstain, s) else (ok (admin_match r vars), s')
