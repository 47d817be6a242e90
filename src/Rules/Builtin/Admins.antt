-- ===== src/Rules/Builtin/Admins.antt =====
-- The administrators' bypass, which stands first in the chain.
use authzmtls.Common.{
  ◌≡◌, ◌⊎◌, refl, sym, ap, ◌∙◌, inl, inr, Bool-cases, true, List, [], ◌∷◌, Option-cases, none, some,
  Bytes, codes, bytes_in, bytes_in_iff, arith, Elem, ok, length, ◌==◌, ◌&&◌, subst,
}
use authzmtls.Config.{Config}
use authzmtls.DockerApi.{AuthzReq}
use authzmtls.Rules.Admin.{AdminRule, admin_msg, admin_allow, first_in, admin_match, admin_rule}
use authzmtls.Rules.Builtin.Steps.{evaluate-decided}
use authzmtls.Rules.Builtin.{admins, builtin_chain}
use authzmtls.Rules.Chain.{Process, decide, evaluate}
use authzmtls.Rules.Chain.Outcomes.{decide-allowed}
use authzmtls.Rules.Decision.{Decision, abstain}
use authzmtls.Rules.Expand.{VarMap, values}
use authzmtls.Rules.Host.{Host}
use authzmtls.Rules.Sources.{Resolver, resolve_vars}
use authzmtls.Rules.Verdicts.{Verdict}

abbrev Shared : List Bytes → List Bytes → Type 0
Shared set vs = (v : Bytes) × Elem v set × Elem v vs

-- The datasources name a user of `admin_users` or a group of `admin_groups`.
abbrev pub IsAdmin : AdminRule → VarMap → Type 0
IsAdmin r vars =
    Shared r.users (values (codes "USER") vars) ⊎ Shared r.groups (values (codes "GROUP") vars)

first_in-none :
    (set vs : List Bytes) → first_in set vs ≡ none → (v : Bytes) → Elem v set → ¬ Elem v vs
unfolding first_in
first_in-none set [] h v m k = k
first_in-none set (w ∷ vs) h v m (inl e) =
    let held = (bytes_in_iff w set).1 (subst (λ x. Elem x set) e m) in ground arith
first_in-none set (w ∷ vs) h v m (inr k) = first_in-none set vs (ground arith) v m k

first_in-some :
    (set vs : List Bytes) (v : Bytes) → first_in set vs ≡ some v → Elem v set × Elem v vs
unfolding first_in
first_in-some set [] v h = cc
first_in-some set (w ∷ vs) v h = elim (Bool-cases (bytes_in w set)) [
  | inl hit ↦
      let e : w ≡ v = ground arith in
      (subst (λ x. Elem x set) e ((bytes_in_iff w set).0 hit), inl (sym e))
  | inr miss ↦ let (a, b) = first_in-some set vs v (ground arith) in (a, inr b)
]

first_in-Shared : (set vs : List Bytes) (v : Bytes) → first_in set vs ≡ some v → Shared set vs
first_in-Shared set vs v e = let (m, k) = first_in-some set vs v e in (v, m, k)

-- The bypass's answer: an active yes for an administrator, and else nothing.
abbrev Matched : AdminRule → VarMap → Decision → Type 0
Matched r vars d =
    (IsAdmin r vars × (d.verdict ≡ Verdict.allow) × (d.msg ≡ admin_msg))
    ⊎ ((¬ IsAdmin r vars) × (d ≡ abstain))

module _ (host : Host) (r : AdminRule) where
  admin_match-Matched : (vars : VarMap) → Matched r vars (admin_match host r vars)
  unfolding admin_match admin_allow
  admin_match-Matched vars = elim (Option-cases (first_in r.users (values (codes "USER") vars))) [
    | inl no_user ↦ elim (Option-cases (first_in r.groups (values (codes "GROUP") vars))) [
      | inl no_group ↦ rw (no_user, no_group, admin_match) (inr (neither no_user no_group, refl))
      | inr (g, e) ↦ rw (no_user, e, admin_match) (inl (inr (first_in-Shared _ _ g e), refl, refl))
    ]
    | inr (u, e) ↦ rw (e, admin_match) (inl (inl (first_in-Shared _ _ u e), refl, refl))
  ]
    where
      neither :
          first_in r.users (values (codes "USER") vars) ≡ none
          → first_in r.groups (values (codes "GROUP") vars) ≡ none
          → ¬ IsAdmin r vars
      neither a b (inl (u, m, k)) = first_in-none _ _ a u m k
      neither a b (inr (g, m, k)) = first_in-none _ _ b g m k

empty_of_unused :
    (xs ys : List Bytes) → (length xs == 0 && length ys == 0) ≡ true → (xs ≡ []) × (ys ≡ [])
empty_of_unused [] [] h = (refl, refl)
empty_of_unused [] (y ∷ ys) h = ground arith
empty_of_unused (x ∷ xs) ys h = ground arith

-- `AdminRule.Evaluate` allows a request exactly if the datasources name an administrator, with a
-- message that does not say who; it abstains on every other, and never fails.
pub admin_rule-Matched :
    (host : Host) {S : Type 0} (ds : Resolver S) (r : AdminRule) (req : AuthzReq) (s : S)
    → (d : Decision) × ((admin_rule host ds r req s).0 ≡ ok d)
      × Matched r (resolve_vars ds req s).0 d
unfolding admin_rule
admin_rule-Matched host ds r req s =
    elim (Bool-cases (length r.users == 0 && length r.groups == 0)) [
      | inl unused ↦
          let (a, b) = empty_of_unused r.users r.groups unused in
          (abstain, rw unused, inr (nobody a b, refl))
      | inr used ↦ (
        admin_match host r (resolve_vars ds req s).0,
        rw used,
        admin_match-Matched host r (resolve_vars ds req s).0,
      )
    ]
  where
    nobody : r.users ≡ [] → r.groups ≡ [] → ¬ IsAdmin r (resolve_vars ds req s).0
    nobody a b (inl (u, m, k)) = subst (Elem u) a m
    nobody a b (inr (g, m, k)) = subst (Elem g) b m

-- An administrator may do everything: whatever the request, the allowlist and the checks are, the
-- daemon is told to allow it, with the fixed message of the bypass.
pub decide-IsAdmin :
    {S Node : Type 0} (host : Host) (cfg : Config Node) (ds : Resolver S) (req : AuthzReq)
    (p : Process S)
    → IsAdmin (admins host cfg ds) (resolve_vars ds req p.sources).0
    → (decide (builtin_chain host cfg ds) req p).0 ≡ record { allow = true; msg = admin_msg }
unfolding builtin_chain
decide-IsAdmin host cfg ds req p h =
    let (d, e, answer) = admin_rule-Matched host ds (admins host cfg ds) req p.sources in
    elim answer [
      | inl (_, v, m) ↦
          decide-allowed (builtin_chain host cfg ds) req p d (first d e v) v
          ∙ ap (λ msg. record { allow = true; msg = msg }) m
      | inr (other, _) ↦ absurd (other h)
    ]
  where
    first :
        (d : Decision)
        → (admin_rule host ds (admins host cfg ds) req p.sources).0 ≡ ok d
        → d.verdict ≡ Verdict.allow
        → (evaluate (builtin_chain host cfg ds) req p.sources).0 ≡ ok d
    first d e v = evaluate-decided _ _ req p.sources d e (rw v)
