-- ===== src/Rules/Decision.antt =====
-- internal/rules/decision.go: verdicts, decisions, and the type of a rule.
use authzmtls.Common.{[], ◌∷◌, ◌++◌, Bytes, codes, Result}
use authzmtls.DockerApi.{AuthzReq}
use authzmtls.Rules.Verdicts.{Verdict}

pub record Decision : Type 0 where
  pub verdict : Verdict
  pub detail : Bytes
  pub msg : Bytes

unfoldable pub deny : Bytes → Decision
deny msg = record { verdict = Verdict.deny; detail = msg; msg = msg }

unfoldable pub allow : Bytes → Decision
allow msg = record { verdict = Verdict.allow; detail = msg; msg = msg }

unfoldable pub abstain : Decision
abstain = record { verdict = Verdict.abstain; detail = []; msg = [] }

unfoldable pub prefix_identity : Bytes → Bytes → Bytes
prefix_identity [] msg = msg
prefix_identity (b ∷ identity) msg = (b ∷ identity) ++ (codes ": " ++ msg)

abbrev pub internal_error_msg : Bytes
internal_error_msg = codes "internal error"

-- `Rule.Evaluate`. `S` is what an evaluation may change: the state of the datasources.
abbrev pub Rule : Type 0 → Type 0
Rule S = AuthzReq → S → Result Decision × S
