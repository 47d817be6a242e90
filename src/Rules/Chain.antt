-- ===== src/Rules/Chain.antt =====
-- internal/rules/decision.go: `Chain.Evaluate` and `Chain.Decide`, with the log records and the two
-- counters that `Decide` writes.
pub mod Laws
pub mod Counters
pub mod Responds
pub mod Outcomes
use authzmtls.Common.{
  ℕ, ◌+◌, Bool, true, false, List, [], ◌∷◌, ◌++◌, Bytes, codes, Result, ok, fail, if◌then◌else◌,
}
use authzmtls.DockerApi.{AuthzReq}
use authzmtls.Rules.Verdicts.{Verdict, is_abstain}
use authzmtls.Rules.Decision.{Decision, Rule, abstain, prefix_identity, internal_error_msg}

-- A rule's answer, unless it abstains; then what the rest of the chain gives.
abbrev pub first_decided {ℓ} :
    {S : Type ℓ} → Result Decision → S → Result Decision × S → Result Decision × S
first_decided (fail e) s later = (fail e, s)
first_decided (ok d) s later = if is_abstain d.verdict then later else (ok d, s)

-- `Chain.Evaluate`; the result is itself a rule, so chains nest.
unfoldable pub evaluate : {S : Type 0} → List (Rule S) → Rule S
evaluate [] req s = (ok abstain, s)
evaluate (r ∷ rs) req s = let (result, s') = r req s in first_decided result s' (evaluate rs req s')

pub data LogRecord : Type 0 where
  evaluation_failed : Bytes → LogRecord
  denied : Bytes → Bytes → LogRecord
  allowed : Bytes → Bytes → LogRecord

-- What the process keeps: the datasources, the log written so far, and the counters
-- `authzmtls.requests` and `authzmtls.denied`.
pub record Process (S : Type 0) : Type 0 where
  pub sources : S
  pub log : List LogRecord
  pub requests : ℕ
  pub denials : ℕ

-- The results of `Decide`; its error is always nil.
pub record Answer : Type 0 where
  pub allow : Bool
  pub msg : Bytes

-- The switch of `Decide` on the verdict.
respond : {S : Type 0} → AuthzReq → Decision → Verdict → Process S → Answer × Process S
respond req d Verdict.deny p = (
  record { allow = false; msg = prefix_identity req.user d.msg },
  record p {
    log = p.log ++ denied req.user d.detail ∷ [];
    requests = p.requests + 1;
    denials = p.denials + 1;
  },
)
respond req d Verdict.allow p = (
  record { allow = true; msg = d.msg },
  record p { log = p.log ++ allowed req.user d.detail ∷ []; requests = p.requests + 1 },
)
respond req d Verdict.abstain p = (record { allow = true; msg = [] }, p)

settle : {S : Type 0} → AuthzReq → Result Decision → Process S → Answer × Process S
settle req (fail e) p = (
  record { allow = false; msg = internal_error_msg },
  record p { log = p.log ++ evaluation_failed e ∷ [] },
)
settle req (ok d) p = respond req d d.verdict p

-- `Chain.Decide`.
unfoldable pub decide : {S : Type 0} → List (Rule S) → AuthzReq → Process S → Answer × Process S
unfolding settle respond
decide rules req p =
    let (result, s') = evaluate rules req p.sources in settle req result (record p { sources = s' })
