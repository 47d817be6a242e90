-- ===== src/Rules/Chain/Outcomes.antt =====
-- `Decide` on each verdict of the evaluation.
use authzmtls.Common.{◌≡◌, true, false, List, [], ok}
use authzmtls.DockerApi.{AuthzReq}
use authzmtls.Rules.Chain.{evaluate, Process, respond, settle, decide}
use authzmtls.Rules.Decision.{Decision, Rule, abstain, prefix_identity}
use authzmtls.Rules.Verdicts.{Verdict}

module _ {S : Type 0} (rules : List (Rule S)) (req : AuthzReq) (p : Process S) where
  pub decide-allowed :
      (d : Decision)
      → (evaluate rules req p.sources).0 ≡ ok d
      → d.verdict ≡ Verdict.allow
      → (decide rules req p).0 ≡ record { allow = true; msg = d.msg }
  unfolding decide settle respond
  decide-allowed d e h = rw (e, h)

  pub decide-denied :
      (d : Decision)
      → (evaluate rules req p.sources).0 ≡ ok d
      → d.verdict ≡ Verdict.deny
      → (decide rules req p).0 ≡ record { allow = false; msg = prefix_identity req.user d.msg }
  unfolding decide settle respond
  decide-denied d e h = rw (e, h)

  pub decide-abstained :
      {t : S}
      → evaluate rules req p.sources ≡ (ok abstain, t)
      → decide rules req p ≡ (record { allow = true; msg = [] }, record p { sources = t })
  unfolding decide settle respond abstain
  decide-abstained e = rw e
