-- ===== src/Rules/Chain/Counters.antt =====
-- What `Decide` answers, logs and counts.
use authzmtls.Common.{ℕ, ◌+◌, ◌≡◌, List, [], ◌∷◌, ◌++◌, arith, Result, ok, fail}
use authzmtls.DockerApi.{AuthzReq}
use authzmtls.Rules.Chain.{
  evaluate, LogRecord, evaluation_failed, denied, allowed, Process, respond, settle, decide,
}
use authzmtls.Rules.Decision.{Decision, Rule}
use authzmtls.Rules.Verdicts.{Verdict}

-- The decisions in a log, and the denials among them.
abbrev pub decisions : List LogRecord → ℕ
decisions [] = 0
decisions (evaluation_failed e ∷ log) = decisions log
decisions (denied identity detail ∷ log) = 1 + decisions log
decisions (allowed identity detail ∷ log) = 1 + decisions log

abbrev pub denials_in : List LogRecord → ℕ
denials_in [] = 0
denials_in (evaluation_failed e ∷ log) = denials_in log
denials_in (denied identity detail ∷ log) = 1 + denials_in log
denials_in (allowed identity detail ∷ log) = denials_in log

decisions-append : (a b : List LogRecord) → decisions (a ++ b) ≡ decisions a + decisions b
decisions-append [] b = omega arith
decisions-append (evaluation_failed e ∷ a) b = decisions-append a b
decisions-append (denied i d ∷ a) b = omega (arith, decisions-append a b)
decisions-append (allowed i d ∷ a) b = omega (arith, decisions-append a b)

denials_in-append : (a b : List LogRecord) → denials_in (a ++ b) ≡ denials_in a + denials_in b
denials_in-append [] b = omega arith
denials_in-append (evaluation_failed e ∷ a) b = denials_in-append a b
denials_in-append (denied i d ∷ a) b = omega (arith, denials_in-append a b)
denials_in-append (allowed i d ∷ a) b = denials_in-append a b

-- Each counter has counted the log's records of its kind.
pub record CountsLog {S : Type 0} (p : Process S) : Type 0 where
  pub requests_counted : p.requests ≡ decisions p.log
  pub denials_counted : p.denials ≡ denials_in p.log

module _ {S : Type 0} where
  respond-CountsLog :
      (req : AuthzReq) (d : Decision) (v : Verdict) (p : Process S)
      → CountsLog p
      → CountsLog (respond req d v p).1
  unfolding respond
  respond-CountsLog req d Verdict.abstain p c = c
  respond-CountsLog req d Verdict.allow p c = record {
    requests_counted =
        omega (arith, c.requests_counted, decisions-append p.log (allowed req.user d.detail ∷ []));
    denials_counted =
        omega (arith, c.denials_counted, denials_in-append p.log (allowed req.user d.detail ∷ []));
  }
  respond-CountsLog req d Verdict.deny p c = record {
    requests_counted =
        omega (arith, c.requests_counted, decisions-append p.log (denied req.user d.detail ∷ []));
    denials_counted =
        omega (arith, c.denials_counted, denials_in-append p.log (denied req.user d.detail ∷ []));
  }

  settle-CountsLog :
      (req : AuthzReq) (result : Result Decision) (p : Process S)
      → CountsLog p
      → CountsLog (settle req result p).1
  unfolding settle
  settle-CountsLog req (ok d) p c = respond-CountsLog req d d.verdict p c
  settle-CountsLog req (fail e) p c = record {
    requests_counted =
        omega (arith, c.requests_counted, decisions-append p.log (evaluation_failed e ∷ []));
    denials_counted =
        omega (arith, c.denials_counted, denials_in-append p.log (evaluation_failed e ∷ []));
  }

  decide-CountsLog :
      (rules : List (Rule S)) (req : AuthzReq) (p : Process S)
      → CountsLog p
      → CountsLog (decide rules req p).1
  unfolding decide
  decide-CountsLog rules req p c =
      settle-CountsLog req (evaluate rules req p.sources).0
        (record p { sources = (evaluate rules req p.sources).1 })
        (record { requests_counted = c.requests_counted; denials_counted = c.denials_counted })

  -- A process that has answered these requests, one after the other.
  unfoldable pub serve : List (Rule S) → List AuthzReq → Process S → Process S
  serve rules [] p = p
  serve rules (req ∷ reqs) p = serve rules reqs (decide rules req p).1

  -- Whatever requests a process answers, `authzmtls.requests` counts its log records of a decision
  -- and `authzmtls.denied` those of a denial, if they did so at the start.
  pub serve-CountsLog :
      (rules : List (Rule S)) (reqs : List AuthzReq) (p : Process S)
      → CountsLog p
      → CountsLog (serve rules reqs p)
  unfolding serve
  serve-CountsLog rules [] p c = c
  serve-CountsLog rules (req ∷ reqs) p c =
      serve-CountsLog rules reqs (decide rules req p).1 (decide-CountsLog rules req p c)
