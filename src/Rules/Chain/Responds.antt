-- ===== src/Rules/Chain/Responds.antt =====
-- What `Decide` answers, told by the rules alone.
use authzmtls.Common.{
  ◌≡◌, ◌≢◌, refl, true, false, List, [], ◌∷◌, ◌++◌, Bytes, codes, Result, ok, fail,
}
use authzmtls.DockerApi.{AuthzReq}
use authzmtls.Rules.Chain.Laws.{Answers, exhausted, failed, decided, passed, evaluate-Answers_iff}
use authzmtls.Rules.Chain.{evaluate, Process, Answer, respond, settle, decide}
use authzmtls.Rules.Decision.{Decision, Rule, abstain, prefix_identity}
use authzmtls.Rules.Verdicts.{Verdict}

-- The caller's name before a message; a caller without a name has none.
pub data Named : Bytes → Bytes → Bytes → Type 0 where
  anonymous : {msg : Bytes} → Named [] msg msg
  named : {user msg : Bytes} → user ≢ [] → Named user msg (user ++ (codes ": " ++ msg))

module _ {S : Type 0} (req : AuthzReq) where
  -- The answer to the request by a list of rules from the state `s`, and the state that it leaves.
  pub data Responds : List (Rule S) → S → Answer → S → Type 0 where
    nobody_objects : {s : S} → Responds [] s (record { allow = true; msg = [] }) s
    broken :
        {rs : List (Rule S)} {s t : S} (r : Rule S) (e : Bytes)
        → r req s ≡ (fail e, t)
        → Responds (r ∷ rs) s (record { allow = false; msg = codes "internal error" }) t
    refused :
        {rs : List (Rule S)} {s t : S} {msg : Bytes} (r : Rule S) (d : Decision)
        → r req s ≡ (ok d, t)
        → d.verdict ≡ Verdict.deny
        → Named req.user d.msg msg
        → Responds (r ∷ rs) s (record { allow = false; msg = msg }) t
    granted :
        {rs : List (Rule S)} {s t : S} (r : Rule S) (d : Decision)
        → r req s ≡ (ok d, t)
        → d.verdict ≡ Verdict.allow
        → Responds (r ∷ rs) s (record { allow = true; msg = d.msg }) t
    passed_on :
        {rs : List (Rule S)} {s t u : S} {a : Answer} (r : Rule S) (d : Decision)
        → r req s ≡ (ok d, t)
        → d.verdict ≡ Verdict.abstain
        → Responds rs t a u
        → Responds (r ∷ rs) s a u

prefix_identity-Named : (user msg : Bytes) → Named user msg (prefix_identity user msg)
unfolding prefix_identity
prefix_identity-Named [] msg = anonymous
prefix_identity-Named (b ∷ user) msg = named (λ e. cc)

module _ {S : Type 0} (req : AuthzReq) where
  respond-Responds :
      {rs : List (Rule S)} {s t : S} (r : Rule S) (d : Decision) (v : Verdict) (p : Process S)
      → r req s ≡ (ok d, t)
      → d.verdict ≡ v
      → v ≢ Verdict.abstain
      → Responds req (r ∷ rs) s (respond req d v p).0 t
  unfolding respond
  respond-Responds r d Verdict.deny p h e n = refused r d h e (prefix_identity-Named req.user d.msg)
  respond-Responds r d Verdict.allow p h e n = granted r d h e
  respond-Responds r d Verdict.abstain p h e n = absurd (n refl)

  settle-Responds :
      {rules : List (Rule S)} {s t : S} {result : Result Decision} (p : Process S)
      → Answers req rules s result t
      → Responds req rules s (settle req result p).0 t
  unfolding settle respond abstain
  settle-Responds p exhausted = nobody_objects
  settle-Responds p (failed r e h) = broken r e h
  settle-Responds p (decided r d h n) = respond-Responds r d d.verdict p h refl n
  settle-Responds p (passed r d h y a) = passed_on r d h y (settle-Responds p a)

  respond-sources :
      (d : Decision) (v : Verdict) (p : Process S) → (respond req d v p).1.sources ≡ p.sources
  unfolding respond
  respond-sources d Verdict.deny p = refl
  respond-sources d Verdict.allow p = refl
  respond-sources d Verdict.abstain p = refl

  settle-sources :
      (result : Result Decision) (p : Process S) → (settle req result p).1.sources ≡ p.sources
  unfolding settle
  settle-sources (fail e) p = refl
  settle-sources (ok d) p = respond-sources d d.verdict p

-- `Decide` asks the rules in their order, each from the state that those before it leave. The first
-- that fails denies the request with a fixed message, which says nothing of the error; the first
-- that denies it does so with its message behind the caller's name, if there is one; the first that
-- allows it does so with its message; and if every rule abstains, the request is allowed with no
-- message.
pub decide-Responds :
    {S : Type 0} (rules : List (Rule S)) (req : AuthzReq) (p : Process S)
    → Responds req rules p.sources (decide rules req p).0 (decide rules req p).1.sources
unfolding decide
decide-Responds rules req p =
    let x = evaluate rules req p.sources in
    let q = record p { sources = x.1 } in
    rw (settle-sources req x.0 q)
      (settle-Responds req q ((evaluate-Answers_iff rules req p.sources x.1 x.0).0 refl))
