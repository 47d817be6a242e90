-- ===== src/Rules/Chain/Laws.antt =====
-- The first rule that does not abstain decides.
use authzmtls.Common.{
  ◌≡◌, ◌≢◌, ◌↔◌, refl, ap, ◌∙◌, true, false, List, [], ◌∷◌, ◌++◌, Bytes, arith, Result, ok, fail,
  Bool-cases, inl, inr, subst,
}
use authzmtls.DockerApi.{AuthzReq}
use authzmtls.Rules.Chain.{first_decided, evaluate}
use authzmtls.Rules.Decision.{Decision, Rule, abstain}
use authzmtls.Rules.Verdicts.{Verdict, is_abstain}

is_abstain-abstain : is_abstain abstain.verdict ≡ true
unfolding abstain
is_abstain-abstain = refl

module _ {S : Type 0} (req : AuthzReq) where
  -- The chain's answer from state `s`, and the state that it leaves. A rule that abstains hands its
  -- state to the next; a rule that fails or decides ends the walk.
  pub data Answers : List (Rule S) → S → Result Decision → S → Type 0 where
    exhausted : {s : S} → Answers [] s (ok abstain) s
    failed :
        {rs : List (Rule S)} {s t : S} (r : Rule S) (e : Bytes)
        → r req s ≡ (fail e, t)
        → Answers (r ∷ rs) s (fail e) t
    decided :
        {rs : List (Rule S)} {s t : S} (r : Rule S) (d : Decision)
        → r req s ≡ (ok d, t)
        → d.verdict ≢ Verdict.abstain
        → Answers (r ∷ rs) s (ok d) t
    passed :
        {rs : List (Rule S)} {s t u : S} {result : Result Decision} (r : Rule S) (d : Decision)
        → r req s ≡ (ok d, t)
        → d.verdict ≡ Verdict.abstain
        → Answers rs t result u
        → Answers (r ∷ rs) s result u

is_abstain_iff : (v : Verdict) → (is_abstain v ≡ true) ↔ (v ≡ Verdict.abstain)
is_abstain_iff Verdict.abstain = ground arith
is_abstain_iff Verdict.allow = ground arith
is_abstain_iff Verdict.deny = ground arith

is_abstain_of_ne : (v : Verdict) → v ≢ Verdict.abstain → is_abstain v ≡ false
is_abstain_of_ne Verdict.abstain h = absurd (h refl)
is_abstain_of_ne Verdict.allow h = refl
is_abstain_of_ne Verdict.deny h = refl

module _ {S : Type 0} (req : AuthzReq) where
  first_decided-Answers :
      (r : Rule S) (rs : List (Rule S)) (s : S) (result : Result Decision) (t : S)
      (later : Result Decision × S)
      → r req s ≡ (result, t)
      → Answers req rs t later.0 later.1
      → Answers req (r ∷ rs) s (first_decided result t later).0 (first_decided result t later).1
  first_decided-Answers r rs s (fail e) t later h a = failed r e h
  first_decided-Answers r rs s (ok d) t later h a = elim (Bool-cases (is_abstain d.verdict)) [
    | inl yields ↦ rw yields (passed r d h ((is_abstain_iff d.verdict).0 yields) a)
    | inr decides ↦ rw decides (decided r d h (λ e. cc (decides, (is_abstain_iff d.verdict).1 e)))
  ]

  evaluate-Answers :
      (rules : List (Rule S)) (s : S)
      → Answers req rules s (evaluate rules req s).0 (evaluate rules req s).1
  unfolding evaluate
  evaluate-Answers [] s = exhausted
  evaluate-Answers (r ∷ rs) s =
      first_decided-Answers r rs s (r req s).0 (r req s).1 (evaluate rs req (r req s).1) refl
        (evaluate-Answers rs (r req s).1)

  Answers-evaluate :
      {rules : List (Rule S)} {s t : S} {result : Result Decision}
      → Answers req rules s result t
      → evaluate rules req s ≡ (result, t)
  unfolding evaluate
  Answers-evaluate exhausted = refl
  Answers-evaluate (failed r e h) = rw h
  Answers-evaluate (decided r d h n) = rw (h, is_abstain_of_ne d.verdict n)
  Answers-evaluate (passed r d h y a) = rw (h, (is_abstain_iff d.verdict).1 y) (Answers-evaluate a)

-- `Chain.Evaluate` gives exactly the answer of the first rule that fails or does not abstain, run
-- after those before it, and abstains if all do.
pub evaluate-Answers_iff :
    {S : Type 0} (rules : List (Rule S)) (req : AuthzReq) (s t : S) (result : Result Decision)
    → (evaluate rules req s ≡ (result, t)) ↔ Answers req rules s result t
evaluate-Answers_iff rules req s t result = (
  λ e. subst (λ p. Answers req rules s p.0 p.1) e (evaluate-Answers req rules s),
  Answers-evaluate req,
)

first_decided_assoc :
    {S : Type 0} (result : Result Decision) (t : S) (inner : Result Decision × S)
    (after : S → Result Decision × S)
    → let x = first_decided result t inner in
      first_decided x.0 x.1 (after x.1)
      ≡ first_decided result t (first_decided inner.0 inner.1 (after inner.1))
first_decided_assoc (fail e) t inner after = refl
first_decided_assoc (ok d) t inner after = elim (Bool-cases (is_abstain d.verdict)) [
  | inl yields ↦ rw yields
  | inr decides ↦ rw (decides, decides)
]

-- A chain that stands as a rule inside another answers as if its rules stood there themselves.
pub evaluate-nested :
    {S : Type 0} (before inner after : List (Rule S)) (req : AuthzReq) (s : S)
    → evaluate (before ++ evaluate inner ∷ after) req s
      ≡ evaluate (before ++ (inner ++ after)) req s
unfolding evaluate abstain
evaluate-nested [] [] after req s = refl
evaluate-nested [] (r ∷ inner) after req s =
    first_decided_assoc (r req s).0 (r req s).1 (evaluate inner req (r req s).1)
      (λ u. evaluate after req u)
    ∙ ap (first_decided (r req s).0 (r req s).1) (evaluate-nested [] inner after req (r req s).1)
evaluate-nested (r ∷ before) inner after req s =
    ap (first_decided (r req s).0 (r req s).1) (evaluate-nested before inner after req (r req s).1)
