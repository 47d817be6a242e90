-- ===== src/Handler/Laws.antt =====
-- What the daemon gets when the chain of rules is the decider.
use authzmtls.Common.{ℕ, ◌≡◌, refl, false, List, [], ◌∷◌, ◌++◌, none, Bytes, Result, ok, fail}
use authzmtls.DockerApi.{AuthzReq, AuthzRes}
use authzmtls.Handler.{
  Decider, Endpoint, Response, request_traced, response_traced, write_authz_res, handle_decoded,
  handle_authz_res, handle_authz_req,
}
use authzmtls.Rules.Chain.{Process, decide}
use authzmtls.Rules.Decision.{Rule}

-- `Chain.Decide` as the decider: its error is always nil.
abbrev pub chain_decider : {S : Type 0} → List (Rule S) → Decider (Process S)
chain_decider rules req p =
    let (answer, p') = decide rules req p in
    (record { allow = answer.allow; msg = answer.msg; err = none }, p')

module _ {S : Type 0} (rules : List (Rule S)) where
  -- What an endpoint does with a request body: the response and the next state.
  pub data Handled (body : Result AuthzReq) (h : Endpoint (Process S)) (res : Response AuthzRes)
      (h' : Endpoint (Process S)) : Type 0 where
    refused :
        (e : Bytes)
        → body ≡ fail e
        → res.status ≡ 400
        → res.body.allow ≡ false
        → h'.decider ≡ h.decider
        → h'.trace ≡ h.trace
        → Handled body h res h'
    answered :
        (req : AuthzReq)
        → body ≡ ok req
        → res.status ≡ 200
        → res.body ≡ record {
          allow = (decide rules req h.decider).0.allow;
          msg = (decide rules req h.decider).0.msg;
          err = [];
        }
        → h'.decider ≡ (decide rules req h.decider).1
        → h'.trace ≡ (h.trace ++ request_traced req ∷ []) ++ response_traced res.body ∷ []
        → Handled body h res h'

  handle_decoded-Handled :
      (body : Result AuthzReq) (h : Endpoint (Process S))
      → let out = handle_decoded (chain_decider rules) body h in Handled body h out.0 out.1
  unfolding handle_decoded write_authz_res
  handle_decoded-Handled (fail e) h = refused e refl refl refl refl refl
  handle_decoded-Handled (ok req) h = answered req refl refl refl refl refl

  Handled-latencies :
      {body : Result AuthzReq} {h h' : Endpoint (Process S)} {res : Response AuthzRes} (n : ℕ)
      → Handled body h res h'
      → Handled body h res (record h' { latencies = n })
  Handled-latencies n (refused e a b c d f) = refused e a b c d f
  Handled-latencies n (answered req a b c d f) = answered req a b c d f

  -- A body that is no request is refused with status 400 and the chain is not asked. Any other gets
  -- the chain's own answer with status 200 and no error, and request and response are traced, in
  -- this order. So it is for a request and for the daemon's response to it.
  pub handle_authz_req-Handled :
      (decode : Bytes → Result AuthzReq) (body : Bytes) (h : Endpoint (Process S))
      → (let out = handle_authz_req (chain_decider rules) decode body h in
          Handled (decode body) h out.0 out.1)
        × (let out = handle_authz_res (chain_decider rules) decode body h in
            Handled (decode body) h out.0 out.1)
  unfolding handle_authz_req handle_authz_res
  handle_authz_req-Handled decode body h = (
    Handled-latencies _ (handle_decoded-Handled (decode body) h),
    handle_decoded-Handled (decode body) h,
  )
