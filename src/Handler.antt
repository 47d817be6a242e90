-- ===== src/Handler.antt =====
-- internal/dockerapi/handler.go: the endpoints `/AuthZPlugin.AuthZReq` and `/AuthZPlugin.AuthZRes`.
-- `json.NewDecoder(r.Body).Decode` is a parameter; a response is a value, with its status.
pub mod Laws
use authzmtls.Common.{
  ℕ, ◌+◌, Bool, true, false, List, [], ◌∷◌, ◌++◌, Option, none, some, Bytes, codes, Result, ok,
  fail,
}
use authzmtls.DockerApi.{AuthzReq, AuthzRes, PluginActivateRes}

-- What `Decide` returns: the answer, and the error if there is one.
pub record Reply : Type 0 where
  pub allow : Bool
  pub msg : Bytes
  pub err : Option Bytes

-- `Decider`, on what it may change.
abbrev pub Decider : Type 0 → Type 0
Decider D = AuthzReq → D → Reply × D

-- The TRACE records.
pub data Traced : Type 0 where
  request_traced : AuthzReq → Traced
  response_traced : AuthzRes → Traced

-- The decider's state, the TRACE records, and how many latencies were recorded.
pub record Endpoint (D : Type 0) : Type 0 where
  pub decider : D
  pub trace : List Traced
  pub latencies : ℕ

pub record Response (A : Type 0) : Type 0 where
  pub status : ℕ
  pub body : A

abbrev pub malformed : Bytes → AuthzRes
malformed e = record { allow = false; msg = []; err = codes "malformed AuthZReq: " ++ e }

-- `res := AuthZRes{...}`, and `res.Err` if there is an error.
abbrev pub error_text : Option Bytes → Bytes
error_text none = []
error_text (some e) = e

abbrev pub to_res : Reply → AuthzRes
to_res r = record { allow = r.allow; msg = r.msg; err = error_text r.err }

-- `handleActivate`.
unfoldable pub handle_activate : Response PluginActivateRes
handle_activate = record { status = 200; body = record { implements = codes "authz" ∷ [] } }

module _ {D : Type 0} (decide : Decider D) where
  -- `writeAuthZRes`.
  unfoldable pub write_authz_res : AuthzRes → Endpoint D → Response AuthzRes × Endpoint D
  write_authz_res res h = (
    record { status = 200; body = res },
    record h { trace = h.trace ++ response_traced res ∷ [] },
  )

  -- What both handlers do with the result of `decodeRequest`, which writes the response to a
  -- malformed request itself.
  unfoldable pub handle_decoded : Result AuthzReq → Endpoint D → Response AuthzRes × Endpoint D
  handle_decoded (fail e) h = (record { status = 400; body = malformed e }, h)
  handle_decoded (ok req) h =
      let traced = h.trace ++ request_traced req ∷ [] in
      let (reply, d) = decide req h.decider in
      write_authz_res (to_res reply) (record h { decider = d; trace = traced })

  module _ (decode : Bytes → Result AuthzReq) where
    -- `handleAuthZRes`.
    unfoldable pub handle_authz_res : Bytes → Endpoint D → Response AuthzRes × Endpoint D
    handle_authz_res body h = handle_decoded (decode body) h

    -- `handleAuthZReq`; its deferred function records the latency at the end.
    unfoldable pub handle_authz_req : Bytes → Endpoint D → Response AuthzRes × Endpoint D
    handle_authz_req body h =
        let (res, h') = handle_decoded (decode body) h in
        (res, record h' { latencies = h'.latencies + 1 })
