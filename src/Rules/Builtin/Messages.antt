-- ===== src/Rules/Builtin/Messages.antt =====
-- What the message of a denial may say.
use authzmtls.Common.{
  ◌≡◌, refl, inl, inr, Bool, Bool-cases, true, false, List, [], ◌∷◌, ◌++◌, map, Option,
  Option-cases, none, some, Bytes, codes, arith, All, Any-append_left, Any-append_right, Elem,
  Elem-map, Result, ok, fail, bytes_eq,
}
use authzmtls.Config.{Config, CheckSetting, check_deny}
use authzmtls.DockerApi.{AuthzReq}
use authzmtls.Rules.Body.{binds, network_mode, privileged, volume_bind_device}
use authzmtls.Rules.Builtin.Admins.{admin_rule-Matched}
use authzmtls.Rules.Builtin.Total.{gated}
use authzmtls.Rules.Builtin.{admins, builtin_chain}
use authzmtls.Rules.Chain.{evaluate, first_decided}
use authzmtls.Rules.Decision.{Decision, Rule, abstain, allow, deny}
use authzmtls.Rules.Gates.{
  gate, is_host_mode, is_set, host_network_rule, privileged_rule, docker_cp_rule, docker_exec_rule,
}
use authzmtls.Rules.Host.{Host}
use authzmtls.Rules.Matcher.{Matcher}
use authzmtls.Rules.Admin.{AdminRule, admin_rule}
use authzmtls.Rules.Mounts.Laws.{
  VolumeAnswer, not_a_bind, permitted, refused, volume_rule-VolumeAnswer,
}
use authzmtls.Rules.Mounts.{
  mount_denied, device_denied, first_not_allowed, mount_decision, mount_rule, mount_paths,
  volume_rule,
}
use authzmtls.Rules.Sources.{Resolver}
use authzmtls.Rules.Uri.{is_docker_cp, is_docker_exec_create}
use authzmtls.Rules.Verdicts.{Verdict, is_abstain}

abbrev gate_messages : List Bytes
gate_messages =
    codes "host networking requested and denied by policy"
    ∷ codes "privileged mode requested and denied by policy"
    ∷ codes "docker cp denied by policy"
    ∷ codes "docker exec denied by policy"
    ∷ []

abbrev device_messages : Option Bytes → List Bytes
device_messages none = []
device_messages (some device) = device_denied device ∷ []

-- Every message of a denial of this request. The list is made of the request alone: neither the
-- configuration nor a datasource has a part in it.
abbrev pub denial_messages : Host → AuthzReq → List Bytes
denial_messages host req =
    gate_messages
    ++ (device_messages (volume_bind_device host req.request_uri req.request_body)
        ++ map mount_denied (binds host req.request_uri req.request_body))

-- A result that denies with none but the given messages.
abbrev Says : List Bytes → Result Decision → Type 0
Says messages (fail e) = Unit
Says messages (ok d) = d.verdict ≡ Verdict.deny → Elem d.msg messages

module _ (messages : List Bytes) {S : Type 0} where
  first_decided-Says :
      (result : Result Decision) (s : S) (later : Result Decision × S)
      → Says messages result
      → Says messages later.0
      → Says messages (first_decided result s later).0
  first_decided-Says (fail e) s later h k = tt
  first_decided-Says (ok d) s later h k = elim (Bool-cases (is_abstain d.verdict)) [
    | inl yields ↦ rw yields k
    | inr decides ↦ rw decides h
  ]

  evaluate-Says :
      (rules : List (Rule S)) (req : AuthzReq)
      → All (λ r. (s : S) → Says messages (r req s).0) rules
      → (s : S) → Says messages (evaluate rules req s).0
  unfolding evaluate abstain
  evaluate-Says [] req h s = λ e. cc
  evaluate-Says (r ∷ rs) req h s =
      first_decided-Says (r req s).0 (r req s).1 (evaluate rs req (r req s).1) (h.0 s)
        (evaluate-Says rs req h.1 (r req s).1)

  gate-Says :
      (asked : Bool) (setting : CheckSetting) (refusal consent : Bytes) (s : S)
      → Elem refusal messages
      → Says messages (gated asked (gate setting refusal consent) s).0
  unfolding abstain allow deny
  gate-Says false setting refusal consent s m = λ e. cc
  gate-Says true setting refusal consent s m = elim (Bool-cases (bytes_eq setting check_deny)) [
    | inl denies ↦ rw denies (λ e. m)
    | inr permits ↦ rw permits (λ e. cc)
  ]

first_not_allowed-Elem :
    (paths : List Bytes) (flags : List Bool) (p : Bytes)
    → first_not_allowed paths flags ≡ some p
    → Elem p paths
unfolding first_not_allowed
first_not_allowed-Elem [] flags p h = cc
first_not_allowed-Elem (q ∷ paths) [] p h = cc
first_not_allowed-Elem (q ∷ paths) (false ∷ flags) p h = inl (ground arith)
first_not_allowed-Elem (q ∷ paths) (true ∷ flags) p h = inr (first_not_allowed-Elem paths flags p h)

mount_decision-Says :
    (paths : List Bytes) (flags : List Bool)
    → Says (map mount_denied paths) (ok (mount_decision paths (first_not_allowed paths flags)))
unfolding mount_decision allow deny
mount_decision-Says paths flags = elim (Option-cases (first_not_allowed paths flags)) [
  | inl none_refused ↦ rw (none_refused, mount_decision) (λ e. cc)
  | inr (p, e) ↦
      rw (e, mount_decision)
        (λ v. Elem-map mount_denied p paths (first_not_allowed-Elem paths flags p e))
]

Says-more :
    (before messages after : List Bytes) (result : Result Decision)
    → Says messages result
    → Says (before ++ (messages ++ after)) result
Says-more before messages after (fail e) h = tt
Says-more before messages after (ok d) h =
    λ v. Any-append_right _ before (messages ++ after) (Any-append_left _ messages after (h v))

Says-last :
    (before messages : List Bytes) (result : Result Decision)
    → Says messages result
    → Says (before ++ messages) result
Says-last before messages (fail e) h = tt
Says-last before messages (ok d) h = λ v. Any-append_right _ before messages (h v)

module _ {S : Type 0} (host : Host) (ds : Resolver S) (patterns : List Bytes) (req : AuthzReq) where
  mount_rule-Says : (s : S) → Says (denial_messages host req) (mount_rule host ds patterns req s).0
  unfolding mount_rule mount_paths abstain
  mount_rule-Says s =
      let paths = binds host req.request_uri req.request_body in
      let devices = device_messages (volume_bind_device host req.request_uri req.request_body) in
      Says-last gate_messages (devices ++ map mount_denied paths) _
        (Says-last devices (map mount_denied paths) _ (said paths))
    where
      said :
          (paths : List Bytes)
          → Says (map mount_denied paths) (mount_paths host ds patterns req paths s).0
      said [] = λ e. cc
      said (p ∷ ps) = mount_decision-Says (p ∷ ps) _

  volume_rule-Says :
      (s : S) → Says (denial_messages host req) (volume_rule host ds patterns req s).0
  unfolding abstain allow deny
  volume_rule-Says s =
      let (d, e, answer) = volume_rule-VolumeAnswer host ds patterns req s in
      Says-more gate_messages _ (map mount_denied (binds host req.request_uri req.request_body)) _
        (rw e (said answer))
    where
      said :
          {m : Matcher} {device : Option Bytes} {d : Decision}
          → VolumeAnswer host m device d
          → Says (device_messages device) (ok d)
      said (not_a_bind _ e) = rw e (λ v. cc)
      said (permitted path _ _ e) = rw e (λ v. cc)
      said (refused path f _ e) = rw (e, f) (λ v. inl refl)

module _ {S : Type 0} (host : Host) (req : AuthzReq) (setting : CheckSetting) (s : S) where
  host_network_rule-Says : Says (denial_messages host req) (host_network_rule host setting req s).0
  unfolding host_network_rule
  host_network_rule-Says =
      gate-Says (denial_messages host req)
        (is_host_mode (network_mode host req.request_uri req.request_body)) setting _ _ s (inl refl)

  privileged_rule-Says : Says (denial_messages host req) (privileged_rule host setting req s).0
  unfolding privileged_rule
  privileged_rule-Says =
      gate-Says (denial_messages host req)
        (is_set (privileged host req.request_uri req.request_body)) setting _ _ s (inr (inl refl))

  docker_cp_rule-Says : Says (denial_messages host req) (docker_cp_rule setting req s).0
  unfolding docker_cp_rule
  docker_cp_rule-Says =
      gate-Says (denial_messages host req) (is_docker_cp req.request_method req.request_uri) setting
        _ _ s (inr (inr (inl refl)))

  docker_exec_rule-Says : Says (denial_messages host req) (docker_exec_rule setting req s).0
  unfolding docker_exec_rule
  docker_exec_rule-Says =
      gate-Says (denial_messages host req)
        (is_docker_exec_create req.request_method req.request_uri) setting _ _ s
        (inr (inr (inr (inl refl))))

admin_rule-Says :
    {S : Type 0} (host : Host) (ds : Resolver S) (r : AdminRule) (req : AuthzReq) (s : S)
    (messages : List Bytes)
    → Says messages (admin_rule host ds r req s).0
unfolding abstain
admin_rule-Says host ds r req s messages =
    let (d, e, answer) = admin_rule-Matched host ds r req s in
    rw e (elim answer [ inl (_, v, _) ↦ (λ w. cc) | inr (_, same) ↦ (λ w. cc) ])

-- The message of a denial is one of a list that depends on the request only: no denial tells its
-- caller anything of the datasources, the allowlist or the administrators.
pub denial-Elem :
    {S Node : Type 0} (host : Host) (cfg : Config Node) (ds : Resolver S) (req : AuthzReq) (s : S)
    (d : Decision)
    → (evaluate (builtin_chain host cfg ds) req s).0 ≡ ok d
    → d.verdict ≡ Verdict.deny
    → Elem d.msg (denial_messages host req)
unfolding builtin_chain
denial-Elem host cfg ds req s d e v =
    let said =
      evaluate-Says (denial_messages host req) (builtin_chain host cfg ds) req
        (
          (λ t. admin_rule-Says host ds (admins host cfg ds) req t (denial_messages host req)),
          (
            mount_rule-Says host ds cfg.allowlist req,
            (
              volume_rule-Says host ds cfg.allowlist req,
              (
                host_network_rule-Says host req cfg.checks.host_network,
                (
                  privileged_rule-Says host req cfg.checks.privileged,
                  (
                    docker_cp_rule-Says host req cfg.checks.docker_cp,
                    (docker_exec_rule-Says host req cfg.checks.docker_exec, tt),
                  ),
                ),
              ),
            ),
          ),
        )
        s in
    (rw e at said) v
