-- ===== src/App/Laws.antt =====
-- The process between startup and exit.
use authzmtls.App.{
  Snapshot, Running, AppState, running, load_now, start, on_reload, on_sighup, on_request,
}
use authzmtls.Common.{
  ◌≡◌, sym, ap, subst, ◌∙◌, inl, inr, true, List, [], some, Bytes, Result, Result-cases, ok, ◌>>=◌,
  bind-eq-ok, ok-injective,
}
use authzmtls.Config.Full.{load_full}
use authzmtls.Config.Full.Laws.{load_full-Overridden}
use authzmtls.Config.Layers.{Yaml}
use authzmtls.Config.Overrides.{FlagOverrides}
use authzmtls.Config.Validate.Laws.{IsValid}
use authzmtls.Config.{Config}
use authzmtls.Datasources.Cache.{IsLru}
use authzmtls.Datasources.Registry.{source_resolver, new_set}
use authzmtls.DockerApi.{AuthzReq}
use authzmtls.Rules.Builtin.{builtin_chain}
use authzmtls.Rules.Chain
use authzmtls.Rules.Decision.{Rule}
use authzmtls.Server.Laws.{
  Applied, reload-Applied, Opened, new_server-Opened, new_builtin_chain-eq-ok, get_certificate-some,
}
use authzmtls.Server.{
  Server, Outside, Sources, convert_datasources, tls_mode, new_builtin_chain, new_server,
  decide_active, get_certificate,
}

module _ {Node Cert L W : Type 0} (outside : Outside Node Cert L W) (yaml : Yaml Node)
    (path : Bytes) (overrides : FlagOverrides) where
  -- The store was loaded from the files at some time, and is what the server goes by.
  pub record Serving (r : Running Node Cert (Sources outside)) : Type 0 where
    pub read_at : Snapshot
    pub loaded : load_now outside yaml path overrides read_at ≡ ok r.store
    pub rules :
        r.server.active.rules
        ≡ builtin_chain outside.host r.store (source_resolver outside.fmt outside.wiring)
    pub timeout : r.server.active.decision_timeout ≡ r.store.server.decision_timeout
    pub mode : tls_mode r.store ≡ ok r.server.tls_enabled
    pub certificate : r.server.tls_enabled ≡ true → (cert : Cert) × (r.server.cert ≡ some cert)

  -- What can happen to a process that goes on.
  pub data Step
      : Running Node Cert (Sources outside) → Running Node Cert (Sources outside) → Type 0 where
    asked :
        (req : AuthzReq) (r : Running Node Cert (Sources outside))
        → Step r (on_request outside yaml path overrides req r).1
    hung_up :
        (now : Snapshot) {r r' : Running Node Cert (Sources outside)}
        → on_sighup outside yaml path overrides now r ≡ running r'
        → Step r r'

  pub data Reach : Running Node Cert (Sources outside) → Type 0 where
    started :
        (now : Snapshot) {r : Running Node Cert (Sources outside)}
        → start outside yaml path overrides now ≡ ok r
        → Reach r
    next : {r r' : Running Node Cert (Sources outside)} → Reach r → Step r r' → Reach r'

  on_request-Serving :
      (req : AuthzReq) (r : Running Node Cert (Sources outside))
      → Serving r
      → Serving (on_request outside yaml path overrides req r).1
  unfolding on_request decide_active
  on_request-Serving req r h = record {
    read_at = h.read_at;
    loaded = h.loaded;
    rules = h.rules;
    timeout = h.timeout;
    mode = h.mode;
    certificate = h.certificate;
  }

  running-injective :
      {r r' : Running Node Cert (Sources outside)}
      → AppState.running r ≡ AppState.running r'
      → r ≡ r'
  running-injective e = cc

  new_server-Serving :
      (now : Snapshot) (cfg : Config Node) (rules : List (Rule (Sources outside)))
      (server : Server Cert (Sources outside))
      → load_now outside yaml path overrides now ≡ ok cfg
      → new_builtin_chain outside cfg ≡ ok rules
      → Opened outside cfg rules server
      → Serving (record { store = cfg; server = server })
  new_server-Serving now cfg rules server loaded chained o = record {
    read_at = now;
    loaded = loaded;
    rules = o.same_rules ∙ sym (new_builtin_chain-eq-ok outside cfg rules chained);
    timeout = o.timeout;
    mode = o.mode;
    certificate = o.certificate;
  }

  -- The startup behind the load.
  boot : Config Node → Sources outside → Result (Running Node Cert (Sources outside))
  boot cfg set = new_builtin_chain outside cfg >>= λ rules.
      new_server outside cfg rules (record { sources = set; log = []; requests = 0; denials = 0 })
      >>= λ server. ok (record { store = cfg; server = server })

  boot-Serving :
      (now : Snapshot) (cfg : Config Node) (set : Sources outside)
      (r : Running Node Cert (Sources outside))
      → load_now outside yaml path overrides now ≡ ok cfg
      → boot cfg set ≡ ok r
      → Serving r
  unfolding boot
  boot-Serving now cfg set r loaded h =
      let (rules, chained, h₁) = bind-eq-ok (new_builtin_chain outside cfg) _ h in
      let process : Chain.Process (Sources outside) = record {
        sources = set;
        log = [];
        requests = 0;
        denials = 0;
      } in
      let (server, opened, same) = bind-eq-ok (new_server outside cfg rules process) _ h₁ in
      subst Serving (ok-injective _ r same) (
        new_server-Serving now cfg rules server loaded chained
          (new_server-Opened outside cfg rules process server opened))

  pub start-Serving :
      (now : Snapshot) (r : Running Node Cert (Sources outside))
      → start outside yaml path overrides now ≡ ok r
      → Serving r
  unfolding start boot
  start-Serving now r h =
      let (cfg, loaded, h₁) = bind-eq-ok (load_now outside yaml path overrides now) _ h in
      let (set, built, h₂) =
        bind-eq-ok
          (new_set outside.fmt outside.wiring outside.registry
            (convert_datasources cfg.datasources))
          _ h₁ in
      boot-Serving now cfg set r loaded h₂

  boot-store :
      (cfg : Config Node) (set : Sources outside) (r : Running Node Cert (Sources outside))
      → boot cfg set ≡ ok r
      → cfg ≡ r.store
  unfolding boot
  boot-store cfg set r h =
      let (rules, chained, h₁) = bind-eq-ok (new_builtin_chain outside cfg) _ h in
      let process : Chain.Process (Sources outside) = record {
        sources = set;
        log = [];
        requests = 0;
        denials = 0;
      } in
      let (server, opened, same) = bind-eq-ok (new_server outside cfg rules process) _ h₁ in
      ap (λ x. x.store) (ok-injective _ r same)

  -- What the startup has loaded is what the store has.
  pub start-loaded :
      (now : Snapshot) (r : Running Node Cert (Sources outside))
      → start outside yaml path overrides now ≡ ok r
      → load_now outside yaml path overrides now ≡ ok r.store
  unfolding start boot
  start-loaded now r h =
      let (cfg, loaded, h₁) = bind-eq-ok (load_now outside yaml path overrides now) _ h in
      let (set, built, h₂) =
        bind-eq-ok
          (new_set outside.fmt outside.wiring outside.registry
            (convert_datasources cfg.datasources))
          _ h₁ in
      loaded ∙ ap ok (boot-store cfg set r h₂)

  reload-Serving :
      (now : Snapshot) (cfg : Config Node) (s s' : Server Cert (Sources outside))
      → load_now outside yaml path overrides now ≡ ok cfg
      → (s.tls_enabled ≡ true → (cert : Cert) × (s.cert ≡ some cert))
      → Applied outside cfg s s'
      → Serving (record { store = cfg; server = s' })
  reload-Serving now cfg s s' loaded had a = record {
    read_at = now;
    loaded = loaded;
    rules = a.rules;
    timeout = a.timeout;
    mode = a.configured_mode ∙ ap ok (sym a.mode);
    certificate = λ on. elim a.certificate [
      | inl (off, _) ↦ cc (on, off, a.mode)
      | inr (_, (c, _, e)) ↦ (c, e)
    ];
  }

  reloaded-Serving :
      (now : Snapshot) (cfg : Config Node) (r r' : Running Node Cert (Sources outside))
      → IsLru outside.wiring.lru
      → load_now outside yaml path overrides now ≡ ok cfg
      → Serving r
      → on_reload outside yaml path overrides (ok cfg) r ≡ running r'
      → Serving r'
  reloaded-Serving now cfg r r' laws loaded s h = elim (reload-Applied outside cfg r.server laws) [
    | inl (e, refused) ↦ cc (rw refused at h)
    | inr (done, applied) ↦
        subst Serving (running-injective (rw done at h))
          (reload-Serving now cfg r.server _ loaded s.certificate applied)
  ]

  on_sighup-Serving :
      (now : Snapshot) (r r' : Running Node Cert (Sources outside))
      → IsLru outside.wiring.lru
      → on_sighup outside yaml path overrides now r ≡ running r'
      → Serving r
      → Serving r'
  unfolding on_sighup
  on_sighup-Serving now r r' laws h s =
      elim (Result-cases (load_now outside yaml path overrides now)) [
        | inr (e, failed) ↦ cc (rw failed at h)
        | inl (cfg, loaded) ↦ reloaded-Serving now cfg r r' laws loaded s (rw loaded at h)
      ]

  pub Reach-Serving :
      {r : Running Node Cert (Sources outside)} → IsLru outside.wiring.lru → Reach r → Serving r
  Reach-Serving laws (started now h) = start-Serving now _ h
  Reach-Serving laws (next before (asked req r)) =
      on_request-Serving req r (Reach-Serving laws before)
  Reach-Serving laws (next before (hung_up now {r} {r'} h)) =
      on_sighup-Serving now r r' laws h (Reach-Serving laws before)

  -- In whatever order requests and SIGHUPs come, while the process goes on: the configuration that it
  -- keeps is one that loading the files gave at some time, and valid then; the server has the chain of
  -- rules and the timeout of this configuration; and under TLS there is a certificate for a handshake.
  pub Reach-IsValid :
      {r : Running Node Cert (Sources outside)}
      → IsLru outside.wiring.lru
      → Reach r
      → Serving r
        × ((now : Snapshot) × IsValid outside.fmt now.stat r.store)
        × (r.server.tls_enabled ≡ true
            → (cert : Cert) × (get_certificate outside r.server ≡ ok cert))
  unfolding load_full
  Reach-IsValid {r} laws h =
      let s = Reach-Serving laws h in
      let (valid, _) =
        load_full-Overridden outside.fmt s.read_at.files yaml s.read_at.stat path overrides r.store
          s.loaded in
      (
        s,
        (s.read_at, valid),
        λ on.
            let (cert, e) = s.certificate on in
            (cert, get_certificate-some outside r.server cert e),
      )
