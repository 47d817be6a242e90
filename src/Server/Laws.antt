-- ===== src/Server/Laws.antt =====
-- What a reload and a start leave behind.
use authzmtls.Common.{
  ◌≡◌, ◌⊎◌, refl, sym, ap, subst, ◌∙◌, inl, inr, Bool, true, false, List, [], ◌∷◌, map, Option,
  Option-cases, none, some, Bytes, codes, All, Result-cases, ok, wrapped, wrapped-eq-ok, bind-eq-ok,
  ok-injective,
}
use authzmtls.Config.{Config}
use authzmtls.Datasources.Cache.{Lru, IsLru, flush}
use authzmtls.Datasources.Inputs.{SetState}
use authzmtls.Datasources.Registry.{
  Source, Wiring, new_set, flush_source, flush_set, source_resolver,
}
use authzmtls.GoStd.Fmt.{Fmt}
use authzmtls.Rules.Builtin.{builtin_chain}
use authzmtls.Rules.Chain.{Process}
use authzmtls.Rules.Decision.{Rule}
use authzmtls.Server.{
  Server, Outside, Sources, convert_datasources, tls_mode, load_certificate, new_builtin_chain,
  same_mode, rebuild, or_kept, swapped, reload, get_certificate, new_server,
}

-- The cache knows nothing of any identity.
abbrev pub Forgets : {L W : Type 0} → Lru L → Source L W → Type 0
Forgets lru s = (k : Bytes) → (lru.get k s.cached.cache).0 ≡ none

module _ {L W : Type 0} (fmt : Fmt) (wiring : Wiring L W) where
  flush_set-Forgets :
      IsLru wiring.lru
      → (s : SetState (Source L W)) → All (Forgets wiring.lru) (flush_set fmt wiring s).providers
  unfolding flush_set flush
  flush_set-Forgets laws s = each s.providers
    where
      each : (ss : List (Source L W)) → All (Forgets wiring.lru) (map (flush_source fmt wiring) ss)
      each [] = tt
      each (s ∷ ss) = (λ k. laws.get-purge k s.cached.cache, each ss)

module _ {Node Cert L W : Type 0} (outside : Outside Node Cert L W) where
  -- What a successful reload leaves behind.
  pub record Applied (cfg : Config Node) (s s' : Server Cert (Sources outside)) : Type 0 where
    pub mode : s'.tls_enabled ≡ s.tls_enabled
    pub configured_mode : tls_mode cfg ≡ ok s.tls_enabled
    pub rules :
        s'.active.rules
        ≡ builtin_chain outside.host cfg (source_resolver outside.fmt outside.wiring)
    pub timeout : s'.active.decision_timeout ≡ cfg.server.decision_timeout
    pub set : SetState (Source L W)
    pub rebuilt :
        new_set outside.fmt outside.wiring outside.registry (convert_datasources cfg.datasources)
        ≡ ok set
    pub sources : s'.active.process.sources ≡ flush_set outside.fmt outside.wiring set
    pub revoked : All (Forgets outside.wiring.lru) s'.active.process.sources.providers
    pub certificate :
        ((s.tls_enabled ≡ false) × (s'.cert ≡ s.cert))
        ⊎ ((s.tls_enabled ≡ true)
            × ((cert : Cert) × (outside.load_key_pair cfg.server.server_cert cfg.server.server_key
                  ≡ ok cert)
                × (s'.cert ≡ some cert)))

  same_mode-eq-ok : (a b c : Bool) → same_mode outside a b ≡ ok c → a ≡ b
  same_mode-eq-ok true true c h = refl
  same_mode-eq-ok false false c h = refl
  same_mode-eq-ok true false c h = cc
  same_mode-eq-ok false true c h = cc

  pub new_builtin_chain-eq-ok :
      (cfg : Config Node) (rules : List (Rule (Sources outside)))
      → new_builtin_chain outside cfg ≡ ok rules
      → builtin_chain outside.host cfg (source_resolver outside.fmt outside.wiring) ≡ rules
  new_builtin_chain-eq-ok cfg rules h = elim (Option-cases outside.wiring.instruments) [
    | inl fine ↦ ok-injective _ rules (rw fine at h)
    | inr (e, broken) ↦ cc (rw broken at h)
  ]

  pub load_certificate-eq-ok :
      (tls : Bool) (context cert_file key_file : Bytes) (cert old : Option Cert)
      → load_certificate outside tls context cert_file key_file ≡ ok cert
      → ((tls ≡ false) × (or_kept outside cert old ≡ old))
        ⊎ ((tls ≡ true)
            × ((c : Cert) × (outside.load_key_pair cert_file key_file ≡ ok c)
                × (or_kept outside cert old ≡ some c)))
  load_certificate-eq-ok false context cert_file key_file cert old h =
      inl (refl, subst (λ c. or_kept outside c old ≡ old) (ok-injective none cert h) refl)
  load_certificate-eq-ok true context cert_file key_file cert old h =
      let (c, loaded, e) =
        bind-eq-ok (wrapped context (outside.load_key_pair cert_file key_file)) _ h in
      inr (
        refl,
        (
          c,
          wrapped-eq-ok context c _ loaded,
          subst (λ o. or_kept outside o old ≡ some c) (ok-injective (some c) cert e) refl,
        ),
      )

  rebuild-Applied :
      (cfg : Config Node) (s : Server Cert (Sources outside))
      (parts : Sources outside × List (Rule (Sources outside)) × Option Cert)
      → IsLru outside.wiring.lru
      → rebuild outside cfg s ≡ ok parts
      → Applied cfg s (swapped outside cfg s (ok parts)).1
  unfolding rebuild
  rebuild-Applied cfg s parts laws h =
      let (tls, mode, h₁) = bind-eq-ok (tls_mode cfg) _ h in
      let (kept, same, h₂) = bind-eq-ok (same_mode outside tls s.tls_enabled) _ h₁ in
      let (set, built, h₃) =
        bind-eq-ok
          (wrapped (codes "server: rebuilding datasources: ") (
            new_set outside.fmt outside.wiring outside.registry
              (convert_datasources cfg.datasources)))
          _ h₂ in
      let (rules, chained, h₄) =
        bind-eq-ok
          (wrapped (codes "server: rebuilding rule chain: ") (new_builtin_chain outside cfg)) _
          h₃ in
      let (cert, loaded, done) =
        bind-eq-ok
          (load_certificate outside s.tls_enabled (codes "server: reloading TLS certificate: ")
            cfg.server.server_cert cfg.server.server_key)
          _ h₄ in
      let chain =
        new_builtin_chain-eq-ok cfg rules
          (wrapped-eq-ok (codes "server: rebuilding rule chain: ") rules _ chained) in
      let next : Sources outside × List (Rule (Sources outside)) × Option Cert
          → Server Cert (Sources outside) =
        λ x. (swapped outside cfg s (ok x)).1 in
      subst (λ x. Applied cfg s (next x)) (ok-injective _ parts done)
        (record {
          mode = refl;
          configured_mode = mode ∙ ap ok (same_mode-eq-ok tls s.tls_enabled kept same);
          rules = sym chain;
          timeout = refl;
          set = set;
          rebuilt = wrapped-eq-ok (codes "server: rebuilding datasources: ") set _ built;
          sources = refl;
          revoked = flush_set-Forgets outside.fmt outside.wiring laws set;
          certificate =
              load_certificate-eq-ok s.tls_enabled (codes "server: reloading TLS certificate: ")
                cfg.server.server_cert cfg.server.server_key cert s.cert loaded;
        })

  -- A reload that reports an error leaves the server as it is; one that reports none has swapped in
  -- the chain, the timeout and, under TLS, the certificate of the new configuration, keeps the TLS
  -- mode, and leaves no cached value of any identity.
  pub reload-Applied :
      (cfg : Config Node) (s : Server Cert (Sources outside))
      → IsLru outside.wiring.lru
      → ((e : Bytes) × (reload outside cfg s ≡ (some e, s)))
        ⊎ (((reload outside cfg s).0 ≡ none) × Applied cfg s (reload outside cfg s).1)
  unfolding reload
  reload-Applied cfg s laws = elim (Result-cases (rebuild outside cfg s)) [
    | inr (e, failed) ↦ rw failed (inl (e, refl))
    | inl (parts, built) ↦ rw built (inr (refl, rebuild-Applied cfg s parts laws built))
  ]

  -- What `New` sets up.
  pub record Opened (cfg : Config Node) (rules : List (Rule (Sources outside)))
      (s : Server Cert (Sources outside)) : Type 0 where
    pub same_rules : s.active.rules ≡ rules
    pub timeout : s.active.decision_timeout ≡ cfg.server.decision_timeout
    pub mode : tls_mode cfg ≡ ok s.tls_enabled
    pub certificate : s.tls_enabled ≡ true → (cert : Cert) × (s.cert ≡ some cert)

  or_kept-none : (o : Option Cert) → or_kept outside o none ≡ o
  or_kept-none none = refl
  or_kept-none (some c) = refl

  certificate-present :
      (tls : Bool) (context cert_file key_file : Bytes) (cert : Option Cert)
      → load_certificate outside tls context cert_file key_file ≡ ok cert
      → tls ≡ true
      → (c : Cert) × (cert ≡ some c)
  certificate-present tls context cert_file key_file cert h on =
      elim (load_certificate-eq-ok tls context cert_file key_file cert none h) [
        | inl (off, _) ↦ cc (on, off)
        | inr (_, (c, _, e)) ↦ (c, sym (or_kept-none cert) ∙ e)
      ]

  pub new_server-Opened :
      (cfg : Config Node) (rules : List (Rule (Sources outside)))
      (process : Process (Sources outside)) (s : Server Cert (Sources outside))
      → new_server outside cfg rules process ≡ ok s
      → Opened cfg rules s
  unfolding new_server
  new_server-Opened cfg rules process s h =
      let (tls, mode, h₁) = bind-eq-ok (tls_mode cfg) _ h in
      let (cert, certified, same) =
        bind-eq-ok
          (load_certificate outside tls (codes "server: loading initial TLS certificate: ")
            cfg.server.server_cert cfg.server.server_key)
          _ h₁ in
      subst (Opened cfg rules) (ok-injective _ s same) (record {
        same_rules = refl;
        timeout = refl;
        mode = mode;
        certificate =
            certificate-present tls (codes "server: loading initial TLS certificate: ")
              cfg.server.server_cert cfg.server.server_key cert certified;
      })

  pub get_certificate-some :
      (s : Server Cert (Sources outside)) (cert : Cert)
      → s.cert ≡ some cert
      → get_certificate outside s ≡ ok cert
  get_certificate-some s cert e = rw e refl
