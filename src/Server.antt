-- ===== src/Server.antt =====
-- internal/server/server.go: the state that `New` sets up and `Reload` swaps. Sockets, the HTTP
-- server and the parsing of certificates are outside.
pub mod Laws
pub mod Lifecycle
pub mod Routes
use authzmtls.Common.{
  ℤ, Bool, true, false, not, ◌&&◌, List, [], ◌∷◌, ◌++◌, map, Option, none, some, Bytes, codes,
  bytes_eq, Result, ok, fail, wrapped, ◌>>=◌, if◌then◌else◌,
}
use authzmtls.Config.{Config, DatasourceConfig}
use authzmtls.Datasources.Inputs.{SetState}
use authzmtls.Datasources.Registry.{
  Registry, Source, SourceConfig, Wiring, new_set, flush_set, source_resolver,
}
use authzmtls.DockerApi.{AuthzReq}
use authzmtls.GoStd.Fmt.{Fmt}
use authzmtls.Rules.Builtin.{builtin_chain}
use authzmtls.Rules.Chain.{Answer, Process, decide}
use authzmtls.Rules.Decision.{Rule}
use authzmtls.Rules.Host.{Host}

-- `state`: the decider, which is a chain with the set of providers behind it, and the timeout.
pub record Active (S : Type 0) : Type 0 where
  pub rules : List (Rule S)
  pub process : Process S
  pub decision_timeout : ℤ

-- `Server`; `cert` is `none` for a nil pointer.
pub record Server (Cert S : Type 0) : Type 0 where
  pub tls_enabled : Bool
  pub cert : Option Cert
  pub active : Active S

-- `convertDatasources`.
abbrev pub convert_datasource : {Node : Type 0} → DatasourceConfig Node → SourceConfig Node
convert_datasource c = record { name = c.name; kind = c.kind; cache_ttl = c.cache_ttl; raw = c.raw }

abbrev pub convert_datasources :
    {Node : Type 0} → List (DatasourceConfig Node) → List (SourceConfig Node)
convert_datasources cfgs = map convert_datasource cfgs

-- Where `server_cert` and `server_key` are both set, or both unset: whether they are.
unfoldable pub tls_mode : {Node : Type 0} → Config Node → Result Bool
unfolding bytes_eq
tls_mode cfg =
    let cert_set = not (bytes_eq cfg.server.server_cert []) in
    let key_set = not (bytes_eq cfg.server.server_key []) in
    let one_sided =
      codes
        "server: server_cert and server_key must both be set (TLS) or both unset (plain HTTP)" in
    if cert_set
    then (if key_set then ok true else fail one_sided)
    else (if key_set then fail one_sided else ok false)

-- What the server takes from outside; `load_key_pair` is `tls.LoadX509KeyPair`, and `deadline` gives
-- the providers the context of a call.
pub record Outside (Node Cert L W : Type 0) : Type 0 where
  pub host : Host
  pub fmt : Fmt
  pub wiring : Wiring L W
  pub registry : Registry Node W
  pub load_key_pair : Bytes → Bytes → Result Cert
  pub deadline : ℤ → SetState (Source L W) → SetState (Source L W)

module _ {Node Cert L W : Type 0} (outside : Outside Node Cert L W) where
  abbrev pub Sources : Type 0
  Sources = SetState (Source L W)

  -- `loadCertificate`, where TLS is on; else the pointer stays nil.
  abbrev pub load_certificate : Bool → Bytes → Bytes → Bytes → Result (Option Cert)
  load_certificate false context cert_file key_file = ok none
  load_certificate true context cert_file key_file =
      wrapped context (outside.load_key_pair cert_file key_file) >>= λ cert. ok (some cert)

  -- `rules.NewBuiltinChain`, which fails only if the instruments cannot be created.
  abbrev pub new_builtin_chain : Config Node → Result (List (Rule Sources))
  new_builtin_chain cfg = elim outside.wiring.instruments [
    | some e ↦ fail e
    | none ↦ ok (builtin_chain outside.host cfg (source_resolver outside.fmt outside.wiring))
  ]

  -- `&state{...}`. The log and the counters go on, since the meter shares its instruments by name.
  abbrev pub fresh : List (Rule Sources) → Sources → ℤ → Process Sources → Active Sources
  fresh rules set timeout process = record {
    rules = rules;
    process = record process { sources = set };
    decision_timeout = timeout;
  }

  -- `New`, on the decider of the startup; the nil checks and the mux are left out.
  unfoldable pub new_server :
      Config Node → List (Rule Sources) → Process Sources → Result (Server Cert Sources)
  unfolding tls_mode
  new_server cfg rules process = tls_mode cfg >>= λ tls.
      load_certificate tls (codes "server: loading initial TLS certificate: ")
        cfg.server.server_cert cfg.server.server_key
      >>= λ cert. ok (record {
        tls_enabled = tls;
        cert = cert;
        active = fresh rules process.sources cfg.server.decision_timeout process;
      })

  abbrev pub same_mode : Bool → Bool → Result Bool
  same_mode true true = ok true
  same_mode false false = ok false
  same_mode _ _ = fail (
      codes
        "server: cannot change TLS mode (plain HTTP <-> TLS) via Reload; restart the process instead")

  -- The rebuilding steps of `Reload`, which change nothing: the set, the chain and the certificate.
  unfoldable pub rebuild :
      Config Node → Server Cert Sources → Result (Sources × List (Rule Sources) × Option Cert)
  unfolding tls_mode new_set builtin_chain
  rebuild cfg s = tls_mode cfg >>= λ tls. same_mode tls s.tls_enabled >>= λ _.
      wrapped (codes "server: rebuilding datasources: ")
        (new_set outside.fmt outside.wiring outside.registry (convert_datasources cfg.datasources))
      >>= λ set.
          wrapped (codes "server: rebuilding rule chain: ") (new_builtin_chain cfg) >>= λ rules.
          load_certificate s.tls_enabled (codes "server: reloading TLS certificate: ")
            cfg.server.server_cert cfg.server.server_key
          >>= λ cert. ok (set, rules, cert)

  abbrev pub or_kept : Option Cert → Option Cert → Option Cert
  or_kept none old = old
  or_kept (some cert) old = some cert

  -- The end of `Reload`: the stores, and the flush of the new set.
  abbrev pub swapped :
      Config Node
      → Server Cert Sources
      → Result (Sources × List (Rule Sources) × Option Cert)
      → Option Bytes × Server Cert Sources
  swapped cfg s (fail e) = (some e, s)
  swapped cfg s (ok (set, rules, cert)) = (
    none,
    record s {
      cert = or_kept cert s.cert;
      active =
          fresh rules (flush_set outside.fmt outside.wiring set) cfg.server.decision_timeout
            s.active.process;
    },
  )

  -- `Reload`; `none` is success. The configuration is not nil.
  unfoldable pub reload : Config Node → Server Cert Sources → Option Bytes × Server Cert Sources
  unfolding rebuild flush_set
  reload cfg s = swapped cfg s (rebuild cfg s)

  -- `Server.Decide`.
  unfoldable pub decide_active : AuthzReq → Server Cert Sources → Answer × Server Cert Sources
  unfolding decide
  decide_active req s =
      let st = s.active in
      let timed : Process Sources = record (st.process) {
        sources = outside.deadline st.decision_timeout st.process.sources;
      } in
      let (answer, p) = decide st.rules req timed in
      (answer, record s { active = record st { process = p } })

  -- `getCertificate`.
  abbrev pub get_certificate : Server Cert Sources → Result Cert
  get_certificate s = elim s.cert [
    | none ↦ fail (codes "server: no TLS certificate loaded")
    | some cert ↦ ok cert
  ]
