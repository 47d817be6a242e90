-- ===== src/App/Launch/Started.antt =====
-- A startup that succeeds leaves the process that App.antt models, behind a listener.
use authzmtls.App.Launch.Laws.{logged-eq-ok, or_exit-eq-ok}
use authzmtls.App.Launch.{
  Cli, Kong, overrides_of, Logged, ◌>>>◌, or_exit, says, Launch, parsed_by, listening, constructed,
  launched, launch,
}
use authzmtls.App.Laws.{start-loaded}
use authzmtls.App.{Snapshot, Running, start}
use authzmtls.Common.{
  ◌≡◌, refl, sym, ap, subst, ◌∙◌, inl, inr, true, List, [], Option, none, some, Bytes, Result, ok,
  fail, ◌>>=◌, Result-cases, ok-injective,
}
use authzmtls.Config.Layers.{Yaml}
use authzmtls.Config.{Config}
use authzmtls.Datasources.Registry.{new_set}
use authzmtls.Logging.{Level}
use authzmtls.Server.Lifecycle.{Net, Life, not_started, listened}
use authzmtls.Server.Lifecycle
use authzmtls.Server.{Outside, Sources, convert_datasources, new_builtin_chain, new_server}

says-eq-ok {ℓ} :
    {A : Type ℓ} (level : Level) (message : Bytes) (attributes : List (Bytes × Bytes)) (a b : A)
    → (says level message attributes a).1 ≡ ok b
    → a ≡ b
unfolding says
says-eq-ok level message attributes a b h = ok-injective a b h

-- The steps of a startup that logs give what the same steps give without the log.
unfoldable Gives {ℓ} : {A : Type ℓ} → Logged A → Result A → A → Type ℓ
Gives m r a = m.1 ≡ ok a → r ≡ ok a

Gives-bind {ℓ μ} :
    {B : Type μ} {A : Type ℓ} (m : Logged A) (r : Result A) (next : A → Logged B)
    (then : A → Result B) (b : B)
    → ((a : A) → Gives m r a)
    → ((a : A) → Gives (next a) (then a) b)
    → Gives (m >>> next) (r >>= then) b
unfolding ◌>>>◌ Gives
Gives-bind (lines, fail e) r next then b f g h = cc
Gives-bind (lines, ok a) r next then b f g h = rw (f a refl) (g a h)

Gives-or_exit {ℓ} :
    {A : Type ℓ} (message : Bytes) (attributes : List (Bytes × Bytes)) (context : Bytes)
    (r : Result A) (a : A)
    → Gives (or_exit message attributes context r) r a
unfolding or_exit Gives
Gives-or_exit message attributes context (ok b) a h = h
Gives-or_exit message attributes context (fail e) a h = cc

module _ {Node Cert L W Ln N : Type 0} (outside : Outside Node Cert L W) (yaml : Yaml Node)
    (kong : Kong) (network : Net Ln N) (version : Bytes) (show : List Bytes → Bytes) where
  constructed-Gives :
      (cfg : Config Node) (r : Running Node Cert (Sources outside))
      → Gives
          (constructed outside yaml kong network version show cfg)
          (new_set outside.fmt outside.wiring outside.registry (convert_datasources cfg.datasources)
            >>= λ set. new_builtin_chain outside cfg >>= λ rules.
                new_server outside cfg rules
                  (record { sources = set; log = []; requests = 0; denials = 0 })
                >>= λ server. ok (record { store = cfg; server = server }))
          r
  unfolding constructed Gives
  constructed-Gives cfg r = Gives-bind _ _ _ _ r (Gives-or_exit _ [] _ _) (λ set.
      Gives-bind _ _ _ _ r (Gives-or_exit _ [] _ _)
        (λ rules. Gives-bind _ _ _ _ r (Gives-or_exit _ [] _ _) (λ server h. h)))

  -- The server is behind a listener that `net.Listen` has given for the address.
  abbrev pub Behind : Bytes → N → Life Ln → Type 0
  Behind address w life =
      (ln : Ln) × ((network.listen address w).0 ≡ ok ln)
      × (life ≡ record { started = true; listener = some ln })

  -- The process listens, for the command line `c` and the process `r`.
  abbrev Listens :
      Cli
      → Running Node Cert (Sources outside)
      → Bytes
      → N
      → Launch outside yaml kong network version show
      → Type 0
  Listens c r address w l = (l.cli ≡ c) × (l.running ≡ r) × Behind address w l.life

  parsed_by-eq-ok :
      (broken : Option Bytes) (args : List Bytes) (c : Cli)
      → (parsed_by outside yaml kong network version show broken args).1 ≡ ok c
      → kong.parse args ≡ ok c
  parsed_by-eq-ok none args c h = or_exit-eq-ok _ [] _ (kong.parse args) c h
  parsed_by-eq-ok (some e) args c h = cc

  listening-Listens :
      (c : Cli) (r : Running Node Cert (Sources outside)) (address : Bytes) (w : N)
      (l : Launch outside yaml kong network version show)
      → (listening outside yaml kong network version show c r
          (Lifecycle.start network address not_started w)).1
        ≡ ok l
      → Listens c r address w l
  unfolding Lifecycle.start or_exit
  listening-Listens c r address w l h = elim (Result-cases (network.listen address w).0) [
    | inl (ln, e) ↦
        let same : record {
          cli = c;
          running = r;
          life = record { started = true; listener = some ln };
          net = (network.listen address w).1;
        }
            ≡ l =
          ok-injective _ l (rw e at h) in
        subst (Listens c r address w) same (refl, refl, (ln, e, refl))
    | inr (m, e) ↦ cc (rw e at h)
  ]

  launched-Started :
      (now : Snapshot) (w : N) (c : Cli) (l : Launch outside yaml kong network version show)
      → (launched outside yaml kong network version show now w c).1 ≡ ok l
      → (l.cli ≡ c)
        × (start outside yaml c.config_path (overrides_of c) now ≡ ok l.running)
        × Behind l.running.store.server.listen_addr w l.life
  unfolding launched start Gives
  launched-Started now w c l h =
      let (cfg, e₁, h₁) = logged-eq-ok _ _ l h in
      let (cfg', e₂, h₂) = logged-eq-ok _ _ l h₁ in
      let (r, e₃, h₃) = logged-eq-ok _ _ l h₂ in
      let (r', e₄, h₄) = logged-eq-ok _ _ l h₃ in
      let (same_cli, same_run, behind) = listening-Listens c r' cfg'.server.listen_addr w l h₄ in
      let loaded = or_exit-eq-ok _ _ _ _ cfg e₁ in
      let same = says-eq-ok _ _ _ cfg cfg' e₂ in
      let started = constructed-Gives cfg r (
        subst (λ x. (constructed outside yaml kong network version show x).1 ≡ ok r) (sym same)
          e₃) in
      let begun : start outside yaml c.config_path (overrides_of c) now ≡ ok l.running =
        rw loaded (started ∙ ap ok (says-eq-ok _ _ _ r r' e₄ ∙ sym same_run)) in
      let stored = ok-injective cfg l.running.store (
        sym loaded
        ∙ start-loaded outside yaml c.config_path (overrides_of c) now l.running begun) in
      (
        same_cli,
        begun,
        subst (λ x. Behind x.server.listen_addr w l.life) (sym same ∙ stored) behind,
      )

  -- A startup that succeeds has parsed the command line, leaves the process in a state in which
  -- requests and reloads may come, for the configuration path and the flags of the command line, and
  -- the server behind a listener for the address of its configuration.
  pub launch-Started :
      (now : Snapshot) (w : N) (args : List Bytes)
      (l : Launch outside yaml kong network version show)
      → (launch outside yaml kong network version show now w args).1 ≡ ok l
      → (kong.parse args ≡ ok l.cli)
        × (start outside yaml l.cli.config_path (overrides_of l.cli) now ≡ ok l.running)
        × Behind l.running.store.server.listen_addr w l.life
  unfolding launch
  launch-Started now w args l h =
      let (c, parsed, h₁) = logged-eq-ok _ _ l h in
      let (same, begun, behind) = launched-Started now w c l h₁ in
      (
        parsed_by-eq-ok kong.broken args c parsed ∙ ap ok (sym same),
        subst (λ x. start outside yaml x.config_path (overrides_of x) now ≡ ok l.running) (sym same)
            begun,
        behind,
      )
