-- ===== src/App/Launch/Laws.antt =====
-- The startup: what it logs when it fails, and what runs when it does not.
use authzmtls.App.Launch.{
  Cli, Kong, Line, Logged, ◌>>>◌, or_exit, says, Launch, parsed_by, listening, constructed,
  launched, launch,
}
use authzmtls.App.{Snapshot, Running}
use authzmtls.Common.{
  ◌≡◌, ◌≢◌, refl, sym, ap, subst, ◌∙◌, inl, List, [], ◌∷◌, ◌++◌, append_assoc, none, Bytes, codes,
  All, All-append, Elem, Any-append_right, Result, ok, fail,
}
use authzmtls.Config.Layers.{Yaml}
use authzmtls.Config.{Config}
use authzmtls.Logging.{Level, level_error}
use authzmtls.Server.Lifecycle.{Net, Life}
use authzmtls.Server.{Outside, Sources}

abbrev pub IsQuiet : List Line → Type 0
IsQuiet = All (λ line. line.level ≢ level_error)

fail-injective {ℓ} : {A : Type ℓ} {a b : Bytes} → ◌≡◌ {A = Result A} (fail a) (fail b) → a ≡ b
fail-injective e = cc

-- The last line, and no other, has the level ERROR; it has the error that `run` wraps and returns.
pub record Told (lines : List Line) (e : Bytes) : Type 0 where
  pub before : List Line
  pub line : Line
  pub context : Bytes
  pub cause : Bytes
  pub last : lines ≡ before ++ line ∷ []
  pub quiet : IsQuiet before
  pub level : line.level ≡ level_error
  pub named : Elem (codes "error", cause) line.attributes
  pub returned : e ≡ context ++ cause

-- A step that fails is told in its last line, and one that succeeds has no line of this level.
pub record Tells {ℓ} {A : Type ℓ} (m : Logged A) : Type ℓ where
  pub quiet : (a : A) → m.1 ≡ ok a → IsQuiet m.0
  pub told : (e : Bytes) → m.1 ≡ fail e → Told m.0 e

Told-append :
    (lines more : List Line) (e : Bytes) → IsQuiet lines → Told more e → Told (lines ++ more) e
Told-append lines more e q t = record {
  before = lines ++ t.before;
  line = t.line;
  context = t.context;
  cause = t.cause;
  last = ap (λ x. lines ++ x) t.last ∙ sym (append_assoc lines t.before (t.line ∷ []));
  quiet = All-append _ lines t.before q t.quiet;
  level = t.level;
  named = t.named;
  returned = t.returned;
}

Tells-bind {ℓ μ} :
    {B : Type μ} {A : Type ℓ} (m : Logged A) (next : A → Logged B)
    → Tells m
    → ((a : A) → Tells (next a))
    → Tells (m >>> next)
unfolding ◌>>>◌
Tells-bind (lines, fail e) next h f = record { quiet = λ b q. cc; told = λ e' q. h.told e' (cc q) }
Tells-bind (lines, ok a) next h f = record {
  quiet = λ b q. All-append _ lines (next a).0 (h.quiet a refl) ((f a).quiet b q);
  told = λ e q. Told-append lines (next a).0 e (h.quiet a refl) ((f a).told e q);
}

Tells-or_exit {ℓ} :
    {A : Type ℓ} (message : Bytes) (attributes : List (Bytes × Bytes)) (context : Bytes)
    (r : Result A)
    → Tells (or_exit message attributes context r)
unfolding or_exit
Tells-or_exit message attributes context (ok a) = record { quiet = λ b q. tt; told = λ e q. cc }
Tells-or_exit message attributes context (fail e) = record {
  quiet = λ a q. cc;
  told = λ e' q. record {
    before = [];
    line = _;
    context = context;
    cause = e;
    last = refl;
    quiet = tt;
    level = refl;
    named = Any-append_right _ attributes _ (inl refl);
    returned = fail-injective (sym q);
  };
}

Tells-says {ℓ} :
    {A : Type ℓ} (level : Level) (message : Bytes) (attributes : List (Bytes × Bytes)) (a : A)
    → level ≢ level_error
    → Tells (says level message attributes a)
unfolding says
Tells-says level message attributes a h = record { quiet = λ b q. (h, tt); told = λ e q. cc }

Tells-ok {ℓ} : {A : Type ℓ} (a : A) → Tells ([], ok a)
Tells-ok a = record { quiet = λ b q. tt; told = λ e q. cc }

-- A chain of logged steps that succeeds has succeeded at its first step.
pub logged-eq-ok {ℓ μ} :
    {B : Type μ} {A : Type ℓ} (m : Logged A) (next : A → Logged B) (b : B)
    → (m >>> next).1 ≡ ok b
    → (a : A) × (m.1 ≡ ok a) × ((next a).1 ≡ ok b)
unfolding ◌>>>◌
logged-eq-ok (lines, ok a) next b h = (a, refl, h)
logged-eq-ok (lines, fail e) next b h = cc

pub or_exit-eq-ok {ℓ} :
    {A : Type ℓ} (message : Bytes) (attributes : List (Bytes × Bytes)) (context : Bytes)
    (r : Result A) (a : A)
    → (or_exit message attributes context r).1 ≡ ok a
    → r ≡ ok a
unfolding or_exit
or_exit-eq-ok message attributes context (ok b) a h = h
or_exit-eq-ok message attributes context (fail e) a h = cc

module _ {Node Cert L W Ln N : Type 0} (outside : Outside Node Cert L W) (yaml : Yaml Node)
    (kong : Kong) (network : Net Ln N) (version : Bytes) (show : List Bytes → Bytes) where
  abbrev Launches : Type 0
  Launches = Launch outside yaml kong network version show

  listening-Tells :
      (c : Cli) (r : Running Node Cert (Sources outside)) (x : Result Ln × Life Ln × N)
      → Tells (listening outside yaml kong network version show c r x)
  listening-Tells c r (ok ln, life, w) = Tells-ok _
  listening-Tells c r (fail e, life, w) = Tells-or_exit {A = Launches} _ _ _ (fail e)

  constructed-Tells :
      (cfg : Config Node) → Tells (constructed outside yaml kong network version show cfg)
  unfolding constructed
  constructed-Tells cfg = Tells-bind _ _ (Tells-or_exit _ [] _ _) (λ set.
      Tells-bind _ _ (Tells-or_exit _ [] _ _)
        (λ rules. Tells-bind _ _ (Tells-or_exit _ [] _ _) (λ server. Tells-ok _)))

  launched-Tells :
      (now : Snapshot) (w : N) (c : Cli)
      → Tells (launched outside yaml kong network version show now w c)
  unfolding launched
  launched-Tells now w c = Tells-bind _ _ (Tells-or_exit _ _ _ _) (λ cfg.
      Tells-bind _ _ (Tells-says _ _ _ _ (λ e. cc)) (λ cfg.
        Tells-bind _ _ (constructed-Tells cfg)
          (λ r. Tells-bind _ _ (Tells-says _ _ _ _ (λ e. cc)) (λ r. listening-Tells c r _))))

  -- If kong's parser can be built: when the startup fails, its last log line is of level ERROR, the
  -- only one, and has the error that `run` returns with a context in front, so that the exit of the
  -- process is explained once; when it succeeds, there is no line of this level.
  pub launch-Tells :
      (now : Snapshot) (w : N) (args : List Bytes)
      → kong.broken ≡ none
      → Tells (launch outside yaml kong network version show now w args)
  unfolding launch
  launch-Tells now w args fine =
      Tells-bind (parsed_by outside yaml kong network version show kong.broken args) _
        (subst (λ o. Tells (parsed_by outside yaml kong network version show o args)) (sym fine)
          (Tells-or_exit _ [] _ (kong.parse args)))
        (λ c. launched-Tells now w c)
