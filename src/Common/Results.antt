-- ===== src/Common/Results.antt =====
-- A Go pair of a value and an error, of which the program uses one: the value if the error is nil.
use mathlib.Core.Path.{◌≡◌, refl}
use mathlib.Core.Logic.{◌⊎◌, inl, inr}
use mathlib.Core.List.{◌++◌}
use authzmtls.Common.Text.{Bytes}

pub data Result {ℓ} (A : Type ℓ) : Type ℓ where
  ok : A → Result A
  fail : Bytes → Result A

pub Result-cases {ℓ} :
    {A : Type ℓ} (r : Result A) → ((a : A) × (r ≡ ok a)) ⊎ ((e : Bytes) × (r ≡ fail e))
Result-cases (ok a) = inl (a, refl)
Result-cases (fail e) = inr (e, refl)

-- The caller's `if err != nil { return err }`.
infixl 5 ◌>>=◌
abbrev pub ◌>>=◌ {ℓ μ} : {B : Type μ} {A : Type ℓ} → Result A → (A → Result B) → Result B
fail msg >>= next = fail msg
ok v >>= next = next v

-- A chain that succeeds has succeeded at its first step.
pub bind-eq-ok {ℓ μ} :
    {B : Type μ} {A : Type ℓ} (r : Result A) (next : A → Result B) {w : B}
    → (r >>= next) ≡ ok w
    → (v : A) × (r ≡ ok v) × (next v ≡ ok w)
bind-eq-ok (ok v) next e = (v, refl, e)
bind-eq-ok (fail msg) next e = cc

pub ok-injective {ℓ} : {A : Type ℓ} (a b : A) → ok a ≡ ok b → a ≡ b
ok-injective a b e = cc

-- `fmt.Errorf` with `%w` at its end.
abbrev pub wrapped {ℓ} : {A : Type ℓ} → Bytes → Result A → Result A
wrapped context (ok a) = ok a
wrapped context (fail e) = fail (context ++ e)

pub wrapped-eq-ok {ℓ} :
    {A : Type ℓ} (context : Bytes) (a : A) (r : Result A) → wrapped context r ≡ ok a → r ≡ ok a
wrapped-eq-ok context a (ok b) h = h
wrapped-eq-ok context a (fail e) h = cc
