-- ===== src/Datasources/Cache/Flight/Family.antt =====
-- The calls by number: a change at one number, and counts over the first so many.
use authzmtls.Common.{ℕ, zero, suc, ◌+◌, ◌≤◌, ◌<◌, ◌≡◌, refl, ap₂, ◌==◌, if◌then◌else◌, arith}
use native.Mathlib.Decide.{dec_lt}

module _ {A : Type 0} where
  abbrev pub place : (ℕ → A) → ℕ → A → ℕ → A
  place f i a j = if i == j then a else f j

module _ {A : Type 0} (w : A → ℕ) where
  unfoldable pub total : ℕ → (ℕ → A) → ℕ
  total zero f = 0
  total (suc n) f = total n f + w (f n)

  total-place_of_le :
      (n : ℕ) (f : ℕ → A) (i : ℕ) (a : A) → n ≤ i → total n (place f i a) ≡ total n f
  unfolding total
  total-place_of_le zero f i a h = refl
  total-place_of_le (suc n) f i a h = ground (arith, total-place_of_le n f i a)

  pub total-place :
      (n : ℕ) (f : ℕ → A) (i : ℕ) (a : A)
      → i < n
      → total n (place f i a) + w (f i) ≡ total n f + w a
  unfolding total
  total-place zero f i a h = absurd (omega arith)
  total-place (suc n) f i a h = elim (dec_lt i n) [
    | yes below ↦ ground (arith, total-place n f i a below)
    | no last ↦ ground (arith, total-place_of_le n f i a)
  ]

  pub total-same : (n : ℕ) (f g : ℕ → A) → ((i : ℕ) → w (f i) ≡ w (g i)) → total n f ≡ total n g
  unfolding total
  total-same zero f g h = refl
  total-same (suc n) f g h = ap₂ ◌+◌ (total-same n f g h) (h n)
