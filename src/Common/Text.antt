-- ===== src/Common/Text.antt =====
-- A Go `string` is its bytes. Comparison of two strings, and the bytes of a literal.
use Prim.Native.Char.{code}
use Prim.Native.Nat.{ℕ, ◌+◌}
use Prim.Native.String.{String}
use mathlib.Core.Path.{◌≡◌, refl, sym}
use mathlib.Core.Logic.{◌↔◌, ◌≢◌, ◌⊎◌, inl, inr}
use mathlib.Core.Bool.{Bool, true, false, ◌&&◌}
use mathlib.Core.List.{List, [], ◌∷◌, ◌++◌}
use native.Mathlib.Omega.{arith}
use authzmtls.Common.Tests.{◌==◌, Bool-cases, if◌then◌else◌}
use authzmtls.Common.Lists.{any, all, Elem, Elem-last, All}

abbrev pub Bytes : Type 0
Bytes = List ℕ

-- The bytes of a literal, all of which are ASCII here.
abbrev pub codes : String → Bytes
codes String.[] = []
codes (String.◌∷◌ c s) = code c ∷ codes s

unfoldable pub bytes_eq : Bytes → Bytes → Bool
bytes_eq [] [] = true
bytes_eq (x ∷ xs) (y ∷ ys) = x == y && bytes_eq xs ys
bytes_eq _ _ = false

pub bytes_eq_iff : (a b : Bytes) → (bytes_eq a b ≡ true) ↔ (a ≡ b)
unfolding bytes_eq
bytes_eq_iff (x ∷ a) (y ∷ b) = ground (arith, bytes_eq_iff a b)
bytes_eq_iff _ _ = ground arith

pub bytes_eq_refl : (a : Bytes) → bytes_eq a a ≡ true
bytes_eq_refl a = (bytes_eq_iff a a).1 refl

pub bytes-cases : (a b : Bytes) → (a ≡ b) ⊎ ((a ≢ b) × (bytes_eq a b ≡ false))
bytes-cases a b = elim (Bool-cases (bytes_eq a b)) [
  | inl same ↦ inl ((bytes_eq_iff a b).0 same)
  | inr other ↦ inr (λ e. cc (other, (bytes_eq_iff a b).1 e), other)
]

-- Membership of a string in a list, as the keys of a Go set are looked up.
abbrev pub bytes_in : Bytes → List Bytes → Bool
bytes_in a = any (bytes_eq a)

pub bytes_in_iff : (a : Bytes) (xs : List Bytes) → (bytes_in a xs ≡ true) ↔ Elem a xs
bytes_in_iff a [] = ground arith
bytes_in_iff a (x ∷ xs) = ground (arith, bytes_eq_iff a x, bytes_in_iff a xs)

-- The byte does not occur.
abbrev pub Lacks : ℕ → Bytes → Type 0
Lacks c = All (λ b. b ≢ c)

-- How often the byte occurs.
abbrev pub count : ℕ → Bytes → ℕ
count c [] = 0
count c (b ∷ s) = (if b == c then 1 else 0) + count c s

pub count-append : (c : ℕ) (s t : Bytes) → count c (s ++ t) ≡ count c s + count c t
count-append c [] t = omega arith
count-append c (b ∷ s) t = omega (arith, count-append c s t)

pub count-Lacks : (c : ℕ) (s : Bytes) → Lacks c s → count c s ≡ 0
count-Lacks c [] h = refl
count-Lacks c (b ∷ s) h = ground (arith, count-Lacks c s h.1)

pub Lacks-of_not_Elem : (c : ℕ) (s : Bytes) → ¬ Elem c s → Lacks c s
Lacks-of_not_Elem c [] h = tt
Lacks-of_not_Elem c (b ∷ s) h = (λ e. h (inl (sym e)), Lacks-of_not_Elem c s (λ m. h (inr m)))

pub all_iff {ℓ} :
    {A : Type ℓ} (p : A → Bool) (xs : List A) → (all p xs ≡ true) ↔ All (λ x. p x ≡ true) xs
all_iff p [] = ground arith
all_iff p (x ∷ xs) = ground (arith, all_iff p xs)

-- Each string that is not there yet is appended: how the program unions lists, with a Go map of the
-- strings seen.
unfoldable pub append_new : List Bytes → List Bytes → List Bytes
unfolding bytes_eq
append_new base [] = base
append_new base (s ∷ add) = append_new (if bytes_in s base then base else base ++ s ∷ []) add

pub append_new-Elem_iff :
    (t : Bytes) (base add : List Bytes) → Elem t (append_new base add) ↔ (Elem t add ⊎ Elem t base)
unfolding append_new
append_new-Elem_iff t base [] = ground arith
append_new-Elem_iff t base (s ∷ add) = elim (Bool-cases (bytes_in s base)) [
  | inl seen ↦
      let there : t ≡ s → Elem t base = λ e. rw e ((bytes_in_iff s base).0 seen) in
      rw seen (ground (arith, append_new-Elem_iff t base add, there))
  | inr new ↦
      rw new (ground (arith, append_new-Elem_iff t (base ++ s ∷ []) add, Elem-last t s base))
]

-- No string occurs twice.
abbrev pub Distinct : List Bytes → Type 0
Distinct [] = Unit
Distinct (s ∷ rest) = (¬ Elem s rest) × Distinct rest

pub Distinct-last :
    (s : Bytes) (xs : List Bytes) → ¬ Elem s xs → Distinct xs → Distinct (xs ++ s ∷ [])
Distinct-last s [] n h = (λ m. m, tt)
Distinct-last s (x ∷ xs) n h = (
  λ m. elim ((Elem-last x s xs).0 m) [ inl later ↦ h.0 later | inr e ↦ n (inl (sym e)) ],
  Distinct-last s xs (λ m. n (inr m)) h.1,
)

pub append_new-Distinct : (base add : List Bytes) → Distinct base → Distinct (append_new base add)
unfolding append_new
append_new-Distinct base [] h = h
append_new-Distinct base (s ∷ add) h = elim (Bool-cases (bytes_in s base)) [
  | inl seen ↦ rw seen (append_new-Distinct base add h)
  | inr new ↦
      let absent : ¬ Elem s base = λ m. cc (new, (bytes_in_iff s base).1 m) in
      rw new (append_new-Distinct (base ++ s ∷ []) add (Distinct-last s base absent h))
]
