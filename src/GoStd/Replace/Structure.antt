-- ===== src/GoStd/Replace/Structure.antt =====
-- What a replacement leaves of the bytes that give an LDAP filter (RFC 4515) its structure.
use authzmtls.Common.{
  ℕ, zero, suc, ◌≡◌, refl, ap, ◌∙◌, inl, inr, Bool, Bool-cases, true, ◌||◌, [], ◌∷◌, ◌++◌, Bytes,
  ◌==◌, ==_iff, and-eq-true, length, if◌then◌else◌,
}
use authzmtls.GoStd.Replace.{replace_from, replace_all}
use authzmtls.GoStd.Strings.{has_prefix}

-- A byte that makes a filter's structure: a parenthesis, the wildcard, or NUL.
abbrev pub is_meta : ℕ → Bool
is_meta b = b == b'(' || (b == b')' || (b == b'*' || b == 0))

-- The bytes that make the structure, in their order.
abbrev pub structure : Bytes → Bytes
structure [] = []
structure (b ∷ s) = if is_meta b then b ∷ structure s else structure s

abbrev drop : ℕ → Bytes → Bytes
drop zero s = s
drop (suc k) [] = []
drop (suc k) (b ∷ s) = drop k s

cons-ne-nil : {b : ℕ} {s : Bytes} → ¬ (b ∷ s ≡ [])
cons-ne-nil e = cc

structure-append_plain : (s t : Bytes) → structure s ≡ [] → structure (s ++ t) ≡ structure t
structure-append_plain [] t h = refl
structure-append_plain (b ∷ s) t h = elim (Bool-cases (is_meta b)) [
  | inl m ↦ absurd (cons-ne-nil (rw m at h))
  | inr p ↦ rw p (structure-append_plain s t (rw p at h))
]

-- Dropping a prefix without structure.
structure-drop :
    (s p : Bytes)
    → has_prefix s p ≡ true
    → structure p ≡ []
    → structure (drop (length p) s) ≡ structure s
unfolding has_prefix
structure-drop s [] h k = refl
structure-drop [] (c ∷ p) h k = refl
structure-drop (b ∷ s) (c ∷ p) h k =
    let (same, rest) = and-eq-true (b == c) (has_prefix s p) h in
    elim (Bool-cases (is_meta c)) [
      | inl m ↦ absurd (cons-ne-nil (rw m at k))
      | inr plain ↦ structure-drop s p rest (rw plain at k) ∙ rw ((==_iff b c).0 same, plain) refl
    ]

structure-replace_from :
    (skip : ℕ) (s : Bytes) (o : ℕ) (old new : Bytes)
    → structure (o ∷ old) ≡ []
    → structure new ≡ []
    → structure (replace_from skip s (o ∷ old) new) ≡ structure (drop skip s)
unfolding replace_from
structure-replace_from zero [] o old new h k = refl
structure-replace_from (suc skip) [] o old new h k = refl
structure-replace_from (suc skip) (b ∷ s) o old new h k =
    structure-replace_from skip s o old new h k
structure-replace_from zero (b ∷ s) o old new h k =
    elim (Bool-cases (has_prefix (b ∷ s) (o ∷ old))) [
      | inl found ↦ rw found (
          structure-append_plain new (replace_from (length old) s (o ∷ old) new) k
          ∙ structure-replace_from (length old) s o old new h k
          ∙ structure-drop (b ∷ s) (o ∷ old) found h)
      | inr other ↦
          rw other
            (ap (λ t. if is_meta b then b ∷ t else t) (structure-replace_from 0 s o old new h k))
    ]

-- A token and a value without structure leave the structure of the text.
pub structure-replace_all :
    (s : Bytes) (o : ℕ) (old new : Bytes)
    → structure (o ∷ old) ≡ []
    → structure new ≡ []
    → structure (replace_all s (o ∷ old) new) ≡ structure s
unfolding replace_all
structure-replace_all s o old new h k = structure-replace_from 0 s o old new h k
