-- ===== src/Rules/Matcher/Laws.antt =====
-- The contract of `Allowed`, and what it means for the components of a path.
pub mod Components
use authzmtls.Common.{
  ℕ, true, false, ◌≡◌, ◌≢◌, ◌⊎◌, ◌↔◌, refl, sym, ap, ap₂, ◌∙◌, append_assoc, List, [], ◌∷◌, ◌++◌,
  Bytes, arith, Any, Bool-cases, inl, inr, bytes_eq, bytes_eq_iff, bytes-cases, ==_iff,
  if◌then◌else◌, subst,
}
use authzmtls.GoStd.Strings.{has_prefix}
use authzmtls.GoStd.FilePath.{slash}
use authzmtls.Rules.Matcher.{Matcher, boundary, allowed_by, allowed}

pub has_prefix-append : (p rest : Bytes) → has_prefix (p ++ rest) p ≡ true
unfolding has_prefix
has_prefix-append [] [] = refl
has_prefix-append [] (b ∷ rest) = refl
has_prefix-append (c ∷ p) rest = ground (arith, has_prefix-append p rest)

pub has_prefix-split : (s p : Bytes) → has_prefix s p ≡ true → (rest : Bytes) × (s ≡ p ++ rest)
unfolding has_prefix
has_prefix-split s [] h = (s, refl)
has_prefix-split [] (c ∷ p) h = cc
has_prefix-split (b ∷ s) (c ∷ p) h =
    let (rest, e) = has_prefix-split s p (ground arith) in
    let same : b ≡ c = ground arith in (rest, ap₂ ◌∷◌ same e)

-- The path is the prefix, or stands below it: the prefix is followed by a slash, and the root is
-- its own slash.
pub data Covers (prefix path : Bytes) : Type 0 where
  same : path ≡ prefix → Covers prefix path
  below :
      (rest : Bytes) → prefix ≢ slash ∷ [] → path ≡ prefix ++ (slash ∷ rest) → Covers prefix path
  root : (rest : Bytes) → prefix ≡ slash ∷ [] → path ≡ slash ∷ rest → Covers prefix path

boundary_root : (prefix : Bytes) → prefix ≡ slash ∷ [] → boundary prefix ≡ slash ∷ []
boundary_root prefix e = rw ((bytes_eq_iff prefix (slash ∷ [])).1 e)

boundary_other : (prefix : Bytes) → prefix ≢ slash ∷ [] → boundary prefix ≡ prefix ++ slash ∷ []
boundary_other prefix h = ground (arith, bytes_eq_iff prefix (slash ∷ []))

boundary-Covers : (prefix path rest : Bytes) → path ≡ boundary prefix ++ rest → Covers prefix path
boundary-Covers prefix path rest e = elim (bytes-cases prefix (slash ∷ [])) [
  | inl is_root ↦ root rest is_root (e ∙ ap (λ b. b ++ rest) (boundary_root prefix is_root))
  | inr (other, _) ↦ below rest other (
      e ∙ ap (λ b. b ++ rest) (boundary_other prefix other) ∙ append_assoc prefix (slash ∷ []) rest)
]

has_prefix-boundary :
    (prefix path rest : Bytes)
    → path ≡ boundary prefix ++ rest
    → has_prefix path (boundary prefix) ≡ true
has_prefix-boundary prefix path rest e =
    ap (λ p. has_prefix p (boundary prefix)) e ∙ has_prefix-append (boundary prefix) rest

Covers-tests :
    (prefix path : Bytes)
    → Covers prefix path
    → (bytes_eq path prefix ≡ true) ⊎ (has_prefix path (boundary prefix) ≡ true)
Covers-tests prefix path (same e) = inl ((bytes_eq_iff path prefix).1 e)
Covers-tests prefix path (below rest other e) = inr (
    has_prefix-boundary prefix path rest (
      e
      ∙ sym (append_assoc prefix (slash ∷ []) rest)
      ∙ ap (λ b. b ++ rest) (sym (boundary_other prefix other))))
Covers-tests prefix path (root rest is_root e) = inr (
    has_prefix-boundary prefix path rest
      (e ∙ ap (λ b. b ++ rest) (sym (boundary_root prefix is_root))))

tests-Covers : (prefix path : Bytes) → has_prefix path (boundary prefix) ≡ true → Covers prefix path
tests-Covers prefix path h =
    let (rest, e) = has_prefix-split path (boundary prefix) h in boundary-Covers prefix path rest e

allowed_by-Covers :
    (prefixes : List Bytes) (path : Bytes)
    → allowed_by prefixes path ≡ true
    → Any (λ q. Covers q path) prefixes
unfolding allowed_by
allowed_by-Covers [] path h = cc
allowed_by-Covers (q ∷ prefixes) path h = elim (Bool-cases (bytes_eq path q)) [
  | inl hit ↦ inl (same ((bytes_eq_iff path q).0 hit))
  | inr miss ↦ elim (Bool-cases (has_prefix path (boundary q))) [
    | inl hit ↦ inl (tests-Covers q path hit)
    | inr other ↦ inr (allowed_by-Covers prefixes path (ground arith))
  ]
]

Covers-allowed_by :
    (prefixes : List Bytes) (path : Bytes)
    → Any (λ q. Covers q path) prefixes
    → allowed_by prefixes path ≡ true
unfolding allowed_by
Covers-allowed_by [] path h = absurd h
Covers-allowed_by (q ∷ prefixes) path (inl c) = ground (arith, Covers-tests q path c)
Covers-allowed_by (q ∷ prefixes) path (inr m) = ground (arith, Covers-allowed_by prefixes path m)

-- A path is allowed exactly when one of the prefixes is the path itself or a directory above it.
pub allowed_iff :
    (m : Matcher) (path : Bytes) → (allowed m path ≡ true) ↔ Any (λ q. Covers q path) m.prefixes
unfolding allowed
allowed_iff m path = (allowed_by-Covers m.prefixes path, Covers-allowed_by m.prefixes path)
