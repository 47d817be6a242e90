-- ===== src/Rules/Expand/Placeholders.antt =====
-- The names of a pattern's placeholders, and its tokens with values in their places.
use authzmtls.Common.{
  ◌≡◌, ◌⊎◌, refl, ap, ap₂, List, [], ◌∷◌, ◌++◌, Bytes, Elem, Bool-cases, inl, inr, bytes_in,
  bytes_in_iff,
}
use authzmtls.Rules.Expand.Scan.{Token, byte, var, print}
use authzmtls.Rules.Expand.{unique_names, fill}

unique_names-Elem :
    (n : Bytes) (seen : List Bytes) (ts : List Token)
    → Elem (var n) ts
    → Elem n (unique_names seen ts) ⊎ Elem n seen
unfolding unique_names
unique_names-Elem n seen [] h = absurd h
unique_names-Elem n seen (byte b ∷ ts) (inl e) = cc
unique_names-Elem n seen (byte b ∷ ts) (inr m) = unique_names-Elem n seen ts m
unique_names-Elem n seen (var k ∷ ts) h = elim (Bool-cases (bytes_in k seen)) [
  | inl old ↦ rw old (elim h [
    | inl e ↦ inr (rw (name_eq e) ((bytes_in_iff k seen).0 old))
    | inr m ↦ unique_names-Elem n seen ts m
  ])
  | inr new ↦ rw new (elim h [
    | inl e ↦ inl (inl (name_eq e))
    | inr m ↦ shift (unique_names-Elem n (k ∷ seen) ts m)
  ])
]
  where
    name_eq : var n ≡ var k → n ≡ k
    name_eq e = cc

    shift :
        Elem n (unique_names (k ∷ seen) ts) ⊎ Elem n (k ∷ seen)
        → Elem n (k ∷ unique_names (k ∷ seen) ts) ⊎ Elem n seen
    shift (inl m) = inl (inr m)
    shift (inr (inl e)) = inl (inl e)
    shift (inr (inr m)) = inr m

pub Elem-unique_names :
    (n : Bytes) (seen : List Bytes) (ts : List Token)
    → Elem n (unique_names seen ts)
    → Elem (var n) ts
unfolding unique_names
Elem-unique_names n seen [] h = absurd h
Elem-unique_names n seen (byte b ∷ ts) h = inr (Elem-unique_names n seen ts h)
Elem-unique_names n seen (var k ∷ ts) h = elim (Bool-cases (bytes_in k seen)) [
  | inl old ↦ inr (Elem-unique_names n seen ts (rw old at h))
  | inr new ↦ pick (Elem-unique_names n (k ∷ seen) ts) (rw new at h)
]
  where
    pick :
        (Elem n (unique_names (k ∷ seen) ts) → Elem (var n) ts)
        → Elem n (k ∷ unique_names (k ∷ seen) ts)
        → Elem (var n) (var k ∷ ts)
    pick rest (inl e) = inl (ap var e)
    pick rest (inr m) = inr (rest m)

pub fill-ext :
    (f g : Bytes → Bytes) (ts : List Token)
    → ((n : Bytes) → Elem (var n) ts → f n ≡ g n)
    → fill f ts ≡ fill g ts
unfolding fill
fill-ext f g [] h = refl
fill-ext f g (byte b ∷ ts) h = ap (◌∷◌ b) (fill-ext f g ts (λ n m. h n (inr m)))
fill-ext f g (var k ∷ ts) h = ap₂ ◌++◌ (h k (inl refl)) (fill-ext f g ts (λ n m. h n (inr m)))

pub fill-print :
    (f : Bytes → Bytes) (ts : List Token) → ((n : Bytes) → ¬ Elem (var n) ts) → fill f ts ≡ print ts
unfolding fill
fill-print f [] h = refl
fill-print f (byte b ∷ ts) h = ap (◌∷◌ b) (fill-print f ts (λ n m. h n (inr m)))
fill-print f (var k ∷ ts) h = absurd (h k (inl refl))

pub name-of_token : (n : Bytes) (ts : List Token) → Elem (var n) ts → Elem n (unique_names [] ts)
name-of_token n ts m = elim (unique_names-Elem n [] ts m) [ inl h ↦ h | inr h ↦ absurd h ]
