-- ===== src/Common/Lists.antt =====
-- Lists: lengths over the native numbers, and the predicates "every", "some" and "is an element"
-- by recursion, which the tactics read.
use Prim.Native.Nat.{ℕ, suc, zero, ◌+◌}
use mathlib.Core.Path.{◌≡◌, refl, ap, sym, subst}
use mathlib.Core.Logic.{◌⊎◌, ◌↔◌, inl, inr}
use mathlib.Core.Bool.{Bool, true, false, ◌&&◌, ◌||◌}
use mathlib.Core.Option.{Option, none, some}
use mathlib.Core.List.{List, [], ◌∷◌, ◌++◌, map}
use native.Mathlib.Omega.{arith}

module _ {ℓ} {A : Type ℓ} where
  abbrev pub length : List A → ℕ
  length [] = 0
  length (x ∷ xs) = suc (length xs)

  abbrev pub get_elem? : List A → ℕ → Option A
  get_elem? [] i = none
  get_elem? (x ∷ xs) zero = some x
  get_elem? (x ∷ xs) (suc i) = get_elem? xs i

  abbrev pub set : List A → ℕ → A → List A
  set [] i v = []
  set (x ∷ xs) zero v = v ∷ xs
  set (x ∷ xs) (suc i) v = x ∷ set xs i v

  abbrev pub replicate : ℕ → A → List A
  replicate zero a = []
  replicate (suc n) a = a ∷ replicate n a

  abbrev pub any : (A → Bool) → List A → Bool
  any p [] = false
  any p (x ∷ xs) = p x || any p xs

  abbrev pub all : (A → Bool) → List A → Bool
  all p [] = true
  all p (x ∷ xs) = p x && all p xs

  pub length-append : (xs ys : List A) → length (xs ++ ys) ≡ length xs + length ys
  length-append [] ys = omega arith
  length-append (x ∷ xs) ys = omega (arith, length-append xs ys)

module _ {ℓ κ} {A : Type ℓ} (P : A → Type κ) where
  abbrev pub All : List A → Type κ
  All [] = Unit
  All (x ∷ xs) = P x × All xs

  pub All-append : (xs ys : List A) → All xs → All ys → All (xs ++ ys)
  All-append [] ys hx hy = hy
  All-append (x ∷ xs) ys hx hy = (hx.0, All-append xs ys hx.1 hy)

  pub All-of_append : (xs ys : List A) → All (xs ++ ys) → All xs × All ys
  All-of_append [] ys h = (tt, h)
  All-of_append (x ∷ xs) ys (h, hs) = let (hx, hy) = All-of_append xs ys hs in ((h, hx), hy)

pub All-map {ℓ κ μ} :
    {A : Type ℓ} (P : A → Type κ) (Q : A → Type μ)
    → ((x : A) → P x → Q x)
    → (xs : List A) → All P xs
    → All Q xs
All-map P Q f [] h = tt
All-map P Q f (x ∷ xs) h = (f x h.0, All-map P Q f xs h.1)

module _ {ℓ} {A : Type ℓ} (P : A → Type 0) where
  -- Some element has the property; a proof says which one.
  abbrev pub Any : List A → Type 0
  Any [] = ⊥
  Any (x ∷ xs) = P x ⊎ Any xs

  pub Any-append_left : (xs ys : List A) → Any xs → Any (xs ++ ys)
  Any-append_left (x ∷ xs) ys (inl h) = inl h
  Any-append_left (x ∷ xs) ys (inr h) = inr (Any-append_left xs ys h)
  Any-append_left [] ys h = absurd h

  pub Any-append_right : (xs ys : List A) → Any ys → Any (xs ++ ys)
  Any-append_right [] ys h = h
  Any-append_right (x ∷ xs) ys h = inr (Any-append_right xs ys h)

  pub Any-of_append : (xs ys : List A) → Any (xs ++ ys) → Any xs ⊎ Any ys
  Any-of_append [] ys h = inr h
  Any-of_append (x ∷ xs) ys (inl h) = inl (inl h)
  Any-of_append (x ∷ xs) ys (inr h) = elim (Any-of_append xs ys h) [
    | inl a ↦ inl (inr a)
    | inr b ↦ inr b
  ]

pub Any-map {ℓ} :
    {A : Type ℓ} (P Q : A → Type 0) → ((x : A) → P x → Q x) → (xs : List A) → Any P xs → Any Q xs
Any-map P Q f [] h = h
Any-map P Q f (x ∷ xs) (inl h) = inl (f x h)
Any-map P Q f (x ∷ xs) (inr h) = inr (Any-map P Q f xs h)

-- `a` is an element; a proof is a position.
abbrev pub Elem : {A : Type 0} → A → List A → Type 0
Elem a = Any (λ x. a ≡ x)

pub All-Elem {κ} : {A : Type 0} (P : A → Type κ) {a : A} (xs : List A) → All P xs → Elem a xs → P a
All-Elem P (x ∷ xs) h (inl e) = subst P (sym e) h.0
All-Elem P (x ∷ xs) h (inr m) = All-Elem P xs h.1 m
All-Elem P [] h m = absurd m

pub All-of_Elem :
    {A : Type 0} (P : A → Type 0) (xs : List A) → ((x : A) → Elem x xs → P x) → All P xs
All-of_Elem P [] h = tt
All-of_Elem P (x ∷ xs) h = (h x (inl refl), All-of_Elem P xs (λ y m. h y (inr m)))

pub Elem-map : {A B : Type 0} (f : A → B) (a : A) (xs : List A) → Elem a xs → Elem (f a) (map f xs)
Elem-map f a (x ∷ xs) (inl e) = inl (ap f e)
Elem-map f a (x ∷ xs) (inr m) = inr (Elem-map f a xs m)
Elem-map f a [] m = absurd m

pub Elem-of_map :
    {A B : Type 0} (f : A → B) {b : B} (xs : List A)
    → Elem b (map f xs)
    → (a : A) × Elem a xs × (b ≡ f a)
Elem-of_map f (x ∷ xs) (inl e) = (x, inl refl, e)
Elem-of_map f (x ∷ xs) (inr m) = let (a, h, e) = Elem-of_map f xs m in (a, inr h, e)
Elem-of_map f [] m = absurd m

pub Elem-last : {A : Type 0} (v w : A) (xs : List A) → Elem v (xs ++ w ∷ []) ↔ (Elem v xs ⊎ (v ≡ w))
Elem-last v w xs = (
  λ m. elim (Any-of_append _ xs (w ∷ []) m) [ inl a ↦ inl a | inr b ↦ inr (ground arith) ],
  λ m. elim m [ inl a ↦ Any-append_left _ xs _ a | inr e ↦ Any-append_right _ xs _ (inl e) ],
)
