-- ===== src/Rules/Mounts/Concurrent.antt =====
-- internal/rules/mounts.go: the goroutines of `checkPathsConcurrently`. Each writes its own slot of
-- `allowedFor` once, in an order that the scheduler chooses.
use mathlib.Core.Option.{some-injective}
use authzmtls.Common.{
  ℕ, zero, suc, ◌<◌, ◌≡◌, refl, sym, ap, ap₂, ◌∙◌, Bool, false, List, [], ◌∷◌, none, some, map,
  length, get_elem?, set, replicate, Elem, inl, inr, arith, ◌⊎◌, Option-cases,
}

module _ {A : Type 0} (check : A → Bool) where
  -- Goroutine `i` writes its result.
  write : List A → ℕ → List Bool → List Bool
  write items i flags = elim (get_elem? items i) [ none ↦ flags | some a ↦ set flags i (check a) ]

  write_all : List A → List ℕ → List Bool → List Bool
  unfolding write
  write_all items [] flags = flags
  write_all items (i ∷ order) flags = write_all items order (write items i flags)

-- The slice `allowedFor` when all goroutines have finished, in the order that the scheduler gave.
unfoldable pub check_concurrently : {A : Type 0} → (ℕ → List ℕ) → (A → Bool) → List A → List Bool
unfolding write_all
check_concurrently schedule check items =
    write_all check items (schedule (length items)) (replicate (length items) false)

length-set {ℓ} : {A : Type ℓ} (xs : List A) (i : ℕ) (v : A) → length (set xs i v) ≡ length xs
length-set [] i v = refl
length-set (x ∷ xs) zero v = refl
length-set (x ∷ xs) (suc i) v = ap suc (length-set xs i v)

length-replicate : (n : ℕ) → length (replicate n false) ≡ n
length-replicate zero = refl
length-replicate (suc n) = ap suc (length-replicate n)

module _ {A : Type 0} (check : A → Bool) where
  -- The slot holds the result of its own item.
  abbrev Right : List A → List Bool → ℕ → Type 0
  Right items flags i = get_elem? flags i ≡ get_elem? (map check items) i

  past_end-Right :
      (items : List A) (flags : List Bool) (i : ℕ)
      → length flags ≡ length items
      → get_elem? items i ≡ none
      → Right items flags i
  past_end-Right [] [] i h e = refl
  past_end-Right [] (f ∷ flags) i h e = absurd (omega arith)
  past_end-Right (a ∷ items) [] i h e = absurd (omega arith)
  past_end-Right (a ∷ items) (f ∷ flags) zero h e = cc
  past_end-Right (a ∷ items) (f ∷ flags) (suc i) h e = past_end-Right items flags i (omega arith) e

  set-Right_self :
      (items : List A) (flags : List Bool) (i : ℕ) (a : A)
      → length flags ≡ length items
      → get_elem? items i ≡ some a
      → Right items (set flags i (check a)) i
  set-Right_self [] flags i a h e = cc
  set-Right_self (b ∷ items) [] i a h e = absurd (omega arith)
  set-Right_self (b ∷ items) (f ∷ flags) zero a h e = cc
  set-Right_self (b ∷ items) (f ∷ flags) (suc i) a h e =
      set-Right_self items flags i a (omega arith) e

  set-Right :
      (items : List A) (flags : List Bool) (i j : ℕ) (a : A)
      → get_elem? items i ≡ some a
      → Right items flags j
      → Right items (set flags i (check a)) j
  set-Right [] flags i j a e r = cc
  set-Right (b ∷ items) [] i j a e r = r
  set-Right (b ∷ items) (f ∷ flags) zero zero a e r = cc
  set-Right (b ∷ items) (f ∷ flags) zero (suc j) a e r = r
  set-Right (b ∷ items) (f ∷ flags) (suc i) zero a e r = r
  set-Right (b ∷ items) (f ∷ flags) (suc i) (suc j) a e r = set-Right items flags i j a e r

  module _ (items : List A) where
    length-write : (i : ℕ) (flags : List Bool) → length (write check items i flags) ≡ length flags
    unfolding write
    length-write i flags = elim (Option-cases (get_elem? items i)) [
      | inl e ↦ rw (e, write)
      | inr (a, e) ↦ rw (e, write) (length-set flags i (check a))
    ]

    write-Right_self :
        (i : ℕ) (flags : List Bool)
        → length flags ≡ length items
        → Right items (write check items i flags) i
    unfolding write
    write-Right_self i flags h = elim (Option-cases (get_elem? items i)) [
      | inl e ↦ rw (e, write) (past_end-Right items flags i h e)
      | inr (a, e) ↦ rw (e, write) (set-Right_self items flags i a h e)
    ]

    write-Right :
        (i j : ℕ) (flags : List Bool)
        → Right items flags j
        → Right items (write check items i flags) j
    unfolding write
    write-Right i j flags r = elim (Option-cases (get_elem? items i)) [
      | inl e ↦ rw (e, write) r
      | inr (a, e) ↦ rw (e, write) (set-Right items flags i j a e r)
    ]

    length-write_all :
        (order : List ℕ) (flags : List Bool)
        → length (write_all check items order flags) ≡ length flags
    unfolding write_all
    length-write_all [] flags = refl
    length-write_all (i ∷ order) flags =
        length-write_all order (write check items i flags) ∙ length-write i flags

    write_all-Right :
        (order : List ℕ) (flags : List Bool) (j : ℕ)
        → length flags ≡ length items
        → Right items flags j ⊎ Elem j order
        → Right items (write_all check items order flags) j
    unfolding write_all
    write_all-Right [] flags j h (inl r) = r
    write_all-Right [] flags j h (inr m) = absurd m
    write_all-Right (i ∷ order) flags j h (inl r) =
        write_all-Right order (write check items i flags) j (length-write i flags ∙ h)
          (inl (write-Right i j flags r))
    write_all-Right (i ∷ order) flags j h (inr (inl e)) =
        write_all-Right order (write check items i flags) j (length-write i flags ∙ h)
          (inl (rw e (write-Right_self i flags h)))
    write_all-Right (i ∷ order) flags j h (inr (inr m)) =
        write_all-Right order (write check items i flags) j (length-write i flags ∙ h) (inr m)

length-map {ℓ κ} :
    {A : Type ℓ} {B : Type κ} (f : A → B) (xs : List A) → length (map f xs) ≡ length xs
length-map f [] = refl
length-map f (x ∷ xs) = ap suc (length-map f xs)

get_elem?-ext {ℓ} :
    {A : Type ℓ} (xs ys : List A)
    → length xs ≡ length ys
    → ((i : ℕ) → i < length xs → get_elem? xs i ≡ get_elem? ys i)
    → xs ≡ ys
get_elem?-ext [] [] h k = refl
get_elem?-ext [] (y ∷ ys) h k = absurd (omega arith)
get_elem?-ext (x ∷ xs) [] h k = absurd (omega arith)
get_elem?-ext (x ∷ xs) (y ∷ ys) h k =
    ap₂ ◌∷◌ (some-injective x y (k 0 (omega arith)))
      (get_elem?-ext xs ys (omega arith) (λ i lt. k (suc i) (omega arith)))

-- In whatever order the goroutines finish, once all have, each slot holds its own path's result.
pub check_concurrently-map :
    {A : Type 0} (schedule : ℕ → List ℕ) (check : A → Bool) (items : List A)
    → ((i : ℕ) → i < length items → Elem i (schedule (length items)))
    → check_concurrently schedule check items ≡ map check items
unfolding check_concurrently
check_concurrently-map schedule check items all_run =
    let n = length items in
    let start = replicate n false in
    let same_length = length-write_all check items (schedule n) start ∙ length-replicate n in
    get_elem?-ext _ _ (same_length ∙ sym (length-map check items)) (λ i lt.
      write_all-Right check items (schedule n) start i (length-replicate n)
        (inr (all_run i (omega (arith, same_length)))))
