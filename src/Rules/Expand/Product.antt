-- ===== src/Rules/Expand/Product.antt =====
-- internal/rules/mounts.go: `cartesianProduct`.
use authzmtls.Common.{
  ◌≡◌, refl, sym, ap, ◌∙◌, List, [], ◌∷◌, ◌++◌, map, append-nil, append_assoc, Bytes, ◌↔◌, Elem,
  Elem-map, Elem-of_map, Any-append_left, Any-append_right, Any-of_append, inl, inr,
}

-- One round of the loop over `lists`: each combination so far, extended by each value.
extend_all : List (List Bytes) → List Bytes → List (List Bytes)
extend_all [] list = []
extend_all (combo ∷ result) list = map (λ v. combo ++ v ∷ []) list ++ extend_all result list

product_from : List (List Bytes) → List (List Bytes) → List (List Bytes)
product_from result [] = result
product_from result (list ∷ lists) = product_from (extend_all result list) lists

-- `cartesianProduct`.
unfoldable pub cartesian_product : List (List Bytes) → List (List Bytes)
unfolding product_from extend_all
cartesian_product = product_from ([] ∷ [])

-- The combination takes one value of each list, in order.
abbrev pub Picks : List Bytes → List (List Bytes) → Type 0
Picks [] [] = Unit
Picks (v ∷ combo) (list ∷ lists) = Elem v list × Picks combo lists
Picks [] (_ ∷ _) = ⊥
Picks (_ ∷ _) [] = ⊥

extend_all-Elem :
    (result : List (List Bytes)) (list : List Bytes) (a : List Bytes) (v : Bytes)
    → Elem a result
    → Elem v list
    → Elem (a ++ v ∷ []) (extend_all result list)
unfolding extend_all
extend_all-Elem (r ∷ result) list a v (inl e) m =
    Any-append_left _ (map (λ w. r ++ w ∷ []) list) (extend_all result list)
      (rw e (Elem-map (λ w. r ++ w ∷ []) v list m))
extend_all-Elem (r ∷ result) list a v (inr k) m =
    Any-append_right _ (map (λ w. r ++ w ∷ []) list) (extend_all result list)
      (extend_all-Elem result list a v k m)
extend_all-Elem [] list a v k m = absurd k

extend_all-of_Elem :
    (result : List (List Bytes)) (list : List Bytes) (x : List Bytes)
    → Elem x (extend_all result list)
    → (a : List Bytes) × (v : Bytes) × Elem a result × Elem v list × (x ≡ a ++ v ∷ [])
unfolding extend_all
extend_all-of_Elem [] list x m = absurd m
extend_all-of_Elem (r ∷ result) list x m =
    elim (Any-of_append _ (map (λ w. r ++ w ∷ []) list) (extend_all result list) m) [
      | inl k ↦ let (v, h, e) = Elem-of_map (λ w. r ++ w ∷ []) list k in (r, v, inl refl, h, e)
      | inr k ↦ let (a, v, h, hv, e) = extend_all-of_Elem result list x k in (a, v, inr h, hv, e)
    ]

product_from-Elem :
    (result lists : List (List Bytes)) (a combo : List Bytes)
    → Elem a result
    → Picks combo lists
    → Elem (a ++ combo) (product_from result lists)
unfolding product_from
product_from-Elem result [] a [] m p = rw append-nil m
product_from-Elem result [] a (v ∷ combo) m p = absurd p
product_from-Elem result (list ∷ lists) a [] m p = absurd p
product_from-Elem result (list ∷ lists) a (v ∷ combo) m p = rw append_assoc at (
    product_from-Elem (extend_all result list) lists (a ++ v ∷ []) combo
      (extend_all-Elem result list a v m p.0) p.1)

product_from-of_Elem :
    (result lists : List (List Bytes)) (x : List Bytes)
    → Elem x (product_from result lists)
    → (a : List Bytes) × (combo : List Bytes) × Elem a result × Picks combo lists × (x ≡ a ++ combo)
unfolding product_from
product_from-of_Elem result [] x m = (x, [], m, tt, sym (append-nil x))
product_from-of_Elem result (list ∷ lists) x m =
    let (b, combo, h, p, e) = product_from-of_Elem (extend_all result list) lists x m in
    let (a, v, ha, hv, eb) = extend_all-of_Elem result list b h in
    (a, v ∷ combo, ha, (hv, p), e ∙ ap (λ t. t ++ combo) eb ∙ append_assoc a (v ∷ []) combo)

-- The product holds exactly the combinations with one value of each list, in the lists' order.
pub cartesian_product-Elem_iff :
    (lists : List (List Bytes)) (combo : List Bytes)
    → Elem combo (cartesian_product lists) ↔ Picks combo lists
unfolding cartesian_product
cartesian_product-Elem_iff lists combo = (
  λ m. let (a, c, h, p, e) = product_from-of_Elem ([] ∷ []) lists combo m in picked a c h p e,
  λ p. product_from-Elem ([] ∷ []) lists [] combo (inl refl) p,
)
  where
    picked :
        (a c : List Bytes) → Elem a ([] ∷ []) → Picks c lists → combo ≡ a ++ c → Picks combo lists
    picked a c (inl e) p q = rw (q, e) p
    picked a c (inr k) p q = absurd k
