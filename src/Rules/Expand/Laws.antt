-- ===== src/Rules/Expand/Laws.antt =====
-- What `Expand` returns.
use authzmtls.Common.{
  true, false, ◌≡◌, refl, sym, ◌∙◌, List, [], ◌∷◌, map, none, some, Bytes, All, Elem, Elem-map,
  subst, Elem-of_map, Bool-cases, inl, inr, ◌↔◌, Option,
}
use authzmtls.Rules.Expand.Scan.{var, tokens, print-tokens}
use authzmtls.Rules.Expand.Product.{cartesian_product, Picks, cartesian_product-Elem_iff}
use authzmtls.Rules.Expand.Assignments.{Pairs, Pairs-map, chosen, chosen-R}
use authzmtls.Rules.Expand.Placeholders.{Elem-unique_names, name-of_token, fill-ext, fill-print}
use authzmtls.Common.{All-of_Elem}
use authzmtls.Rules.Expand.{
  VarMap, values, is_safe_var_value, placeholder_names, fill, substitute, filter_safe, collect,
  values_by_name, substitute_all, expand_names, expand,
}

-- A usable value of the variable: one that was resolved, and safe in a path.
abbrev pub IsValueOf : VarMap → Bytes → Bytes → Type 0
IsValueOf vars name v = Elem v (values name vars) × (is_safe_var_value v ≡ true)

-- `r` is the pattern with one usable value for each name, the same at each of its places.
pub record Expands (pattern : Bytes) (vars : VarMap) (r : Bytes) : Type 0 where
  pub value : Bytes → Bytes
  pub usable : (name : Bytes) → Elem (var name) (tokens pattern) → IsValueOf vars name (value name)
  pub filled : r ≡ fill value (tokens pattern)

filter_safe-Elem_iff :
    (v : Bytes) (vs : List Bytes)
    → Elem v (filter_safe vs) ↔ (Elem v vs × (is_safe_var_value v ≡ true))
unfolding filter_safe
filter_safe-Elem_iff v [] = (λ m. absurd m, λ h. absurd h.0)
filter_safe-Elem_iff v (w ∷ vs) = elim (Bool-cases (is_safe_var_value w)) [
  | inl safe ↦ rw safe (to safe (filter_safe-Elem_iff v vs))
  | inr bad ↦ rw bad (past bad (filter_safe-Elem_iff v vs))
]
  where
    to :
        is_safe_var_value w ≡ true
        → Elem v (filter_safe vs) ↔ (Elem v vs × (is_safe_var_value v ≡ true))
        → Elem v (w ∷ filter_safe vs) ↔ (Elem v (w ∷ vs) × (is_safe_var_value v ≡ true))
    to s ih = (
      elim [ inl e ↦ (inl e, rw e s) | inr m ↦ (inr (ih.0 m).0, (ih.0 m).1) ],
      λ h. elim h.0 [ inl e ↦ inl e | inr m ↦ inr (ih.1 (m, h.1)) ],
    )

    past :
        is_safe_var_value w ≡ false
        → Elem v (filter_safe vs) ↔ (Elem v vs × (is_safe_var_value v ≡ true))
        → Elem v (filter_safe vs) ↔ (Elem v (w ∷ vs) × (is_safe_var_value v ≡ true))
    past b ih = (
      λ m. (inr (ih.0 m).0, (ih.0 m).1),
      λ h. elim h.0 [ inl e ↦ cc (b, h.1, e) | inr m ↦ ih.1 (m, h.1) ],
    )

collect-eq-some :
    (safe : List Bytes) (rest : Option (List (List Bytes))) (lists : List (List Bytes))
    → collect safe rest ≡ some lists
    → (ls : List (List Bytes)) × (rest ≡ some ls) × (lists ≡ safe ∷ ls)
unfolding collect
collect-eq-some [] rest lists e = cc
collect-eq-some (v ∷ vs) none lists e = cc
collect-eq-some (v ∷ vs) (some ls) lists e = (ls, refl, cc)

-- The lists that `Expand` collects, and their combinations.
values_by_name-Pairs :
    (vars : VarMap) (names combo : List Bytes) (lists : List (List Bytes))
    → values_by_name names vars ≡ some lists
    → Picks combo lists
    → Pairs (IsValueOf vars) names combo
unfolding values_by_name
values_by_name-Pairs vars [] [] lists e p = tt
values_by_name-Pairs vars [] (v ∷ combo) lists e p =
    let none_left : lists ≡ [] = cc in absurd (rw none_left at p)
values_by_name-Pairs vars (n ∷ names) [] lists e p =
    let (ls, rest, same) = collect-eq-some _ _ lists e in absurd (rw same at p)
values_by_name-Pairs vars (n ∷ names) (v ∷ combo) lists e p =
    let (ls, rest, same) = collect-eq-some _ _ lists e in
    let q : Picks (v ∷ combo) (filter_safe (values n vars) ∷ ls) = rw same at p in
    (
      (filter_safe-Elem_iff v (values n vars)).0 q.0,
      values_by_name-Pairs vars names combo ls rest q.1,
    )

collect_of_Elem :
    (v : Bytes) (safe : List Bytes) (ls : List (List Bytes))
    → Elem v safe
    → collect safe (some ls) ≡ some (safe ∷ ls)
unfolding collect
collect_of_Elem v [] ls h = absurd h
collect_of_Elem v (w ∷ safe) ls h = refl

values_by_name-Picks :
    (vars : VarMap) (value : Bytes → Bytes) (names : List Bytes)
    → All (λ n. IsValueOf vars n (value n)) names
    → (lists : List (List Bytes)) × (values_by_name names vars ≡ some lists)
      × Picks (map value names) lists
unfolding values_by_name
values_by_name-Picks vars value [] h = ([], refl, tt)
values_by_name-Picks vars value (n ∷ names) h =
    let (ls, e, p) = values_by_name-Picks vars value names h.1 in
    let first = (filter_safe-Elem_iff (value n) (values n vars)).1 h.0 in
    (filter_safe (values n vars) ∷ ls, rw e (collect_of_Elem (value n) _ ls first), (first, p))

substitute_all-of_Elem :
    (pattern : Bytes) (names : List Bytes) (o : Option (List (List Bytes))) (r : Bytes)
    → Elem r (substitute_all pattern names o)
    → (lists : List (List Bytes)) × (combo : List Bytes) × (o ≡ some lists)
      × Picks combo lists
      × (r ≡ substitute pattern names combo)
unfolding substitute_all
substitute_all-of_Elem pattern names none r m = absurd m
substitute_all-of_Elem pattern names (some lists) r m =
    let (combo, h, e) = Elem-of_map (substitute pattern names) (cartesian_product lists) m in
    (lists, combo, refl, (cartesian_product-Elem_iff lists combo).0 h, e)

substitute_all-Elem :
    (pattern : Bytes) (names combo : List Bytes) (o : Option (List (List Bytes)))
    (lists : List (List Bytes))
    → o ≡ some lists
    → Picks combo lists
    → Elem (substitute pattern names combo) (substitute_all pattern names o)
unfolding substitute_all
substitute_all-Elem pattern names combo o lists e p =
    rw (e, substitute_all)
      (Elem-map (substitute pattern names) combo (cartesian_product lists)
        ((cartesian_product-Elem_iff lists combo).1 p))

module _ (pattern : Bytes) (vars : VarMap) where
  Elem-placeholder_names :
      (n : Bytes) → Elem (var n) (tokens pattern) → Elem n (placeholder_names pattern)
  unfolding placeholder_names
  Elem-placeholder_names n m = name-of_token n (tokens pattern) m

  placeholder_names-Elem :
      (n : Bytes) → Elem n (placeholder_names pattern) → Elem (var n) (tokens pattern)
  unfolding placeholder_names
  placeholder_names-Elem n m = Elem-unique_names n [] (tokens pattern) m

  no_var : placeholder_names pattern ≡ [] → (n : Bytes) → ¬ Elem (var n) (tokens pattern)
  no_var e n m = rw e at (Elem-placeholder_names n m)

  expand_names-Expands :
      (names : List Bytes) (r : Bytes)
      → placeholder_names pattern ≡ names
      → Elem r (expand_names pattern vars names)
      → Expands pattern vars r
  unfolding expand_names substitute
  expand_names-Expands [] r e (inl same) = record {
    value = λ _. [];
    usable = λ n m. absurd (no_var e n m);
    filled = same ∙ sym (fill-print (λ _. []) (tokens pattern) (no_var e) ∙ print-tokens pattern);
  }
  expand_names-Expands [] r e (inr h) = absurd h
  expand_names-Expands (n ∷ names) r e m =
      let (lists, combo, found, picks, same) = substitute_all-of_Elem pattern (n ∷ names) _ r m in
      let pairs = values_by_name-Pairs vars (n ∷ names) combo lists found picks in
      record {
        value = chosen (n ∷ names) combo;
        usable = λ k h.
            chosen-R (IsValueOf vars) (n ∷ names) combo k pairs
              (subst (Elem k) e (Elem-placeholder_names k h));
        filled = same;
      }

  Expands-expand_names :
      (names : List Bytes) (r : Bytes)
      → placeholder_names pattern ≡ names
      → Expands pattern vars r
      → Elem r (expand_names pattern vars names)
  unfolding expand_names substitute
  Expands-expand_names [] r e x =
      inl (x.filled ∙ fill-print x.value (tokens pattern) (no_var e) ∙ print-tokens pattern)
  Expands-expand_names (n ∷ names) r e x =
      let usable = λ (k : Bytes) (h : Elem k (n ∷ names)).
        x.usable k (placeholder_names-Elem k (subst (Elem k) (sym e) h)) in
      let (lists, found, picks) =
        values_by_name-Picks vars x.value (n ∷ names) (All-of_Elem _ (n ∷ names) usable) in
      let combo = map x.value (n ∷ names) in
      let pairs = Pairs-map (λ k v. x.value k ≡ v) x.value (n ∷ names) (λ k. refl) in
      let same = fill-ext x.value (chosen (n ∷ names) combo) (tokens pattern) (λ k h.
        chosen-R (λ k v. x.value k ≡ v) (n ∷ names) combo k pairs
          (subst (Elem k) e (Elem-placeholder_names k h))) in
      subst (λ t. Elem t (substitute_all pattern (n ∷ names) (values_by_name (n ∷ names) vars)))
        (sym (x.filled ∙ same)) (substitute_all-Elem pattern (n ∷ names) combo _ lists found picks)

-- `Expand` returns exactly the texts that the pattern gives when each of its variables is replaced,
-- at all its places, by one of its resolved values that is safe; the pattern itself if it has none.
pub expand-Elem_iff :
    (pattern : Bytes) (vars : VarMap) (r : Bytes)
    → Elem r (expand pattern vars) ↔ Expands pattern vars r
unfolding expand
expand-Elem_iff pattern vars r =
    (expand_names-Expands pattern vars _ r refl, Expands-expand_names pattern vars _ r refl)
