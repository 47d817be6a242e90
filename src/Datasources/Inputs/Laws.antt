-- ===== src/Datasources/Inputs/Laws.antt =====
-- The merged view holds what the providers give, each value once, and they see sanitized input only.
use authzmtls.Common.{
  ◌≡◌, ◌↔◌, ◌⊎◌, refl, sym, inl, inr, Bool-cases, List, [], ◌∷◌, ◌++◌, Option-cases, some, Bytes,
  arith, bytes_eq, bytes_eq_refl, bytes_in, bytes_in_iff, lookup, insert, lookup-insert, Any, Elem,
  Elem-last, Result, ok-injective, ok, fail, if◌then◌else◌, subst, bytes-cases,
}
use authzmtls.Datasources.Inputs.{
  valid_var_value, sanitize, Union, add_values, ensure_set, union_into, merge_results, SetState,
  ask_all, set_resolve,
}
use authzmtls.Datasources.Cache.{identity_of}
use authzmtls.Rules.Expand.{VarMap, values}
use authzmtls.Rules.Reqvars.{Vars}

values-insert :
    (k j : Bytes) (x : List Bytes) (m : VarMap)
    → values j (insert k x m) ≡ (if bytes_eq k j then x else values j m)
values-insert k j x m = elim (Bool-cases (bytes_eq k j)) [
  | inl same ↦ rw (lookup-insert k j x m, same, values)
  | inr other ↦ rw (lookup-insert k j x m, other, values)
]

values-ensure_set :
    (name j : Bytes) (seen : VarMap) → values j (ensure_set name seen) ≡ values j seen
values-ensure_set name j seen = elim (Option-cases (lookup name seen)) [
  | inl missing ↦ elim (bytes-cases name j) [
    | inl e ↦ rw (
      missing,
      values-insert name j [] seen,
      ← e,
      bytes_eq_refl name,
      missing,
      values,
      ensure_set,
    )
    | inr (_, other) ↦ rw (missing, values-insert name j [] seen, other, ensure_set)
  ]
  | inr (set, e) ↦ rw (e, ensure_set)
]

-- Some entry of the map gives the variable this value.
abbrev pub Gives : Bytes → Bytes → VarMap → Type 0
Gives name v = Any (λ entry. (entry.0 ≡ name) × Elem v entry.1)

-- `seen` holds the values that are merged.
abbrev Synced : Union → Type 0
Synced u = (name v : Bytes) → Elem v (values name u.seen) ↔ Elem v (values name u.merged)

-- One value is added to one variable.
module _ (name w : Bytes) (u : Union) where
  grown : Union
  grown = record {
    merged = insert name (values name u.merged ++ w ∷ []) u.merged;
    seen = insert name (w ∷ values name u.seen) u.seen;
  }

  grown-merged :
      (j v : Bytes)
      → Elem v (values j grown.merged) ↔ (((name ≡ j) × (v ≡ w)) ⊎ Elem v (values j u.merged))
  unfolding grown
  grown-merged j v = elim (bytes-cases name j) [
    | inl e ↦
        rw (values-insert name j (values name u.merged ++ w ∷ []) u.merged, ← e, bytes_eq_refl name)
          (ground (arith, Elem-last v w (values name u.merged)))
    | inr (n, other) ↦
        rw (values-insert name j (values name u.merged ++ w ∷ []) u.merged, other) (ground arith)
  ]

  grown-seen :
      (j v : Bytes)
      → Elem v (values j grown.seen) ↔ (((name ≡ j) × (v ≡ w)) ⊎ Elem v (values j u.seen))
  unfolding grown
  grown-seen j v = elim (bytes-cases name j) [
    | inl e ↦
        rw (values-insert name j (w ∷ values name u.seen) u.seen, ← e, bytes_eq_refl name)
          (ground arith)
    | inr (n, other) ↦
        rw (values-insert name j (w ∷ values name u.seen) u.seen, other) (ground arith)
  ]

-- `u'` has the values of `u` and those that `New` tells, and its sets still agree with them.
record Adds (New : Bytes → Bytes → Type 0) (u u' : Union) : Type 0 where
  synced : Synced u'
  adds : (j v : Bytes) → Elem v (values j u'.merged) ↔ (New j v ⊎ Elem v (values j u.merged))

Adds-weaken :
    {New More : Bytes → Bytes → Type 0} {u u' : Union}
    → ((j v : Bytes) → New j v ↔ More j v)
    → Adds New u u'
    → Adds More u u'
Adds-weaken same h = record {
  synced = h.synced;
  adds = λ j v. ground (arith, same j v, h.adds j v);
}

Adds-trans :
    {New More : Bytes → Bytes → Type 0} {u u' u'' : Union}
    → Adds New u u'
    → Adds More u' u''
    → Adds (λ j v. New j v ⊎ More j v) u u''
Adds-trans h k = record { synced = k.synced; adds = λ j v. ground (arith, h.adds j v, k.adds j v) }

grown-Adds :
    (name w : Bytes) (u : Union) → Synced u → Adds (λ j v. (name ≡ j) × (v ≡ w)) u (grown name w u)
grown-Adds name w u s = record {
  synced = λ j v. ground (arith, s j v, grown-seen name w u j v, grown-merged name w u j v);
  adds = grown-merged name w u;
}

step-Adds :
    (name w : Bytes) (u : Union)
    → Synced u
    → Adds
        (λ j v. (name ≡ j) × (v ≡ w))
        u
        (if bytes_in w (values name u.seen) then u else grown name w u)
step-Adds name w u s = elim (Bool-cases (bytes_in w (values name u.seen))) [
  | inr new ↦ rw new (grown-Adds name w u s)
  | inl old ↦ rw old (record {
    synced = s;
    adds = λ j v. (
      λ m. inr m,
      λ m. elim m [
        | inr k ↦ k
        | inl (e, f) ↦ rw (f, ← e) ((s name w).0 ((bytes_in_iff w (values name u.seen)).0 old))
      ],
    );
  })
]

add_values-Adds :
    (name : Bytes) (vs : List Bytes) (u : Union)
    → Synced u
    → Adds (λ j v. (name ≡ j) × Elem v vs) u (add_values name vs u)
unfolding add_values grown
add_values-Adds name [] u s = record { synced = s; adds = λ j v. ground arith }
add_values-Adds name (w ∷ vs) u s =
    let one = step-Adds name w u s in
    Adds-weaken (λ j v. ground arith) (Adds-trans one (add_values-Adds name vs _ one.synced))

union_into-Adds :
    (src : VarMap) (u : Union) → Synced u → Adds (λ j v. Gives j v src) u (union_into src u)
unfolding union_into
union_into-Adds [] u s = record { synced = s; adds = λ j v. ground arith }
union_into-Adds ((name, vs) ∷ src) u s =
    let prepared : Union = record u { seen = ensure_set name u.seen } in
    let ready : Synced prepared = λ j v. rw (values-ensure_set name j u.seen) (s j v) in
    let one = add_values-Adds name vs prepared ready in
    let both = Adds-trans one (union_into-Adds src _ one.synced) in
    record { synced = both.synced; adds = λ j v. ground (arith, both.adds j v) }

-- One of the results gives the variable this value; a failed one gives nothing.
abbrev pub GivenBy : Bytes → Bytes → List (Result VarMap) → Type 0
GivenBy name v = Any (λ result. (src : VarMap) × (result ≡ ok src) × Gives name v src)

merge_results-Adds :
    (results : List (Result VarMap)) (u : Union)
    → Synced u
    → Adds (λ j v. GivenBy j v results) u (merge_results results u)
unfolding merge_results
merge_results-Adds [] u s = record { synced = s; adds = λ j v. ground arith }
merge_results-Adds (fail e ∷ results) u s =
    Adds-weaken (λ j v. (λ m. inr m, λ m. elim m [ inl (_, f, _) ↦ cc | inr k ↦ k ]))
      (merge_results-Adds results u s)
merge_results-Adds (ok src ∷ results) u s =
    let one = union_into-Adds src u s in
    Adds-weaken
      (λ j v. (
        λ m. elim m [ inl g ↦ inl (src, refl, g) | inr k ↦ inr k ],
        λ m. elim m [
          | inl (src', f, g) ↦ inl (subst (Gives j v) (sym (ok-injective src src' f)) g)
          | inr k ↦ inr k
        ],
      ))
      (Adds-trans one (merge_results-Adds results _ one.synced))

set_resolve_lem :
    {P : Type 0} (step : Vars → P → Result VarMap × P) (vars clean : Vars) (s : SetState P)
    → (sanitize vars).0 ≡ some clean
    → (set_resolve step vars s).0
      ≡ (merge_results (ask_all step clean s.providers) (record { merged = []; seen = [] })).merged
unfolding set_resolve
set_resolve_lem step vars clean s h = rw (h, set_resolve)

-- `Set.Resolve` on input that `sanitize` accepts: a variable has exactly the values that some provider
-- that did not fail gives it. A provider that fails takes away its own values only.
pub set_resolve-GivenBy_iff :
    {P : Type 0} (step : Vars → P → Result VarMap × P) (vars clean : Vars) (s : SetState P)
    (name v : Bytes)
    → (sanitize vars).0 ≡ some clean
    → Elem v (values name (set_resolve step vars s).0)
      ↔ GivenBy name v (ask_all step clean s.providers)
unfolding lookup
set_resolve-GivenBy_iff step vars clean s name v h =
    let start : Union = record { merged = []; seen = [] } in
    let all = merge_results-Adds (ask_all step clean s.providers) start (λ j w. ground arith) in
    subst (λ m. Elem v (values name m) ↔ GivenBy name v (ask_all step clean s.providers))
      (sym (set_resolve_lem step vars clean s h))
      (
        λ m. elim ((all.adds name v).0 m) [ inl g ↦ g | inr k ↦ absurd k ],
        λ g. (all.adds name v).1 (inl g),
      )

-- Input whose identity is empty, too long or holds a control character reaches no provider.
pub set_resolve-rejected :
    {P : Type 0} (step : Vars → P → Result VarMap × P) (vars : Vars) (s : SetState P)
    (reason : Bytes)
    → valid_var_value (identity_of vars) ≡ some reason
    → ((set_resolve step vars s).0 ≡ []) × ((set_resolve step vars s).1.providers ≡ s.providers)
unfolding set_resolve sanitize
set_resolve-rejected step vars s reason h = (rw (h, set_resolve), rw (h, set_resolve))
