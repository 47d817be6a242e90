-- ===== src/Config/Merge/Laws.antt =====
-- The entry of a name in a merged list of datasources.
use authzmtls.Common.{
  ℕ, suc, ◌+◌, ◌≡◌, ◌⊎◌, refl, sym, subst, ap, ◌∙◌, inl, inr, Bool, Bool-cases, true, false, List,
  [], ◌∷◌, ◌++◌, Option, Option-cases, none, some, Bytes, bytes_eq, bytes_eq_iff, bytes-cases,
  arith, lookup, insert, lookup-insert, set, length, if◌then◌else◌,
}
use authzmtls.Config.Merge.{index_from, merge_entries, merge_datasources}
use authzmtls.Config.{DatasourceConfig}

-- The second value, unless there is a first one.
abbrev pub or_else : {A : Type 0} → Option A → Option A → Option A
or_else (some a) o = some a
or_else none o = o

abbrev shifted : Option ℕ → Option ℕ
shifted none = none
shifted (some i) = some (suc i)

abbrev at_offset : ℕ → Option ℕ → Option ℕ
at_offset i none = none
at_offset i (some j) = some (i + j)

or_else-none : {A : Type 0} (o : Option A) → or_else o none ≡ o
or_else-none none = refl
or_else-none (some a) = refl

some-injective : {i j : ℕ} → some i ≡ some j → i ≡ j
some-injective e = cc

none-ne-some : {A : Type 0} {a : A} → ¬ (none ≡ some a)
none-ne-some e = cc

or_else_assoc : {A : Type 0} (a b c : Option A) → or_else (or_else a b) c ≡ or_else a (or_else b c)
or_else_assoc none b c = refl
or_else_assoc (some a) b c = refl

module _ {Node : Type 0} where
  -- The last entry of this name.
  unfoldable pub find_last : Bytes → List (DatasourceConfig Node) → Option (DatasourceConfig Node)
  find_last name [] = none
  find_last name (d ∷ ds) =
      or_else (find_last name ds) (if bytes_eq d.name name then some d else none)

  -- Where it stands.
  last_at : Bytes → List (DatasourceConfig Node) → Option ℕ
  last_at name [] = none
  last_at name (d ∷ ds) =
      or_else (shifted (last_at name ds)) (if bytes_eq d.name name then some 0 else none)

  abbrev Agrees : List (Bytes × ℕ) → List (DatasourceConfig Node) → Type 0
  Agrees index ds = (name : Bytes) → lookup name index ≡ last_at name ds

  lookup-index_from :
      (name : Bytes) (i : ℕ) (ds : List (DatasourceConfig Node)) (index : List (Bytes × ℕ))
      → lookup name (index_from i ds index)
        ≡ or_else (at_offset i (last_at name ds)) (lookup name index)
  unfolding index_from last_at
  lookup-index_from name i [] index = refl
  lookup-index_from name i (d ∷ ds) index =
      lookup-index_from name (i + 1) ds (insert d.name i index)
      ∙ ap (or_else (at_offset (i + 1) (last_at name ds))) (lookup-insert d.name name i index)
      ∙ shift (last_at name ds) (bytes_eq d.name name)
    where
      shift :
          (o : Option ℕ) (b : Bool)
          → or_else (at_offset (i + 1) o) (if b then some i else lookup name index)
            ≡ or_else
                (at_offset i (or_else (shifted o) (if b then some 0 else none)))
                (lookup name index)
      shift (some j) b = ap some (omega arith)
      shift none true = ap some (omega arith)
      shift none false = refl

  index_from-Agrees : (ds : List (DatasourceConfig Node)) → Agrees (index_from 0 ds []) ds
  unfolding lookup
  index_from-Agrees ds name =
      lookup-index_from name 0 ds [] ∙ or_else-none _ ∙ at_zero (last_at name ds)
    where
      at_zero : (o : Option ℕ) → at_offset 0 o ≡ o
      at_zero none = refl
      at_zero (some j) = ap some (omega arith)

  find_last-append :
      (name : Bytes) (ds : List (DatasourceConfig Node)) (d : DatasourceConfig Node)
      → find_last name (ds ++ d ∷ [])
        ≡ or_else (if bytes_eq d.name name then some d else none) (find_last name ds)
  unfolding find_last
  find_last-append name [] d = sym (or_else-none _)
  find_last-append name (e ∷ ds) d =
      ap (λ o. or_else o (if bytes_eq e.name name then some e else none))
        (find_last-append name ds d)
      ∙ or_else_assoc (if bytes_eq d.name name then some d else none) (find_last name ds) _

  last_at-append :
      (name : Bytes) (ds : List (DatasourceConfig Node)) (d : DatasourceConfig Node)
      → last_at name (ds ++ d ∷ [])
        ≡ or_else (if bytes_eq d.name name then some (length ds) else none) (last_at name ds)
  unfolding last_at
  last_at-append name [] d = sym (or_else-none _)
  last_at-append name (e ∷ ds) d =
      ap (λ o. or_else (shifted o) (if bytes_eq e.name name then some 0 else none))
        (last_at-append name ds d)
      ∙ push (bytes_eq d.name name) (last_at name ds) _
    where
      push :
          (b : Bool) (o c : Option ℕ)
          → or_else (shifted (or_else (if b then some (length ds) else none) o)) c
            ≡ or_else (if b then some (suc (length ds)) else none) (or_else (shifted o) c)
      push true o c = refl
      push false o c = refl

  -- The last entry of the name stands behind the first one of the list, or is that.
  last_at-cons :
      (name : Bytes) (e : DatasourceConfig Node) (ds : List (DatasourceConfig Node)) (i : ℕ)
      → last_at name (e ∷ ds) ≡ some i
      → ((j : ℕ) × (suc j ≡ i) × (last_at name ds ≡ some j))
        ⊎ ((0 ≡ i) × (name ≡ e.name) × (last_at name ds ≡ none))
  unfolding last_at
  last_at-cons name e ds i h = elim (Option-cases (last_at name ds)) [
    | inr (j, later) ↦ inl (j, some-injective (rw later at h), later)
    | inl only ↦ elim (bytes-cases e.name name) [
      | inl same ↦
          inr (some-injective (rw (only, (bytes_eq_iff e.name name).1 same) at h), sym same, only)
      | inr (_, other) ↦ absurd (none-ne-some (rw (only, other) at h))
    ]
  ]

  -- An entry that takes the place of the last one of its name changes neither the names nor where
  -- they stand, and is found instead.
  last_at-set :
      (name : Bytes) (ds : List (DatasourceConfig Node)) (i : ℕ) (d : DatasourceConfig Node)
      → last_at d.name ds ≡ some i
      → last_at name (set ds i d) ≡ last_at name ds
  unfolding last_at
  last_at-set name [] i d h = refl
  last_at-set name (e ∷ ds) i d h = elim (last_at-cons d.name e ds i h) [
    | inl (j, here, later) ↦ rw (← here) (
        ap (λ o. or_else (shifted o) (if bytes_eq e.name name then some 0 else none))
          (last_at-set name ds j d later))
    | inr (here, same, none_later) ↦ rw (← here, same) refl
  ]

  find_last-none :
      (name : Bytes) (ds : List (DatasourceConfig Node))
      → last_at name ds ≡ none
      → find_last name ds ≡ none
  unfolding last_at find_last
  find_last-none name [] h = refl
  find_last-none name (e ∷ ds) h = elim (Option-cases (last_at name ds)) [
    | inr (j, later) ↦ absurd (none-ne-some (sym (rw later at h)))
    | inl only ↦ elim (Bool-cases (bytes_eq e.name name)) [
      | inl same ↦ absurd (none-ne-some (sym (rw (only, same) at h)))
      | inr other ↦ rw (find_last-none name ds only, other) refl
    ]
  ]

  find_last-set :
      (name : Bytes) (ds : List (DatasourceConfig Node)) (i : ℕ) (d : DatasourceConfig Node)
      → last_at d.name ds ≡ some i
      → find_last name (set ds i d)
        ≡ or_else (if bytes_eq d.name name then some d else none) (find_last name ds)
  unfolding last_at find_last
  find_last-set name [] i d h = absurd (none-ne-some h)
  find_last-set name (e ∷ ds) i d h = elim (last_at-cons d.name e ds i h) [
    | inl (j, here, later) ↦ rw (← here) (
        ap (λ o. or_else o (if bytes_eq e.name name then some e else none))
          (find_last-set name ds j d later)
        ∙ or_else_assoc (if bytes_eq d.name name then some d else none) (find_last name ds) _)
    | inr (here, same, none_later) ↦ elim (bytes-cases d.name name) [
      | inl this ↦
          let absent =
            subst (λ n. find_last n ds ≡ none) this (find_last-none d.name ds none_later) in
          rw (← here, ← same, (bytes_eq_iff d.name name).1 this, absent) refl
      | inr (_, other) ↦ rw (← here, ← same, other) refl
    ]
  ]

  append-Agrees :
      (index : List (Bytes × ℕ)) (ds : List (DatasourceConfig Node)) (d : DatasourceConfig Node)
      → Agrees index ds
      → Agrees (insert d.name (length ds) index) (ds ++ d ∷ [])
  append-Agrees index ds d agrees name =
      lookup-insert d.name name (length ds) index
      ∙ ap (λ o. if bytes_eq d.name name then some (length ds) else o) (agrees name)
      ∙ (elim (Bool-cases (bytes_eq d.name name)) [ inl a ↦ rw a refl | inr b ↦ rw b refl ])
      ∙ sym (last_at-append name ds d)

  find_last-merge_entries :
      (name : Bytes) (index : List (Bytes × ℕ)) (layer ds : List (DatasourceConfig Node))
      → Agrees index ds
      → find_last name (merge_entries index layer ds)
        ≡ or_else (find_last name layer) (find_last name ds)
  unfolding merge_entries find_last
  find_last-merge_entries name index [] ds agrees = refl
  find_last-merge_entries name index (d ∷ layer) ds agrees =
      elim (Option-cases (lookup d.name index)) [
        | inr (i, known) ↦
            let there = sym (agrees d.name) ∙ known in
            rw (known, merge_entries)
              (find_last-merge_entries name index layer (set ds i d)
                  (λ n. agrees n ∙ sym (last_at-set n ds i d there))
                ∙ ap (or_else (find_last name layer)) (find_last-set name ds i d there)
                ∙ sym (or_else_assoc (find_last name layer) _ _))
        | inl new ↦
            rw (new, merge_entries)
              (find_last-merge_entries name (insert d.name (length ds) index) layer (ds ++ d ∷ [])
                  (append-Agrees index ds d agrees)
                ∙ ap (or_else (find_last name layer)) (find_last-append name ds d)
                ∙ sym (or_else_assoc (find_last name layer) _ _))
      ]

  -- Merging a layer's entries gives, for every name, the layer's last entry of that name, and the
  -- entry so far for a name that the layer lacks: the last file wins.
  pub find_last-merge_datasources :
      (name : Bytes) (layer ds : List (DatasourceConfig Node))
      → find_last name (merge_datasources layer ds)
        ≡ or_else (find_last name layer) (find_last name ds)
  find_last-merge_datasources name layer ds =
      find_last-merge_entries name (index_from 0 ds []) layer ds (index_from-Agrees ds)
