-- ===== src/Config/Validate/Entries.antt =====
-- The issues of the datasource entries.
use authzmtls.Common.{
  ℕ, ◌+◌, ◌≡◌, ◌≢◌, ◌↔◌, refl, sym, subst, inl, inr, Bool, Bool-cases, true, false, List, [], ◌∷◌,
  ◌++◌, map, Option, none, some, Bytes, bytes_eq, bytes_eq_iff, bytes_in_iff, Elem, All, Distinct,
  arith,
}
use authzmtls.Config.Validate.{stat_issue, issue_if, name_issues, seen_after, datasource_issues}
use authzmtls.Config.{DatasourceConfig}
use authzmtls.GoStd.Fmt.{Fmt}

pub append-eq-nil : (xs ys : List Bytes) → (xs ++ ys ≡ []) ↔ ((xs ≡ []) × (ys ≡ []))
append-eq-nil [] ys = ground arith
append-eq-nil (x ∷ xs) ys = ground arith

pub append-eq-nil₃ :
    (xs ys zs : List Bytes) → (xs ++ (ys ++ zs) ≡ []) ↔ ((xs ≡ []) × (ys ≡ []) × (zs ≡ []))
append-eq-nil₃ xs ys zs = ground (arith, append-eq-nil xs (ys ++ zs), append-eq-nil ys zs)

pub issue_if-eq-nil : (b : Bool) (text : Bytes) → (issue_if b text ≡ []) ↔ (b ≡ false)
issue_if-eq-nil true text = ground arith
issue_if-eq-nil false text = ground arith

pub stat_issue-eq-nil : (field : Bytes) (o : Option Bytes) → (stat_issue field o ≡ []) ↔ (o ≡ none)
stat_issue-eq-nil field none = ground arith
stat_issue-eq-nil field (some e) = ground arith

-- An entry has a name and a type.
abbrev pub IsNamed : {Node : Type 0} → DatasourceConfig Node → Type 0
IsNamed d = (d.name ≢ []) × (d.kind ≢ [])

module _ (fmt : Fmt) (stat : Bytes → Option Bytes) where
  abbrev pub Unseen : {Node : Type 0} → List Bytes → List (DatasourceConfig Node) → Type 0
  Unseen seen = All (λ d. ¬ Elem d.name seen)

  -- An entry's name is not seen again behind it.
  Unseen-cons :
      {Node : Type 0} (name : Bytes) (seen : List Bytes) (ds : List (DatasourceConfig Node))
      → Unseen (name ∷ seen) ds ↔ (Unseen seen ds × (¬ Elem name (map (λ d. d.name) ds)))
  Unseen-cons name seen [] = ground arith
  Unseen-cons name seen (d ∷ ds) = ground (arith, Unseen-cons name seen ds)

  name_issues-eq-nil :
      (i : ℕ) (seen : List Bytes) (name : Bytes)
      → (name_issues fmt stat i seen name ≡ []) ↔ ((name ≢ []) × (¬ Elem name seen))
  name_issues-eq-nil i seen name = ground (arith, bytes_eq_iff name [], bytes_in_iff name seen)

  seen_after-named :
      (seen : List Bytes) (name : Bytes) → name ≢ [] → seen_after fmt stat seen name ≡ name ∷ seen
  seen_after-named seen name n = elim (Bool-cases (bytes_eq name [])) [
    | inl e ↦ absurd (n ((bytes_eq_iff name []).0 e))
    | inr other ↦ rw other refl
  ]

  kind_issues-eq-nil : (kind text : Bytes) → (issue_if (bytes_eq kind []) text ≡ []) ↔ (kind ≢ [])
  kind_issues-eq-nil kind text = ground (arith, bytes_eq_iff kind [])

  pub datasource_issues-eq-nil :
      {Node : Type 0} (i : ℕ) (seen : List Bytes) (ds : List (DatasourceConfig Node))
      → (datasource_issues fmt stat i seen ds ≡ [])
        ↔ (All IsNamed ds × Distinct (map (λ d. d.name) ds) × Unseen seen ds)
  unfolding datasource_issues
  datasource_issues-eq-nil i seen [] = ground arith
  datasource_issues-eq-nil i seen (d ∷ ds) =
      let name = name_issues-eq-nil i seen d.name in
      let kind = kind_issues-eq-nil d.kind _ in
      let rest = datasource_issues-eq-nil (i + 1) (d.name ∷ seen) ds in
      let unseen = Unseen-cons d.name seen ds in
      let next : List Bytes → Type 0 = λ s. datasource_issues fmt stat (i + 1) s ds ≡ [] in
      (
        λ h.
            let (a, b, c) = (append-eq-nil₃ _ _ _).0 h in
            let (named, fresh) = name.0 a in
            let (all, distinct, later) =
              rest.0 (subst next (seen_after-named seen d.name named) c) in
            let (old, once) = unseen.0 later in
            (((named, kind.0 b), all), (once, distinct), (fresh, old)),
        λ h.
            let (((named, typed), all), (once, distinct), (fresh, old)) = h in
            let c = rest.1 (all, distinct, unseen.1 (old, once)) in
            (append-eq-nil₃ _ _ _).1 (
              name.1 (named, fresh),
              kind.1 typed,
              subst next (sym (seen_after-named seen d.name named)) c,
            ),
      )
