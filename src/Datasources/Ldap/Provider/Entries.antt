-- ===== src/Datasources/Ldap/Provider/Entries.antt =====
-- What the loops over a search's entries keep, and which results count as an error.
use authzmtls.Common.{
  ◌≡◌, ◌≢◌, refl, sym, ap, ◌∙◌, subst, inl, inr, Bool-cases, false, List, [], ◌∷◌, Option, none,
  some, Bytes, bytes_eq, bytes_eq_iff, ok, fail, ok-injective, Any, Elem,
}
use authzmtls.Datasources.Ldap.Pool.{SearchError}
use authzmtls.Datasources.Ldap.Provider.{
  Entry, UserMatch, user_matches, group_names, user_result, group_result,
}

pub Any-some : {A : Type 0} {P : A → Type 0} (xs : List A) → Any P xs → (x : A) × Elem x xs × P x
Any-some [] h = absurd h
Any-some (x ∷ xs) (inl h) = (x, inl refl, h)
Any-some (x ∷ xs) (inr h) = let (y, m, k) = Any-some xs h in (y, inr m, k)

pub Any-of_Elem : {A : Type 0} (P : A → Type 0) (x : A) (xs : List A) → Elem x xs → P x → Any P xs
Any-of_Elem P x [] m h = absurd m
Any-of_Elem P x (y ∷ xs) (inl e) h = inl (subst P e h)
Any-of_Elem P x (y ∷ xs) (inr m) h = inr (Any-of_Elem P x xs m h)

nonempty : (v : Bytes) → bytes_eq v [] ≡ false → v ≢ []
nonempty v h e = cc (h, (bytes_eq_iff v []).1 e)

-- An entry of a result has the attribute, which is not empty.
abbrev pub HasValue : Bytes → Bytes → Entry → Type 0
HasValue attribute v entry = (entry.value attribute ≡ v) × (v ≢ [])

module _ (attribute : Bytes) where
  user_matches-Elem :
      (entry : Entry) (entries : List Entry)
      → Elem entry entries
      → entry.value attribute ≢ []
      → Elem
          (record { username = entry.value attribute; dn = entry.dn })
          (user_matches attribute entries)
  unfolding user_matches
  user_matches-Elem entry [] m n = absurd m
  user_matches-Elem entry (x ∷ entries) m n = elim (Bool-cases (bytes_eq (x.value attribute) [])) [
    | inl empty ↦ rw empty (elim m [
      | inl same ↦
          absurd
            (n (ap (λ y. y.value attribute) same ∙ (bytes_eq_iff (x.value attribute) []).0 empty))
      | inr later ↦ user_matches-Elem entry entries later n
    ])
    | inr kept ↦ rw kept (elim m [
      | inl same ↦ inl (ap (λ y. record { username = y.value attribute; dn = y.dn }) same)
      | inr later ↦ inr (user_matches-Elem entry entries later n)
    ])
  ]

  Elem-user_matches :
      (m : UserMatch) (entries : List Entry)
      → Elem m (user_matches attribute entries)
      → (entry : Entry) × Elem entry entries
        × HasValue attribute m.username entry
        × (entry.dn ≡ m.dn)
  unfolding user_matches
  Elem-user_matches m [] h = absurd h
  Elem-user_matches m (x ∷ entries) h = elim (Bool-cases (bytes_eq (x.value attribute) [])) [
    | inl empty ↦
        let (entry, k, r, s) = Elem-user_matches m entries (rw empty at h) in (entry, inr k, r, s)
    | inr kept ↦ elim (rw kept at h) [
      | inl same ↦ (
        x,
        inl refl,
        (
          ap (λ y. y.username) (sym same),
          λ e. nonempty (x.value attribute) kept (ap (λ y. y.username) (sym same) ∙ e),
        ),
        ap (λ y. y.dn) (sym same),
      )
      | inr later ↦ let (entry, k, r, s) = Elem-user_matches m entries later in (entry, inr k, r, s)
    ]
  ]

  pub group_names-Elem :
      (entry : Entry) (entries : List Entry)
      → Elem entry entries
      → entry.value attribute ≢ []
      → Elem (entry.value attribute) (group_names attribute entries)
  unfolding group_names
  group_names-Elem entry [] m n = absurd m
  group_names-Elem entry (x ∷ entries) m n = elim (Bool-cases (bytes_eq (x.value attribute) [])) [
    | inl empty ↦ rw empty (elim m [
      | inl same ↦
          absurd
            (n (ap (λ y. y.value attribute) same ∙ (bytes_eq_iff (x.value attribute) []).0 empty))
      | inr later ↦ group_names-Elem entry entries later n
    ])
    | inr kept ↦ rw kept (elim m [
      | inl same ↦ inl (ap (λ y. y.value attribute) same)
      | inr later ↦ inr (group_names-Elem entry entries later n)
    ])
  ]

  pub Elem-group_names :
      (g : Bytes) (entries : List Entry)
      → Elem g (group_names attribute entries)
      → (entry : Entry) × Elem entry entries × HasValue attribute g entry
  unfolding group_names
  Elem-group_names g [] h = absurd h
  Elem-group_names g (x ∷ entries) h = elim (Bool-cases (bytes_eq (x.value attribute) [])) [
    | inl empty ↦
        let (entry, k, r) = Elem-group_names g entries (rw empty at h) in (entry, inr k, r)
    | inr kept ↦ elim (rw kept at h) [
      | inl same ↦ (x, inl refl, (sym same, λ e. nonempty (x.value attribute) kept (sym same ∙ e)))
      | inr later ↦ let (entry, k, r) = Elem-group_names g entries later in (entry, inr k, r)
    ]
  ]

pub group_result-fail :
    (attribute : Bytes) (x : List Entry × Option SearchError) (text : Bytes)
    → group_result attribute x ≡ fail text
    → (e : SearchError) × (x.1 ≡ some e) × (e.size_limit ≡ false)
group_result-fail attribute (entries, none) text h = cc
group_result-fail attribute (entries, some e) text h = elim (Bool-cases e.size_limit) [
  | inl limit ↦ cc (rw limit at h)
  | inr other ↦ (e, refl, other)
]

pub group_result-denied :
    (attribute : Bytes) (x : List Entry × Option SearchError) (e : SearchError)
    → x.1 ≡ some e
    → e.size_limit ≡ false
    → (text : Bytes) × (group_result attribute x ≡ fail text)
group_result-denied attribute (entries, none) e h k = cc
group_result-denied attribute (entries, some e') e h k =
    let other : e'.size_limit ≡ false =
      subst (λ o. elim o [ none ↦ Unit | some x ↦ x.size_limit ≡ false ]) (sym h) k in
    rw other (_, refl)

pub group_result-names :
    (attribute : Bytes) (x : List Entry × Option SearchError) (gs : List Bytes)
    → group_result attribute x ≡ ok gs
    → group_names attribute x.0 ≡ gs
group_result-names attribute (entries, none) gs h = ok-injective _ gs h
group_result-names attribute (entries, some e) gs h = elim (Bool-cases e.size_limit) [
  | inl limit ↦ ok-injective _ gs (rw limit at h)
  | inr other ↦ cc (rw other at h)
]

pub group_result-accepted :
    (attribute : Bytes) (x : List Entry × Option SearchError)
    → ¬ ((e : SearchError) × (x.1 ≡ some e) × (e.size_limit ≡ false))
    → group_result attribute x ≡ ok (group_names attribute x.0)
group_result-accepted attribute (entries, none) n = refl
group_result-accepted attribute (entries, some e) n = elim (Bool-cases e.size_limit) [
  | inl limit ↦ rw limit refl
  | inr other ↦ absurd (n (e, refl, other))
]

pub user_result-Elem :
    (attribute : Bytes) (x : List Entry × Option SearchError) (entry : Entry)
    → x.1 ≡ none
    → Elem entry x.0
    → entry.value attribute ≢ []
    → Elem (record { username = entry.value attribute; dn = entry.dn }) (user_result attribute x)
user_result-Elem attribute (entries, none) entry h m n =
    user_matches-Elem attribute entry entries m n
user_result-Elem attribute (entries, some e) entry h m n = cc

pub Elem-user_result :
    (attribute : Bytes) (x : List Entry × Option SearchError) (m : UserMatch)
    → Elem m (user_result attribute x)
    → (x.1 ≡ none)
      × ((entry : Entry) × Elem entry x.0 × HasValue attribute m.username entry × (entry.dn ≡ m.dn))
Elem-user_result attribute (entries, none) m h = (refl, Elem-user_matches attribute m entries h)
Elem-user_result attribute (entries, some e) m h = absurd h
