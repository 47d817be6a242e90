-- ===== src/Rules/Expand/Assignments.antt =====
-- The values that one combination gives to the names.
use authzmtls.Common.{
  ◌≡◌, ◌⊎◌, sym, List, [], ◌∷◌, map, some, Bytes, Elem, lookup, insert, lookup-insert, bytes_eq_iff,
  inl, inr, bytes-cases,
}
use authzmtls.Rules.Expand.{value_by_name, get_value}

-- Two lists of one length, related place by place.
abbrev pub Pairs : (Bytes → Bytes → Type 0) → List Bytes → List Bytes → Type 0
Pairs R [] [] = Unit
Pairs R (n ∷ ns) (v ∷ vs) = R n v × Pairs R ns vs
Pairs R [] (_ ∷ _) = ⊥
Pairs R (_ ∷ _) [] = ⊥

-- The map has a value for the name, and the relation holds of it.
abbrev Holds : (Bytes → Bytes → Type 0) → List (Bytes × Bytes) → Bytes → Type 0
Holds R m n = (v : Bytes) × (lookup n m ≡ some v) × R n v

insert-Holds :
    (R : Bytes → Bytes → Type 0) (m : List (Bytes × Bytes)) (n v k : Bytes)
    → R n v
    → (k ≡ n) ⊎ Holds R m k
    → Holds R (insert n v m) k
insert-Holds R m n v k r h = elim (bytes-cases n k) [
  | inl same ↦ (v, rw (lookup-insert n k v m) (rw ((bytes_eq_iff n k).1 same)), rw (← same) r)
  | inr (other, test) ↦ elim h [
    | inl e ↦ absurd (other (sym e))
    | inr (w, found, holds) ↦ (w, rw (lookup-insert n k v m) (rw test found), holds)
  ]
]

value_by_name-Holds :
    (R : Bytes → Bytes → Type 0) (names combo : List Bytes) (m : List (Bytes × Bytes)) (k : Bytes)
    → Pairs R names combo
    → Elem k names ⊎ Holds R m k
    → Holds R (value_by_name names combo m) k
unfolding value_by_name
value_by_name-Holds R [] [] m k p (inl e) = absurd e
value_by_name-Holds R [] [] m k p (inr h) = h
value_by_name-Holds R [] (v ∷ combo) m k p h = absurd p
value_by_name-Holds R (n ∷ names) [] m k p h = absurd p
value_by_name-Holds R (n ∷ names) (v ∷ combo) m k p (inl (inl e)) =
    value_by_name-Holds R names combo (insert n v m) k p.1
      (inr (insert-Holds R m n v k p.0 (inl e)))
value_by_name-Holds R (n ∷ names) (v ∷ combo) m k p (inl (inr e)) =
    value_by_name-Holds R names combo (insert n v m) k p.1 (inl e)
value_by_name-Holds R (n ∷ names) (v ∷ combo) m k p (inr h) =
    value_by_name-Holds R names combo (insert n v m) k p.1
      (inr (insert-Holds R m n v k p.0 (inr h)))

get_value-Holds :
    (R : Bytes → Bytes → Type 0) (m : List (Bytes × Bytes)) (k : Bytes)
    → Holds R m k
    → R k (get_value m k)
get_value-Holds R m k (v, e, h) = rw (e, get_value) h

pub Pairs-map :
    (R : Bytes → Bytes → Type 0) (value : Bytes → Bytes) (names : List Bytes)
    → ((n : Bytes) → R n (value n))
    → Pairs R names (map value names)
Pairs-map R value [] h = tt
Pairs-map R value (n ∷ names) h = (h n, Pairs-map R value names h)

-- What the substitution of one combination makes of the name.
abbrev pub chosen : List Bytes → List Bytes → Bytes → Bytes
chosen names combo = get_value (value_by_name names combo [])

pub chosen-R :
    (R : Bytes → Bytes → Type 0) (names combo : List Bytes) (k : Bytes)
    → Pairs R names combo
    → Elem k names
    → R k (chosen names combo k)
chosen-R R names combo k p m =
    get_value-Holds R _ k (value_by_name-Holds R names combo [] k p (inl m))
