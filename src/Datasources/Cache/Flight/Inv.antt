-- ===== src/Datasources/Cache/Flight/Inv.antt =====
-- Which calls execute `refresh`, which wait for them, and what the gauge shows.
use authzmtls.Common.{
  ℕ, ◌<◌, ◌≡◌, ◌≢◌, ◌⊎◌, refl, ap, sym, subst, ◌∙◌, inl, inr, Bool-cases, true, false, Option, none,
  some, Bytes, bytes_eq, bytes_eq_iff, bytes-cases, Result, arith,
}
use authzmtls.Datasources.Cache.Flight.Family.{place}
use authzmtls.Datasources.Cache.Flight.{
  Group, IsGroup, Call, unborn, entered, looked, missed, waiting, leading, calling, called, landing,
  answered, released,
}
use authzmtls.Datasources.Cache.{identity_of}
use authzmtls.Rules.Expand.{VarMap}

-- The identity whose execution the call runs.
abbrev pub flies : Call → Option Bytes
flies (leading vars) = some (identity_of vars)
flies (calling vars prev) = some (identity_of vars)
flies (called vars prev result now) = some (identity_of vars)
flies (landing vars result) = some (identity_of vars)
flies _ = none

abbrev pub waits : Call → Option Bytes
waits (waiting k) = some k
waits _ = none

-- Between the two changes of the gauge in `refresh`.
abbrev pub refreshing : Call → ℕ
refreshing (calling vars prev) = 1
refreshing (called vars prev result now) = 1
refreshing _ = 0

pub released-flies : (k : Bytes) (r : Result VarMap) (c : Call) → flies (released k r c) ≡ flies c
released-flies k r (waiting j) = elim (Bool-cases (bytes_eq j k)) [
  | inl same ↦ rw same refl
  | inr other ↦ rw other refl
]
released-flies k r unborn = refl
released-flies k r (entered vars) = refl
released-flies k r (looked vars found) = refl
released-flies k r (missed vars) = refl
released-flies k r (leading vars) = refl
released-flies k r (calling vars prev) = refl
released-flies k r (called vars prev result now) = refl
released-flies k r (landing vars result) = refl
released-flies k r (answered result) = refl

pub released-refreshing :
    (k : Bytes) (r : Result VarMap) (c : Call) → refreshing (released k r c) ≡ refreshing c
released-refreshing k r (waiting j) = elim (Bool-cases (bytes_eq j k)) [
  | inl same ↦ rw same refl
  | inr other ↦ rw other refl
]
released-refreshing k r unborn = refl
released-refreshing k r (entered vars) = refl
released-refreshing k r (looked vars found) = refl
released-refreshing k r (missed vars) = refl
released-refreshing k r (leading vars) = refl
released-refreshing k r (calling vars prev) = refl
released-refreshing k r (called vars prev result now) = refl
released-refreshing k r (landing vars result) = refl
released-refreshing k r (answered result) = refl

-- Nobody waits for the identity behind the release.
pub released-waits :
    (k j : Bytes) (r : Result VarMap) (c : Call)
    → waits (released k r c) ≡ some j
    → (waits c ≡ some j) × (j ≢ k)
released-waits k j r (waiting i) h = elim (bytes-cases i k) [
  | inl same ↦ cc (rw ((bytes_eq_iff i k).1 same) at h)
  | inr (other, differs) ↦ let e = rw differs at h in (e, λ f. other (cc (e, f)))
]
released-waits k j r unborn h = cc
released-waits k j r (entered vars) h = cc
released-waits k j r (looked vars found) h = cc
released-waits k j r (missed vars) h = cc
released-waits k j r (leading vars) h = cc
released-waits k j r (calling vars prev) h = cc
released-waits k j r (called vars prev result now) h = cc
released-waits k j r (landing vars result) h = cc
released-waits k j r (answered result) h = cc

module _ {G : Type 0} (group : Group G) where
  -- The group knows the executions that the calls run, one for an identity at most, and whoever
  -- waits, waits for one of them.
  pub record Standing (n : ℕ) (g : G) (calls : ℕ → Call) : Type 0 where
    pub unique : (i j : ℕ) (k : Bytes) → flies (calls i) ≡ some k → flies (calls j) ≡ some k → i ≡ j
    pub busy : (i : ℕ) (k : Bytes) → flies (calls i) ≡ some k → group.busy k g ≡ true
    pub flown : (k : Bytes) → group.busy k g ≡ true → (i : ℕ) × (i < n) × (flies (calls i) ≡ some k)
    pub awaited : (j : ℕ) (k : Bytes) → waits (calls j) ≡ some k → group.busy k g ≡ true

  -- The call at `i` runs the same execution as before, or still none.
  pub Standing-place :
      {n : ℕ} {g : G} {calls : ℕ → Call} (i : ℕ) (c : Call)
      → flies c ≡ flies (calls i)
      → ((k : Bytes) → waits c ≡ some k → group.busy k g ≡ true)
      → Standing n g calls
      → Standing n g (place calls i c)
  Standing-place {n} {g} {calls} i c same joins st = record {
    unique = λ a b k p q. st.unique a b k (old a k p) (old b k q);
    busy = λ a k p. st.busy a k (old a k p);
    flown = λ k p. let (a, lt, q) = st.flown k p in (a, lt, ground (arith, same));
    awaited = λ j k p. ground (arith, st.awaited j k, joins k);
  }
    where
      old : (a : ℕ) (k : Bytes) → flies (place calls i c a) ≡ some k → flies (calls a) ≡ some k
      old a k p = ground (arith, same)

  module _ (laws : IsGroup group) where
    -- A call begins an execution where there is none.
    pub Standing-begin :
        {n : ℕ} {g : G} {calls : ℕ → Call} (i : ℕ) (k : Bytes) (c : Call)
        → i < n
        → flies (calls i) ≡ none
        → flies c ≡ some k
        → waits c ≡ none
        → group.busy k g ≡ false
        → Standing n g calls
        → Standing n (group.begin k g) (place calls i c)
    Standing-begin {n} {g} {calls} i k c lt idle runs alone free st = record {
      unique = λ a b j p q. elim (begun a j p) [
        | inl (e, f) ↦ elim (begun b j q) [ inl (e', f') ↦ e ∙ sym e' | inr (h, d) ↦ absurd (d f) ]
        | inr (h, d) ↦ elim (begun b j q) [
          | inl (e', f') ↦ absurd (d f')
          | inr (h', d') ↦ st.unique a b j h h'
        ]
      ];
      busy = λ a j p. elim (begun a j p) [
        | inl (e, f) ↦
            subst (λ x. group.busy x (group.begin k g) ≡ true) (sym f) (laws.busy-begin k g)
        | inr (h, d) ↦ laws.busy-begin_other j k g d ∙ st.busy a j h
      ];
      flown = λ j p. elim (bytes-cases j k) [
        | inl f ↦ (i, lt, ground (arith, runs, f))
        | inr (d, _) ↦
            let (a, lt', q) = st.flown j (sym (laws.busy-begin_other j k g d) ∙ p) in
            (a, lt', ground (arith, idle))
      ];
      awaited = λ b j p. stays j (ground (arith, st.awaited b j, alone));
    }
      where
        stays : (j : Bytes) → group.busy j g ≡ true → group.busy j (group.begin k g) ≡ true
        stays j h = elim (bytes-cases j k) [
          | inl f ↦ cc (h, free, f)
          | inr (d, _) ↦ laws.busy-begin_other j k g d ∙ h
        ]

        old :
            (a : ℕ) (j : Bytes)
            → flies (place calls i c a) ≡ some j
            → ((a ≡ i) × (some k ≡ some j)) ⊎ (flies (calls a) ≡ some j)
        old a j p = ground (arith, runs)

        begun :
            (a : ℕ) (j : Bytes)
            → flies (place calls i c a) ≡ some j
            → ((a ≡ i) × (j ≡ k)) ⊎ ((flies (calls a) ≡ some j) × (j ≢ k))
        begun a j p = elim (old a j p) [
          | inl (e, f) ↦ inl (e, cc f)
          | inr h ↦ inr (h, λ f. cc (st.busy a j h, free, f))
        ]

    -- The execution of the call at `i` ends, and the calls that wait for it get its result.
    pub Standing-finish :
        {n : ℕ} {g : G} {calls : ℕ → Call} (i : ℕ) (k : Bytes) (r : Result VarMap)
        → flies (calls i) ≡ some k
        → Standing n g calls
        → Standing n (group.finish k g) (place (λ j. released k r (calls j)) i (answered r))
    Standing-finish {n} {g} {calls} i k r runs st = record {
      unique = λ a b j p q. st.unique a b j (left a j p).0 (left b j q).0;
      busy = λ a j p. let (h, d) = left a j p in laws.busy-finish_other j k g d ∙ st.busy a j h;
      flown = λ j p. elim (bytes-cases j k) [
        | inl f ↦ cc (p, laws.busy-finish k g, f)
        | inr (d, _) ↦
            let (a, lt, q) = st.flown j (sym (laws.busy-finish_other j k g d) ∙ p) in
            let other : a ≢ i = λ e. d (cc (q, runs, e)) in
            (a, lt, ground (arith, other, released-flies k r (calls a)))
      ];
      awaited = λ b j p.
          let (h, d) = released-waits k j r (calls b) (ground arith) in
          laws.busy-finish_other j k g d ∙ st.awaited b j h;
    }
      where
        old :
            (a : ℕ) (j : Bytes)
            → flies (place (λ b. released k r (calls b)) i (answered r) a) ≡ some j
            → (a ≢ i) × (flies (calls a) ≡ some j)
        old a j p = ground (arith, released-flies k r (calls a))

        left :
            (a : ℕ) (j : Bytes)
            → flies (place (λ b. released k r (calls b)) i (answered r) a) ≡ some j
            → (flies (calls a) ≡ some j) × (j ≢ k)
        left a j p =
            let (other, h) = old a j p in (h, λ f. other (st.unique a i k (h ∙ ap some f) runs))
