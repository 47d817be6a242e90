-- ===== src/Datasources/Cache/Flight/Landing.antt =====
-- How calls end: with whom they wait for, and alone.
use authzmtls.Common.{
  ℕ, suc, ◌<◌, ◌≡◌, refl, ap, sym, subst, ◌∙◌, ℤ, Option, some, Bytes, bytes_eq_refl, Result, arith,
}
use authzmtls.Datasources.Cache.Flight.Family.{place}
use authzmtls.Datasources.Cache.Flight.Inv.{flies, waits}
use authzmtls.Datasources.Cache.Flight.Overlap.{Reach-Holds}
use authzmtls.Datasources.Cache.Flight.{
  Group, IsGroup, Call, unborn, entered, looked, missed, waiting, leading, calling, called, landing,
  answered, Traffic, released, advance, moves, Reach, next, run,
}
use authzmtls.Datasources.Cache.{CacheEntry, Backend, Lru, identity_of}
use authzmtls.Rules.Expand.{VarMap}
use authzmtls.Rules.Reqvars.{Vars}

pub place-here : {A : Type 0} (f : ℕ → A) (i : ℕ) (a : A) → place f i a i ≡ a
place-here f i a = ground arith

some-injective : {A : Type 0} {a b : A} → some a ≡ some b → a ≡ b
some-injective e = cc

module _ {L W G : Type 0} (lru : Lru L) (backend : Backend W) (group : Group G)
    (ttl neg_ttl : ℤ) where
  -- Further accesses of the call `i` alone, and it is answered, and so are all that wait for `k`.
  record Lands (n i : ℕ) (k : Bytes) (s : Traffic L W G) : Type 0 where
    accesses : ℕ
    result : Result VarMap
    reached :
        Reach lru backend group ttl neg_ttl n s
        → Reach lru backend group ttl neg_ttl n (run lru backend group ttl neg_ttl accesses i s)
    leader : (run lru backend group ttl neg_ttl accesses i s).calls i ≡ answered result
    joined :
        (b : ℕ)
        → s.calls b ≡ waiting k
        → (run lru backend group ttl neg_ttl accesses i s).calls b ≡ answered result

  Lands-later :
      (n i : ℕ) (k : Bytes) (s : Traffic L W G)
      → i < n
      → ((b : ℕ)
          → s.calls b ≡ waiting k
          → (advance lru backend group ttl neg_ttl i (s.calls i) s).calls b ≡ waiting k)
      → Lands n i k (advance lru backend group ttl neg_ttl i (s.calls i) s)
      → Lands n i k s
  Lands-later n i k s lt keeps h = record {
    accesses = suc h.accesses;
    result = h.result;
    reached = λ r. h.reached (next r (moves i lt));
    leader = h.leader;
    joined = λ b e. h.joined b (keeps b e);
  }

  -- The call at `i` runs on for the same identity.
  goes_on :
      (n i : ℕ) (k : Bytes) (c c' : Call) (s t : Traffic L W G)
      → i < n
      → s.calls i ≡ c
      → flies c ≡ some k
      → advance lru backend group ttl neg_ttl i c s ≡ t
      → t.calls ≡ place s.calls i c'
      → Lands n i k t
      → Lands n i k s
  goes_on n i k c c' s t lt here runs moved same h =
      let e : advance lru backend group ttl neg_ttl i (s.calls i) s ≡ t =
        ap (λ x. advance lru backend group ttl neg_ttl i x s) here ∙ moved in
      Lands-later n i k s lt (λ b w. ap (λ x. x.calls b) e ∙ ap (λ f. f b) same ∙ kept b w)
        (subst (Lands n i k) (sym e) h)
    where
      kept : (b : ℕ) → s.calls b ≡ waiting k → place s.calls i c' b ≡ waiting k
      kept b w = ground (arith, here, runs)

  landing-Lands :
      (n i : ℕ) (vars : Vars) (r : Result VarMap) (s : Traffic L W G)
      → i < n
      → s.calls i ≡ landing vars r
      → Lands n i (identity_of vars) s
  unfolding advance
  landing-Lands n i vars r s lt here = record {
    accesses = 1;
    result = r;
    reached = λ reach. next reach (moves i lt);
    leader = rw here (place-here (λ j. released (identity_of vars) r (s.calls j)) i (answered r));
    joined = λ b w. rw here (freed b w);
  }
    where
      freed :
          (b : ℕ)
          → s.calls b ≡ waiting (identity_of vars)
          → place (λ j. released (identity_of vars) r (s.calls j)) i (answered r) b ≡ answered r
      freed b w = ground (arith, w, bytes_eq_refl (identity_of vars))

  called-Lands :
      (n i : ℕ) (vars : Vars) (prev : Option CacheEntry) (result : Result VarMap) (now : ℤ)
      (s : Traffic L W G)
      → i < n
      → s.calls i ≡ called vars prev result now
      → Lands n i (identity_of vars) s
  unfolding advance
  called-Lands n i vars prev result now s lt here =
      goes_on n i (identity_of vars) _ _ s _ lt here refl refl refl
        (landing-Lands n i vars _ _ lt (place-here s.calls i _))

  calling-Lands :
      (n i : ℕ) (vars : Vars) (prev : Option CacheEntry) (s : Traffic L W G)
      → i < n
      → s.calls i ≡ calling vars prev
      → Lands n i (identity_of vars) s
  unfolding advance
  calling-Lands n i vars prev s lt here =
      goes_on n i (identity_of vars) _ _ s _ lt here refl refl refl
        (called-Lands n i vars prev _ _ _ lt (place-here s.calls i _))

  leading-Lands :
      (n i : ℕ) (vars : Vars) (s : Traffic L W G)
      → i < n
      → s.calls i ≡ leading vars
      → Lands n i (identity_of vars) s
  unfolding advance
  leading-Lands n i vars s lt here =
      goes_on n i (identity_of vars) _ _ s _ lt here refl refl refl
        (calling-Lands n i vars _ _ lt (place-here s.calls i _))

  flies-Lands :
      (n i : ℕ) (k : Bytes) (c : Call) (s : Traffic L W G)
      → i < n
      → s.calls i ≡ c
      → flies c ≡ some k
      → Lands n i k s
  flies-Lands n i k (leading vars) s lt here e =
      subst (λ j. Lands n i j s) (some-injective e) (leading-Lands n i vars s lt here)
  flies-Lands n i k (calling vars prev) s lt here e =
      subst (λ j. Lands n i j s) (some-injective e) (calling-Lands n i vars prev s lt here)
  flies-Lands n i k (called vars prev result now) s lt here e =
      subst (λ j. Lands n i j s) (some-injective e)
        (called-Lands n i vars prev result now s lt here)
  flies-Lands n i k (landing vars r) s lt here e =
      subst (λ j. Lands n i j s) (some-injective e) (landing-Lands n i vars r s lt here)
  flies-Lands n i k unborn s lt here e = cc
  flies-Lands n i k (entered vars) s lt here e = cc
  flies-Lands n i k (looked vars found) s lt here e = cc
  flies-Lands n i k (missed vars) s lt here e = cc
  flies-Lands n i k (waiting j) s lt here e = cc
  flies-Lands n i k (answered r) s lt here e = cc

  -- No caller is left behind: for a call that waits in `c.group.Do`, there is one that executes
  -- `refresh` for the same identity, and from there its own accesses alone, if the provider's call
  -- returns, lead to a state where it and every call that waits for the identity have the same answer.
  pub Reach-Lands :
      {n : ℕ} {s : Traffic L W G}
      → IsGroup group
      → Reach lru backend group ttl neg_ttl n s
      → (j : ℕ) (k : Bytes) → s.calls j ≡ waiting k
      → (i : ℕ) × (flies (s.calls i) ≡ some k)
        × ((m : ℕ) × ((result : Result VarMap) × Reach lru backend group ttl neg_ttl n
                (run lru backend group ttl neg_ttl m i s)
              × ((run lru backend group ttl neg_ttl m i s).calls i ≡ answered result)
              × ((b : ℕ)
                  → s.calls b ≡ waiting k
                  → (run lru backend group ttl neg_ttl m i s).calls b ≡ answered result)))
  Reach-Lands {n} {s} sync r j k w =
      let st = (Reach-Holds lru backend group sync ttl neg_ttl n r).standing in
      let (i, lt, e) = st.flown k (st.awaited j k (ap waits w)) in
      let h = flies-Lands n i k (s.calls i) s lt refl e in
      (i, e, (h.accesses, (h.result, h.reached r, h.leader, h.joined)))
