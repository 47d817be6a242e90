-- ===== src/Datasources/Cache/Flight/Provenance.antt =====
-- Every answer is for the identity that was asked for, however calls overlap.
use authzmtls.Common.{
  ℕ, ◌≡◌, sym, subst, inl, inr, Bool-cases, ℤ, Option, Bytes, bytes_eq, Result, Result-cases, ok,
  fail, [],
}
use authzmtls.Datasources.Cache.Flight.Identity.{
  GoodEntry, GoodResult, GoodServed, Fine, Fine-released, AllFine, Fine-place, Keyed,
  served-GoodServed, settle_refresh-Keyed,
}
use authzmtls.Datasources.Cache.Flight.Recall.{IsEvicting}
use authzmtls.Datasources.Cache.Flight.{
  Group, Call, unborn, entered, looked, missed, waiting, leading, calling, called, landing,
  answered, Traffic, released, judge, advance, Step, arrives, moves, flushes, passes, Reach, opened,
  next,
}
use authzmtls.Datasources.Cache.{
  CacheEntry, Served, hit_value, hit_failure, go_live, Backend, Lru, IsLru, identity_of,
  settle_refresh,
}
use authzmtls.Rules.Expand.{VarMap}
use authzmtls.Rules.Reqvars.{Vars}

module _ {L W G : Type 0} (lru : Lru L) (laws : IsLru lru) (evicting : IsEvicting lru)
    (backend : Backend W) (group : Group G) (ttl neg_ttl : ℤ) (n : ℕ) (P : Bytes → VarMap → Type 0)
    (names : ℕ → Bytes) where
  -- What the provider gives for an identity has the property for this identity.
  abbrev pub Provides : Type 0
  Provides =
      (vars : Vars) (w : W) (v : VarMap)
      → (backend.resolve vars w).0 ≡ ok v
      → P (identity_of vars) v

  -- The calls that have come are for the identities `names`.
  abbrev Named : {s t : Traffic L W G} → Step lru backend group ttl neg_ttl n s t → Type 0
  Named (arrives i vars lt e) = identity_of vars ≡ names i
  Named (moves i lt) = Unit
  Named flushes = Unit
  Named (passes w) = Unit

  abbrev pub AllNamed : {s : Traffic L W G} → Reach lru backend group ttl neg_ttl n s → Type 0
  AllNamed (opened c g free) = Keyed lru laws evicting backend ttl neg_ttl P c.cache
  AllNamed (next r step) = AllNamed r × Named step

  abbrev Pure : Traffic L W G → Type 0
  Pure s = Keyed lru laws evicting backend ttl neg_ttl P s.cached.cache × AllFine P names s.calls

  Keyed-get :
      (j : Bytes) (l : L)
      → Keyed lru laws evicting backend ttl neg_ttl P l
      → Keyed lru laws evicting backend ttl neg_ttl P (lru.get j l).1
  Keyed-get j l h k = subst (GoodEntry P k) (sym (laws.get-get k j l)) (h k)

  judge-Pure :
      (i : ℕ) (found : Served) (vars : Vars) (s : Traffic L W G)
      → identity_of vars ≡ names i
      → GoodServed P (names i) found
      → Pure s
      → Pure (judge lru backend group ttl neg_ttl i found vars s)
  judge-Pure i (hit_value v) vars s same g h =
      (h.0, Fine-place P names s.calls i (answered (ok v)) g h.1)
  judge-Pure i hit_failure vars s same g h =
      (h.0, Fine-place P names s.calls i (answered (fail _)) tt h.1)
  judge-Pure i go_live vars s same g h = (h.0, Fine-place P names s.calls i (missed vars) same h.1)

  provided :
      Provides → (vars : Vars) (w : W) → GoodResult P (identity_of vars) (backend.resolve vars w).0
  provided gives vars w = elim (Result-cases (backend.resolve vars w).0) [
    | inl (v, e) ↦ subst (GoodResult P (identity_of vars)) (sym e) (gives vars w v e)
    | inr (m, e) ↦ subst (GoodResult P (identity_of vars)) (sym e) tt
  ]

  called-Pure :
      (i : ℕ) (vars : Vars) (prev : Option CacheEntry) (result : Result VarMap) (now : ℤ)
      (s : Traffic L W G)
      → Fine P (names i) (called vars prev result now)
      → Pure s
      → Pure (advance lru backend group ttl neg_ttl i (called vars prev result now) s)
  unfolding advance
  called-Pure i vars prev result now s (same, p, r) h =
      let settled =
        settle_refresh lru backend ttl neg_ttl (identity_of vars) prev result now s.cached in
      let (g, keyed) =
        settle_refresh-Keyed lru laws evicting backend ttl neg_ttl P (identity_of vars) prev result
          now s.cached (subst (λ k. GoodEntry P k prev) (sym same) p)
          (subst (λ k. GoodResult P k result) (sym same) r) h.0 in
      (
        keyed,
        Fine-place P names s.calls i (landing vars settled.0)
            (same, subst (λ k. GoodResult P k settled.0) same g) h.1,
      )

  advance-Pure :
      (i : ℕ) (c : Call) (s : Traffic L W G)
      → Provides
      → Fine P (names i) c
      → Pure s
      → Pure (advance lru backend group ttl neg_ttl i c s)
  unfolding advance
  advance-Pure i unborn s gives f h = h
  advance-Pure i (waiting k) s gives f h = h
  advance-Pure i (answered r) s gives f h = h
  advance-Pure i (entered vars) s gives f h = elim (Bool-cases (bytes_eq (identity_of vars) [])) [
    | inl empty ↦ rw empty (h.0, Fine-place P names s.calls i (answered (fail _)) tt h.1)
    | inr named ↦ rw named (
      Keyed-get (identity_of vars) s.cached.cache h.0,
      Fine-place P names s.calls i (looked vars _)
          (
            f,
            subst (λ k. GoodEntry P k (lru.get (identity_of vars) s.cached.cache).0) f
                (h.0 (identity_of vars)),
          )
          h.1,
    )
  ]
  advance-Pure i (looked vars found) s gives f h =
      judge-Pure i _ vars _ f.0
        (served-GoodServed lru laws evicting backend ttl neg_ttl P (names i) found _ f.1) h
  advance-Pure i (missed vars) s gives f h =
      elim (Bool-cases (group.busy (identity_of vars) s.group)) [
        | inl busy ↦ rw busy (h.0, Fine-place P names s.calls i (waiting (identity_of vars)) f h.1)
        | inr free ↦ rw free (h.0, Fine-place P names s.calls i (leading vars) f h.1)
      ]
  advance-Pure i (leading vars) s gives f h = (
    Keyed-get (identity_of vars) s.cached.cache h.0,
    Fine-place P names s.calls i (calling vars _)
        (
          f,
          subst (λ k. GoodEntry P k (lru.get (identity_of vars) s.cached.cache).0) f
              (h.0 (identity_of vars)),
        )
        h.1,
  )
  advance-Pure i (calling vars prev) s gives f h = (
    h.0,
    Fine-place P names s.calls i _
        (
          f.0,
          f.1,
          subst (λ k. GoodResult P k (backend.resolve vars s.cached.world).0) f.0
              (provided gives vars s.cached.world),
        )
        h.1,
  )
  advance-Pure i (called vars prev result now) s gives f h =
      called-Pure i vars prev result now s f h
  advance-Pure i (landing vars r) s gives f h = (
    h.0,
    Fine-place P names (λ j. released (identity_of vars) r (s.calls j)) i (answered r) f.1
        (λ j.
          Fine-released P (identity_of vars) (names j) r (s.calls j)
            (subst (λ k. GoodResult P k r) (sym f.0) f.1) (h.1 j)),
  )

  Step-Pure :
      {s t : Traffic L W G} (step : Step lru backend group ttl neg_ttl n s t)
      → Provides
      → Named step
      → Pure s
      → Pure t
  Step-Pure {s = s} (arrives i vars lt e) gives m h =
      (h.0, Fine-place P names s.calls i (entered vars) m h.1)
  Step-Pure {s = s} (moves i lt) gives m h = advance-Pure i (s.calls i) s gives (h.1 i) h
  Step-Pure {s = s} flushes gives m h =
      (λ k. subst (GoodEntry P k) (sym (laws.get-purge k s.cached.cache)) tt, h.1)
  Step-Pure (passes w) gives m h = h

  Reach-Pure :
      {s : Traffic L W G} (r : Reach lru backend group ttl neg_ttl n s)
      → Provides
      → AllNamed r
      → Pure s
  Reach-Pure (opened c g free) gives m = (m, λ j. tt)
  Reach-Pure (next r step) gives m = Step-Pure step gives m.1 (Reach-Pure r gives m.0)

  -- However calls overlap and the cache evicts: if what the provider gives for an identity has some
  -- property of the identity and the value, and what stands in the cache at the start has it too, then
  -- whatever value a call is answered with has it for the identity that this call asked for. So no call
  -- gets what was resolved for another identity, from the cache or from an execution that it joins.
  pub Reach-answered :
      {s : Traffic L W G} (r : Reach lru backend group ttl neg_ttl n s)
      → Provides
      → AllNamed r
      → (i : ℕ) (v : VarMap) → s.calls i ≡ answered (ok v)
      → P (names i) v
  Reach-answered r gives m i v e = subst (Fine P (names i)) e ((Reach-Pure r gives m).1 i)
