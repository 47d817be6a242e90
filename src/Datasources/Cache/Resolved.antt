-- ===== src/Datasources/Cache/Resolved.antt =====
-- What `Resolve` answers and leaves, told by the entry in the LRU, the clock and the provider.
use authzmtls.Common.{
  ◌+◌, ℤ, pos, ◌+ℤ◌, ◌-ℤ◌, ltb_ℤ, ◌≡◌, ◌≢◌, refl, sym, subst, inl, inr, Bool-cases, true, false, [],
  ◌∷◌, ◌++◌, Option, Option-cases, none, some, Bytes, bytes_eq, bytes_eq_iff, codes, Result,
  Result-cases, ok, fail,
}
use authzmtls.Datasources.Cache.{
  CacheEntry, Served, hit_value, hit_failure, go_live, Backend, Lru, Cached, identity_of,
  served_fresh, served, settle_refresh, refresh, answer, resolve,
}
use authzmtls.Rules.Expand.{VarMap}
use authzmtls.Rules.Reqvars.{Vars}

-- A value is too old, or a failure is no longer remembered, at the time `now`.
pub data Expired (ttl now : ℤ) (e : CacheEntry) : Type 0 where
  too_old : e.has_value ≡ true → ltb_ℤ (now -ℤ e.fetched_at) ttl ≡ false → Expired ttl now e
  no_failure : e.has_value ≡ false → e.neg_until ≡ none → Expired ttl now e
  old_failure :
      (until : ℤ)
      → e.has_value ≡ false
      → e.neg_until ≡ some until
      → ltb_ℤ now until ≡ false
      → Expired ttl now e

-- An entry is missing, or has no value.
abbrev pub HasNoValue : Option CacheEntry → Type 0
HasNoValue none = Unit
HasNoValue (some e) = e.has_value ≡ false

-- Nothing that the LRU has can be served.
abbrev pub Unserved : ℤ → ℤ → Option CacheEntry → Type 0
Unserved ttl now none = Unit
Unserved ttl now (some e) = Expired ttl now e

module _ {L W : Type 0} (lru : Lru L) (backend : Backend W) (ttl neg_ttl : ℤ) where
  -- The accesses of a call, in their order: the LRU, the clock, and, for a live call, the LRU again,
  -- the provider, and the clock again.
  abbrev pub found_at : Vars → Cached L W → Option CacheEntry × L
  found_at vars c = lru.get (identity_of vars) c.cache

  abbrev pub time_at : Cached L W → ℤ × W
  time_at c = backend.now c.world

  abbrev pub again_at : Vars → Cached L W → Option CacheEntry × L
  again_at vars c = lru.get (identity_of vars) (found_at vars c).1

  abbrev pub live_at : Vars → Cached L W → Result VarMap × W
  live_at vars c = backend.resolve vars (time_at c).1

  abbrev pub end_at : Vars → Cached L W → ℤ × W
  end_at vars c = backend.now (live_at vars c).1

  pub data Resolved (vars : Vars) (c : Cached L W) : Result VarMap → Cached L W → Type 0 where
    -- Without an identity there is nothing to ask.
    nameless :
        identity_of vars ≡ []
        → Resolved vars c (fail (codes "datasources: identity did not resolve")) c
    -- A value that is not older than the TTL is served.
    fresh :
        (e : CacheEntry)
        → identity_of vars ≢ []
        → (found_at vars c).0 ≡ some e
        → e.has_value ≡ true
        → ltb_ℤ ((time_at c).0 -ℤ e.fetched_at) ttl ≡ true
        → Resolved vars c
            (ok e.value)
            (record c { cache = (found_at vars c).1; world = (time_at c).1; hits = c.hits + 1 })
    -- So is a failure that is still remembered.
    known_failure :
        (e : CacheEntry) (until : ℤ)
        → identity_of vars ≢ []
        → (found_at vars c).0 ≡ some e
        → e.has_value ≡ false
        → e.neg_until ≡ some until
        → ltb_ℤ (time_at c).0 until ≡ true
        → Resolved vars c
            (fail (codes "datasources: identity did not resolve"))
            (record c { cache = (found_at vars c).1; world = (time_at c).1; hits = c.hits + 1 })
    -- Else the provider is asked, and its value is stored with the time.
    refreshed :
        (value : VarMap)
        → identity_of vars ≢ []
        → Unserved ttl (time_at c).0 (found_at vars c).0
        → (live_at vars c).0 ≡ ok value
        → Resolved vars c (ok value) (record c {
          cache =
              lru.add
                (identity_of vars)
                (record {
                  value = value;
                  has_value = true;
                  fetched_at = (end_at vars c).0;
                  neg_until = none;
                })
                (again_at vars c).1;
          world = (end_at vars c).1;
          misses = c.misses + 1;
        })
    -- If it fails, an old value is served, and kept, with a warning.
    stale :
        (error : Bytes) (prev : CacheEntry)
        → identity_of vars ≢ []
        → Unserved ttl (time_at c).0 (found_at vars c).0
        → (live_at vars c).0 ≡ fail error
        → (again_at vars c).0 ≡ some prev
        → prev.has_value ≡ true
        → Resolved vars c (ok prev.value) (record c {
          cache = (again_at vars c).1;
          world = (end_at vars c).1;
          misses = c.misses + 1;
          warnings = c.warnings ++ identity_of vars ∷ [];
        })
    -- Without an old value the failure is remembered, with a warning.
    unresolved :
        (error : Bytes)
        → identity_of vars ≢ []
        → Unserved ttl (time_at c).0 (found_at vars c).0
        → (live_at vars c).0 ≡ fail error
        → HasNoValue (again_at vars c).0
        → Resolved vars c (fail (codes "datasources: identity did not resolve")) (record c {
          cache =
              lru.add
                (identity_of vars)
                (record {
                  value = [];
                  has_value = false;
                  fetched_at = pos 0;
                  neg_until = some ((end_at vars c).0 +ℤ neg_ttl);
                })
                (again_at vars c).1;
          world = (end_at vars c).1;
          misses = c.misses + 1;
          warnings = c.warnings ++ identity_of vars ∷ [];
        })

  -- What `servedFresh` says of an entry at a time.
  data Judged (now : ℤ) (o : Option CacheEntry) : Served → Type 0 where
    value_served :
        (e : CacheEntry)
        → o ≡ some e
        → e.has_value ≡ true
        → ltb_ℤ (now -ℤ e.fetched_at) ttl ≡ true
        → Judged now o (hit_value e.value)
    failure_served :
        (e : CacheEntry) (until : ℤ)
        → o ≡ some e
        → e.has_value ≡ false
        → e.neg_until ≡ some until
        → ltb_ℤ now until ≡ true
        → Judged now o hit_failure
    unserved : Unserved ttl now o → Judged now o go_live

  Expired-Judged :
      (now : ℤ) (e : CacheEntry) (o : Option CacheEntry)
      → o ≡ some e
      → Expired ttl now e
      → Judged now o go_live
  Expired-Judged now e o found old = unserved (subst (Unserved ttl now) (sym found) old)

  failure-Judged :
      (now : ℤ) (e : CacheEntry) (o : Option CacheEntry)
      → o ≡ some e
      → e.has_value ≡ false
      → Judged now o (served_fresh e now ttl)
  unfolding served_fresh
  failure-Judged now e o found empty = elim (Option-cases e.neg_until) [
    | inl never ↦ rw (empty, never) (Expired-Judged now e o found (no_failure empty never))
    | inr (until, known) ↦ elim (Bool-cases (ltb_ℤ now until)) [
      | inl still ↦ rw (empty, known, still) (failure_served e until found empty known still)
      | inr over ↦
          rw (empty, known, over)
            (Expired-Judged now e o found (old_failure until empty known over))
    ]
  ]

  served_fresh-Judged :
      (now : ℤ) (e : CacheEntry) (o : Option CacheEntry)
      → o ≡ some e
      → Judged now o (served_fresh e now ttl)
  unfolding served_fresh
  served_fresh-Judged now e o found = elim (Bool-cases e.has_value) [
    | inr empty ↦ failure-Judged now e o found empty
    | inl full ↦ elim (Bool-cases (ltb_ℤ (now -ℤ e.fetched_at) ttl)) [
      | inl young ↦ rw (full, young) (value_served e found full young)
      | inr old ↦ rw (full, old) (Expired-Judged now e o found (too_old full old))
    ]
  ]

  served-Judged :
      (now : ℤ) (o : Option CacheEntry) → Judged now o (served lru backend ttl neg_ttl o now)
  served-Judged now none = unserved tt
  served-Judged now (some e) = served_fresh-Judged now e (some e) refl

  refresh-Resolved :
      (vars : Vars) (c : Cached L W)
      → identity_of vars ≢ []
      → Unserved ttl (time_at c).0 (found_at vars c).0
      → let out = refresh lru backend ttl neg_ttl (identity_of vars) vars (record c {
        cache = (found_at vars c).1;
        world = (time_at c).1;
        misses = c.misses + 1;
      }) in
        Resolved vars c out.0 out.1
  unfolding refresh settle_refresh
  refresh-Resolved vars c n u = elim (Result-cases (live_at vars c).0) [
    | inl (value, e) ↦ rw (e, settle_refresh) (refreshed value n u e)
    | inr (error, e) ↦ elim (Option-cases (again_at vars c).0) [
      | inl missing ↦ rw (e, missing, settle_refresh) (unresolved error n u e (rw missing tt))
      | inr (prev, found) ↦ elim (Bool-cases prev.has_value) [
        | inl full ↦ rw (e, found, full, settle_refresh) (stale error prev n u e found full)
        | inr empty ↦ rw (e, found, empty, settle_refresh) (unresolved error n u e (rw found empty))
      ]
    ]
  ]

  answer-Resolved :
      (vars : Vars) (c : Cached L W) (judged : Served)
      → identity_of vars ≢ []
      → Judged (time_at c).0 (found_at vars c).0 judged
      → let out =
          answer lru backend ttl neg_ttl judged
            (identity_of vars)
            vars
            (record c { cache = (found_at vars c).1; world = (time_at c).1 }) in
        Resolved vars c out.0 out.1
  unfolding answer
  answer-Resolved vars c judged n (value_served e found full young) = fresh e n found full young
  answer-Resolved vars c judged n (failure_served e until found empty known still) =
      known_failure e until n found empty known still
  answer-Resolved vars c judged n (unserved u) = refresh-Resolved vars c n u

  pub resolve-Resolved :
      (vars : Vars) (c : Cached L W)
      → Resolved vars c
          (resolve lru backend ttl neg_ttl vars c).0
          (resolve lru backend ttl neg_ttl vars c).1
  unfolding resolve
  resolve-Resolved vars c = elim (Bool-cases (bytes_eq (identity_of vars) [])) [
    | inl empty ↦ rw empty (nameless ((bytes_eq_iff (identity_of vars) []).0 empty))
    | inr named ↦ rw named (
        answer-Resolved vars c _ (λ e. cc (named, (bytes_eq_iff (identity_of vars) []).1 e))
          (served-Judged (time_at c).0 (found_at vars c).0))
  ]
