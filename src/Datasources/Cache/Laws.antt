-- ===== src/Datasources/Cache/Laws.antt =====
-- What the cache promises about an identity: fresh values without a live call, stale values when
-- the live call fails, and a pause behind a failure that has nothing to fall back on.
use authzmtls.Common.{
  ◌+◌, ℤ, ◌+ℤ◌, ◌-ℤ◌, ltb_ℤ, ◌≡◌, refl, ap, ◌∙◌, inl, inr, Bool-cases, true, false, List, [], ◌∷◌,
  none, some, Bytes, All, bytes_eq, Result, ok, fail,
}
use authzmtls.Datasources.Cache.{
  CacheEntry, err_unresolved, served_fresh, Backend, Lru, IsLru, Cached, identity_of,
  settle_refresh, refresh, answer, served, resolve, flush,
}
use authzmtls.Rules.Expand.{VarMap}
use authzmtls.Rules.Reqvars.{Vars}

abbrev pub value_entry : VarMap → ℤ → CacheEntry
value_entry v t = record { value = v; has_value = true; fetched_at = t; neg_until = none }

-- The cache holds the value `v` for the identity, confirmed at the time `t`.
abbrev pub Remembers : {L W : Type 0} → Lru L → Bytes → VarMap → ℤ → Cached L W → Type 0
Remembers lru identity v t c = (lru.get identity c.cache).0 ≡ some (value_entry v t)

module _ {L W : Type 0} (lru : Lru L) (laws : IsLru lru) (backend : Backend W)
    (ttl neg_ttl : ℤ) where
  resolve-named :
      (vars : Vars) (c : Cached L W)
      → bytes_eq (identity_of vars) [] ≡ false
      → resolve lru backend ttl neg_ttl vars c
        ≡ answer lru backend ttl neg_ttl
            (served lru backend ttl neg_ttl
              (lru.get (identity_of vars) c.cache).0
              (backend.now c.world).0)
            (identity_of vars)
            vars
            (record c {
              cache = (lru.get (identity_of vars) c.cache).1;
              world = (backend.now c.world).1;
            })
  unfolding resolve
  resolve-named vars c h = rw h

  -- The cached value, or the one that a live call just gave.
  abbrev Keeps : Bytes → VarMap → ℤ → Result VarMap × Cached L W → Type 0
  Keeps identity v t (result, c) =
      (w : VarMap) × (u : ℤ) × (result ≡ ok w) × Remembers lru identity w u c

  settle_refresh-Keeps :
      (identity : Bytes) (result : Result VarMap) (now : ℤ) (v : VarMap) (t : ℤ) (c : Cached L W)
      → Remembers lru identity v t c
      → Keeps identity v t
          (settle_refresh lru backend ttl neg_ttl identity (some (value_entry v t)) result now c)
  unfolding settle_refresh
  settle_refresh-Keeps identity (ok w) now v t c h =
      (w, now, refl, laws.get-add identity (value_entry w now) c.cache)
  settle_refresh-Keeps identity (fail e) now v t c h = (v, t, refl, h)

  refresh-Keeps :
      (identity : Bytes) (vars : Vars) (v : VarMap) (t : ℤ) (c : Cached L W)
      → Remembers lru identity v t c
      → Keeps identity v t (refresh lru backend ttl neg_ttl identity vars c)
  unfolding refresh
  refresh-Keeps identity vars v t c h =
      rw h (settle_refresh-Keeps identity _ _ v t _ (laws.get-get identity identity c.cache ∙ h))

  answer-Keeps :
      (identity : Bytes) (vars : Vars) (now : ℤ) (v : VarMap) (t : ℤ) (c : Cached L W)
      → Remembers lru identity v t c
      → Keeps identity v t
          (answer lru backend ttl neg_ttl (served_fresh (value_entry v t) now ttl) identity vars c)
  unfolding answer served_fresh
  answer-Keeps identity vars now v t c h = elim (Bool-cases (ltb_ℤ (now -ℤ t) ttl)) [
    | inl fresh ↦ rw fresh (v, t, refl, h)
    | inr stale ↦ rw stale (refresh-Keeps identity vars v t _ h)
  ]

  resolve-Keeps :
      (vars : Vars) (v : VarMap) (t : ℤ) (c : Cached L W)
      → bytes_eq (identity_of vars) [] ≡ false
      → Remembers lru (identity_of vars) v t c
      → Keeps (identity_of vars) v t (resolve lru backend ttl neg_ttl vars c)
  resolve-Keeps vars v t c named h =
      rw (resolve-named vars c named, h)
        (answer-Keeps (identity_of vars) vars _ v t _ (laws.get-get _ _ c.cache ∙ h))

  -- The answers to calls that come one after the other.
  unfoldable pub answers : List Vars → Cached L W → List (Result VarMap)
  answers [] c = []
  answers (vars ∷ calls) c =
      let (result, c') = resolve lru backend ttl neg_ttl vars c in result ∷ answers calls c'

  -- Once an identity has a value in the cache, every further call for it gets a value, whatever the
  -- provider and the clock do meanwhile: a failed refresh serves the last known-good value.
  pub answers-available :
      (identity : Bytes) (calls : List Vars) (v : VarMap) (t : ℤ) (c : Cached L W)
      → bytes_eq identity [] ≡ false
      → All (λ vars. identity_of vars ≡ identity) calls
      → Remembers lru identity v t c
      → All (λ result. (w : VarMap) × (result ≡ ok w)) (answers calls c)
  unfolding answers
  answers-available identity [] v t c named same h = tt
  answers-available identity (vars ∷ calls) v t c named same h =
      let here : bytes_eq (identity_of vars) [] ≡ false = rw same.0 named in
      let kept = resolve-Keeps vars v t c here (rw same.0 h) in
      let (w, u, e, k) = kept in
      ((w, e), answers-available identity calls w u _ named same.1 (rw same.0 at k))

  resolve-hit :
      (vars : Vars) (c : Cached L W) (e : CacheEntry)
      → bytes_eq (identity_of vars) [] ≡ false
      → (lru.get (identity_of vars) c.cache).0 ≡ some e
      → resolve lru backend ttl neg_ttl vars c
        ≡ answer lru backend ttl neg_ttl
            (served_fresh e (backend.now c.world).0 ttl)
            (identity_of vars)
            vars
            (record c {
              cache = (lru.get (identity_of vars) c.cache).1;
              world = (backend.now c.world).1;
            })
  resolve-hit vars c e named h = resolve-named vars c named ∙ rw h

  -- The state after a call that the cache answers: the clock was read, and a hit counted.
  abbrev pub after_hit : Bytes → Cached L W → Cached L W
  after_hit identity c = record c {
    cache = (lru.get identity c.cache).1;
    world = (backend.now c.world).1;
    hits = c.hits + 1;
  }

  -- When a live call has given a value, a later call within the refresh interval gets the same value
  -- from the cache, with no further live call.
  pub resolve-refreshed :
      (vars later : Vars) (c c' : Cached L W) (v : VarMap)
      → bytes_eq (identity_of later) [] ≡ false
      → (backend.resolve vars c.world).0 ≡ ok v
      → c'.cache ≡ (refresh lru backend ttl neg_ttl (identity_of later) vars c).1.cache
      → ltb_ℤ ((backend.now c'.world).0 -ℤ (backend.now (backend.resolve vars c.world).1).0) ttl
        ≡ true
      → resolve lru backend ttl neg_ttl later c' ≡ (ok v, after_hit (identity_of later) c')
  unfolding refresh settle_refresh served_fresh answer
  resolve-refreshed vars later c c' v named live same fresh =
      let kept = rw live at same in
      resolve-hit later c' _ named
        (ap (λ l. (lru.get (identity_of later) l).0) kept ∙ laws.get-add (identity_of later) _ _)
      ∙ rw fresh

  -- When a live call has failed for an identity that the cache knows nothing of, a later call within
  -- the negative interval fails at once, with no further live call.
  pub resolve-failed :
      (vars later : Vars) (c c' : Cached L W) (error : Bytes)
      → bytes_eq (identity_of later) [] ≡ false
      → (lru.get (identity_of later) c.cache).0 ≡ none
      → (backend.resolve vars c.world).0 ≡ fail error
      → c'.cache ≡ (refresh lru backend ttl neg_ttl (identity_of later) vars c).1.cache
      → ltb_ℤ (backend.now c'.world).0 ((backend.now (backend.resolve vars c.world).1).0 +ℤ neg_ttl)
        ≡ true
      → resolve lru backend ttl neg_ttl later c'
        ≡ (fail err_unresolved, after_hit (identity_of later) c')
  unfolding refresh settle_refresh served_fresh answer
  resolve-failed vars later c c' error named unknown live same waits =
      let kept = rw (unknown, live) at same in
      resolve-hit later c' _ named
        (ap (λ l. (lru.get (identity_of later) l).0) kept ∙ laws.get-add (identity_of later) _ _)
      ∙ rw waits

  -- After a flush every identity is resolved live.
  pub resolve-flush :
      (vars : Vars) (c : Cached L W)
      → bytes_eq (identity_of vars) [] ≡ false
      → resolve lru backend ttl neg_ttl vars (flush lru c)
        ≡ refresh lru backend ttl neg_ttl (identity_of vars) vars (record c {
          cache = (lru.get (identity_of vars) (lru.purge c.cache)).1;
          world = (backend.now c.world).1;
          misses = c.misses + 1;
        })
  unfolding flush answer
  resolve-flush vars c named =
      resolve-named vars (flush lru c) named ∙ rw (laws.get-purge (identity_of vars) c.cache)
