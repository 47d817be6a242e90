-- ===== src/Datasources/Cache.antt =====
-- internal/datasources/cache.go: `cachedProvider`. The clock, the provider behind the cache and the
-- LRU (golang-lru) are parameters. One caller at a time is modelled: singleflight, which joins the
-- callers that wait for the same identity, runs `refresh` once. Of the metrics, the counters of hits
-- and misses are kept; the duration histogram, the clock readings that only it uses, and the
-- inflight gauge are not.
pub mod Flight
pub mod Laws
pub mod Resolved
use authzmtls.Common.{
  ℕ, ◌+◌, ℤ, pos, ◌+ℤ◌, ◌-ℤ◌, ltb_ℤ, leb_ℤ, Bool, true, false, not, ◌&&◌, List, [], ◌∷◌, ◌++◌,
  Option, none, some, Bytes, codes, bytes_eq, lookup, ◌≡◌, Result, ok, fail, if◌then◌else◌,
}
use authzmtls.Rules.Expand.{VarMap}
use authzmtls.Rules.Reqvars.{Vars}

-- `cacheEntry`; `neg_until` is `none` for the zero time.
pub record CacheEntry : Type 0 where
  pub value : VarMap
  pub has_value : Bool
  pub fetched_at : ℤ
  pub neg_until : Option ℤ

-- The results of `servedFresh`.
pub data Served : Type 0 where
  hit_value : VarMap → Served
  hit_failure : Served
  go_live : Served

abbrev pub err_unresolved : Bytes
err_unresolved = codes "datasources: identity did not resolve"

-- `!e.negUntil.IsZero() && now.Before(e.negUntil)`.
abbrev pub before_neg_until : ℤ → Option ℤ → Bool
before_neg_until now none = false
before_neg_until now (some until) = ltb_ℤ now until

-- `servedFresh`.
unfoldable pub served_fresh : CacheEntry → ℤ → ℤ → Served
served_fresh e now ttl =
    if e.has_value && ltb_ℤ (now -ℤ e.fetched_at) ttl
    then hit_value e.value
    else if not e.has_value && before_neg_until now e.neg_until
    then hit_failure
    else go_live

-- What is outside: `now` reads the clock, `resolve` is the provider's live call.
pub record Backend (W : Type 0) : Type 0 where
  pub now : W → ℤ × W
  pub resolve : Vars → W → Result VarMap × W

-- The LRU. A `get` may change the order in which entries are evicted.
pub record Lru (L : Type 0) : Type 0 where
  pub get : Bytes → L → Option CacheEntry × L
  pub add : Bytes → CacheEntry → L → L
  pub purge : L → L

-- What golang-lru documents and the cache relies on.
pub record IsLru {L : Type 0} (lru : Lru L) : Type 0 where
  pub get-add : (k : Bytes) (e : CacheEntry) (l : L) → (lru.get k (lru.add k e l)).0 ≡ some e
  pub get-get : (j k : Bytes) (l : L) → (lru.get j (lru.get k l).1).0 ≡ (lru.get j l).0
  pub get-purge : (k : Bytes) (l : L) → (lru.get k (lru.purge l)).0 ≡ none

-- `cachedProvider`, with the world that its clock and its provider read.
pub record Cached (L W : Type 0) : Type 0 where
  pub cache : L
  pub world : W
  pub hits : ℕ
  pub misses : ℕ
  -- The identities of the warnings "datasource resolution attempt failed".
  pub warnings : List Bytes

abbrev pub default_cache_ttl : ℤ
default_cache_ttl = pos 600000000000

-- `newCachedProviderWithClock` on `cacheTTL`.
unfoldable pub effective_ttl : ℤ → ℤ
effective_ttl ttl = if leb_ℤ ttl (pos 0) then default_cache_ttl else ttl

-- `vars[identityVar]`.
abbrev pub identity_of : Vars → Bytes
identity_of vars = elim (lookup (codes "IDENTITY") vars) [ none ↦ [] | some v ↦ v ]

module _ {L W : Type 0} (lru : Lru L) (backend : Backend W) (ttl neg_ttl : ℤ) where
  -- What `refresh` does with the result of the live call, at the time `now`.
  unfoldable pub settle_refresh :
      Bytes → Option CacheEntry → Result VarMap → ℤ → Cached L W → Result VarMap × Cached L W
  settle_refresh identity prev (ok value) now c = (
    ok value,
    record c {
      cache =
          lru.add identity
            (record { value = value; has_value = true; fetched_at = now; neg_until = none })
            c.cache;
    },
  )
  settle_refresh identity none (fail e) now c = (
    fail err_unresolved,
    record c {
      warnings = c.warnings ++ identity ∷ [];
      cache =
          lru.add identity
            (record {
              value = [];
              has_value = false;
              fetched_at = pos 0;
              neg_until = some (now +ℤ neg_ttl);
            })
            c.cache;
    },
  )
  settle_refresh identity (some prev) (fail e) now c =
      let warned = c.warnings ++ identity ∷ [] in
      if prev.has_value then (ok prev.value, record c { warnings = warned }) else (
        fail err_unresolved,
        record c {
          warnings = warned;
          cache =
              lru.add identity
                (record {
                  value = [];
                  has_value = false;
                  fetched_at = pos 0;
                  neg_until = some (now +ℤ neg_ttl);
                })
                c.cache;
        },
      )

  -- `refresh`.
  unfoldable pub refresh : Bytes → Vars → Cached L W → Result VarMap × Cached L W
  refresh identity vars c =
      let (prev, l) = lru.get identity c.cache in
      let (result, w) = backend.resolve vars c.world in
      let (now, w') = backend.now w in
      settle_refresh identity prev result now (record c { cache = l; world = w' })

  -- The end of `Resolve`: an answer from the cache, or a miss.
  unfoldable pub answer : Served → Bytes → Vars → Cached L W → Result VarMap × Cached L W
  answer (hit_value v) identity vars c = (ok v, record c { hits = c.hits + 1 })
  answer hit_failure identity vars c = (fail err_unresolved, record c { hits = c.hits + 1 })
  answer go_live identity vars c = refresh identity vars (record c { misses = c.misses + 1 })

  abbrev pub served : Option CacheEntry → ℤ → Served
  served none now = go_live
  served (some e) now = served_fresh e now ttl

  -- `Resolve`.
  unfoldable pub resolve : Vars → Cached L W → Result VarMap × Cached L W
  resolve vars c =
      let identity = identity_of vars in
      let (found, l) = lru.get identity c.cache in
      let (now, w) = backend.now c.world in
      if bytes_eq identity []
      then (fail err_unresolved, c)
      else answer (served found now) identity vars (record c { cache = l; world = w })

-- `Flush`.
unfoldable pub flush : {L W : Type 0} → Lru L → Cached L W → Cached L W
flush lru c = record c { cache = lru.purge c.cache }
