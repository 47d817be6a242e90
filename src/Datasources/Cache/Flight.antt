-- ===== src/Datasources/Cache/Flight.antt =====
-- internal/datasources/cache.go: `cachedProvider.Resolve` among callers that run at the same time,
-- one access to the shared state at a time. The group of singleflight is a parameter.
pub mod Family
pub mod Inv
pub mod Overlap
pub mod Recall
pub mod Keeping
pub mod Landing
pub mod Solo
pub mod Identity
pub mod Provenance
use authzmtls.Common.{
  ℕ, ◌+◌, ◌<◌, ◌≡◌, ◌≢◌, ℤ, pos, negsuc, ◌+ℤ◌, Bool, true, false, Option, none, some, Bytes,
  bytes_eq, Result, ok, fail, if◌then◌else◌, List, [], ◌∷◌,
}
use authzmtls.Datasources.Cache.Flight.Family.{place}
use authzmtls.Datasources.Cache.{
  CacheEntry, Served, hit_value, hit_failure, go_live, err_unresolved, Backend, Lru, Cached,
  identity_of, served, settle_refresh,
}
use authzmtls.Rules.Expand.{VarMap}
use authzmtls.Rules.Reqvars.{Vars}

-- `singleflight.Group`: whether an execution for the key is in flight, its begin and its end.
pub record Group (G : Type 0) : Type 0 where
  pub busy : Bytes → G → Bool
  pub begin : Bytes → G → G
  pub finish : Bytes → G → G

-- What singleflight documents: an execution is in flight from its begin to its end, under its key.
pub record IsGroup {G : Type 0} (group : Group G) : Type 0 where
  pub busy-begin : (k : Bytes) (g : G) → group.busy k (group.begin k g) ≡ true
  pub busy-finish : (k : Bytes) (g : G) → group.busy k (group.finish k g) ≡ false
  pub busy-begin_other :
      (j k : Bytes) (g : G) → j ≢ k → group.busy j (group.begin k g) ≡ group.busy j g
  pub busy-finish_other :
      (j k : Bytes) (g : G) → j ≢ k → group.busy j (group.finish k g) ≡ group.busy j g

-- Where a call of `Resolve` stands, with the local variables that are live there.
pub data Call : Type 0 where
  unborn : Call
  entered : (vars : Vars) → Call  -- before `c.cache.Get`
  looked : (vars : Vars) (found : Option CacheEntry) → Call  -- before `servedFresh`
  missed : (vars : Vars) → Call  -- before `c.group.Do`
  waiting : (identity : Bytes) → Call  -- in `c.group.Do`, for the execution of another call
  leading : (vars : Vars) → Call  -- start of `refresh`
  calling : (vars : Vars) (prev : Option CacheEntry) → Call  -- before the provider's `Resolve`
  called : (vars : Vars) (prev : Option CacheEntry) (result : Result VarMap) (now : ℤ) → Call
  landing : (vars : Vars) (result : Result VarMap) → Call  -- end of `refresh`
  answered : (result : Result VarMap) → Call

-- The cache, the group, the inflight gauge, and the calls by number.
pub record Traffic (L W G : Type 0) : Type 0 where
  pub cached : Cached L W
  pub group : G
  pub inflight : ℤ
  pub calls : ℕ → Call

-- When the execution for the identity ends, the calls that wait for it get its result.
abbrev pub released : Bytes → Result VarMap → Call → Call
released k r (waiting j) = if bytes_eq j k then answered r else waiting j
released k r unborn = unborn
released k r (entered vars) = entered vars
released k r (looked vars found) = looked vars found
released k r (missed vars) = missed vars
released k r (leading vars) = leading vars
released k r (calling vars prev) = calling vars prev
released k r (called vars prev result now) = called vars prev result now
released k r (landing vars result) = landing vars result
released k r (answered result) = answered result

module _ {L W G : Type 0} (lru : Lru L) (backend : Backend W) (group : Group G)
    (ttl neg_ttl : ℤ) where
  -- The call becomes another one; nothing else changes.
  abbrev pub become : ℕ → Call → Traffic L W G → Traffic L W G
  become i c s = record s { calls = place s.calls i c }

  -- The end of the lookup: an answer from the cache, or a miss.
  abbrev pub judge : ℕ → Served → Vars → Traffic L W G → Traffic L W G
  judge i (hit_value v) vars s =
      become i (answered (ok v))
        (record s { cached = record (s.cached) { hits = s.cached.hits + 1 } })
  judge i hit_failure vars s =
      become i (answered (fail err_unresolved))
        (record s { cached = record (s.cached) { hits = s.cached.hits + 1 } })
  judge i go_live vars s =
      become i (missed vars)
        (record s { cached = record (s.cached) { misses = s.cached.misses + 1 } })

  -- The next access of the call `i`, which stands at `c`.
  unfoldable pub advance : ℕ → Call → Traffic L W G → Traffic L W G
  advance i unborn s = s
  advance i (entered vars) s =
      let (found, l) = lru.get (identity_of vars) s.cached.cache in
      if bytes_eq (identity_of vars) []
      then become i (answered (fail err_unresolved)) s
      else become i (looked vars found) (record s { cached = record (s.cached) { cache = l } })
  advance i (looked vars found) s =
      let (now, w) = backend.now s.cached.world in
      judge i (served lru backend ttl neg_ttl found now) vars
        (record s { cached = record (s.cached) { world = w } })
  advance i (missed vars) s =
      if group.busy (identity_of vars) s.group
      then become i (waiting (identity_of vars)) s
      else become i (leading vars) (record s { group = group.begin (identity_of vars) s.group })
  advance i (waiting identity) s = s
  advance i (leading vars) s =
      let (prev, l) = lru.get (identity_of vars) s.cached.cache in
      become i (calling vars prev)
        (record s { inflight = s.inflight +ℤ pos 1; cached = record (s.cached) { cache = l } })
  advance i (calling vars prev) s =
      let (result, w) = backend.resolve vars s.cached.world in
      let (now, w') = backend.now w in
      become i (called vars prev result now)
        (record s { cached = record (s.cached) { world = w' } })
  advance i (called vars prev result now) s =
      let (answer, c) =
        settle_refresh lru backend ttl neg_ttl (identity_of vars) prev result now s.cached in
      become i (landing vars answer) (record s { inflight = s.inflight +ℤ negsuc 0; cached = c })
  advance i (landing vars result) s = record s {
    group = group.finish (identity_of vars) s.group;
    calls = place (λ j. released (identity_of vars) result (s.calls j)) i (answered result);
  }
  advance i (answered result) s = s

  -- What can happen with at most `n` calls.
  pub data Step (n : ℕ) (s : Traffic L W G) : Traffic L W G → Type 0 where
    arrives :
        (i : ℕ) (vars : Vars) → i < n → s.calls i ≡ unborn → Step n s (become i (entered vars) s)
    moves : (i : ℕ) → i < n → Step n s (advance i (s.calls i) s)
    -- `Flush`, by a reload.
    flushes :
        Step n s (record s { cached = record (s.cached) { cache = lru.purge s.cached.cache } })
    -- Whatever else happens in the world.
    passes : (w : W) → Step n s (record s { cached = record (s.cached) { world = w } })

  -- Before any call: the cache is as a process left it.
  abbrev pub quiet : Cached L W → G → Traffic L W G
  quiet c g = record { cached = c; group = g; inflight = pos 0; calls = λ _. unborn }

  pub data Reach (n : ℕ) : Traffic L W G → Type 0 where
    opened : (c : Cached L W) (g : G) → ((k : Bytes) → group.busy k g ≡ false) → Reach n (quiet c g)
    next : {s t : Traffic L W G} → Reach n s → Step n s t → Reach n t

  -- The call `i` moves on by so many accesses.
  abbrev pub run : ℕ → ℕ → Traffic L W G → Traffic L W G
  run ℕ.zero i s = s
  run (ℕ.suc m) i s = run m i (advance i (s.calls i) s)
