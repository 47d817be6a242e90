-- ===== src/Datasources/Cache/Flight/Solo.antt =====
-- A call that no other one overlaps does what `Resolve` does with one caller.
use authzmtls.Common.{
  ℕ, zero, suc, ◌≡◌, refl, ap, sym, subst, ◌∙◌, inl, inr, Bool-cases, false, ℤ, Option, bytes_eq,
  Result, ok, fail, [],
}
use authzmtls.Datasources.Cache.Flight.Landing.{place-here}
use authzmtls.Datasources.Cache.Flight.{
  Group, Call, entered, looked, missed, leading, calling, called, landing, answered, Traffic,
  released, become, judge, advance, run,
}
use authzmtls.Datasources.Cache.Resolved.{Resolved, resolve-Resolved}
use authzmtls.Datasources.Cache.{
  CacheEntry, Served, hit_value, hit_failure, go_live, err_unresolved, Backend, Lru, Cached,
  identity_of, served, settle_refresh, refresh, answer, resolve,
}
use authzmtls.Rules.Expand.{VarMap}
use authzmtls.Rules.Reqvars.{Vars}

module _ {L W G : Type 0} (lru : Lru L) (backend : Backend W) (group : Group G)
    (ttl neg_ttl : ℤ) where
  abbrev acts : ℕ → Call → Traffic L W G → Traffic L W G
  acts = advance lru backend group ttl neg_ttl

  -- After so many accesses the call `i` is answered, and the cache is left as given.
  abbrev Ends : ℕ → ℕ → Traffic L W G → Result VarMap × Cached L W → Type 0
  Ends m i s out =
      ((run lru backend group ttl neg_ttl m i s).calls i ≡ answered out.0)
      × ((run lru backend group ttl neg_ttl m i s).cached ≡ out.1)

  Ends-suc :
      (m i : ℕ) {c : Call} (s : Traffic L W G) (t : Traffic L W G)
      {out : Result VarMap × Cached L W}
      → s.calls i ≡ c
      → advance lru backend group ttl neg_ttl i c s ≡ t
      → Ends m i t out
      → Ends (suc m) i s out
  Ends-suc m i s t {out} here moved h =
      subst (λ x. Ends m i x out)
        (sym (ap (λ x. advance lru backend group ttl neg_ttl i x s) here ∙ moved)) h

  Ends-answered :
      (m i : ℕ) (s : Traffic L W G) (r : Result VarMap)
      → s.calls i ≡ answered r
      → Ends m i s (r, s.cached)
  unfolding advance
  Ends-answered zero i s r here = (here, refl)
  Ends-answered (suc m) i s r here = Ends-suc m i s s here refl (Ends-answered m i s r here)

  landing-Ends :
      (i : ℕ) (vars : Vars) (r : Result VarMap) (s : Traffic L W G)
      → s.calls i ≡ landing vars r
      → Ends 1 i s (r, s.cached)
  unfolding advance
  landing-Ends i vars r s here =
      Ends-suc 0 i s _ here refl
        (place-here (λ j. released (identity_of vars) r (s.calls j)) i (answered r), refl)

  called-Ends :
      (i : ℕ) (vars : Vars) (prev : Option CacheEntry) (result : Result VarMap) (now : ℤ)
      (s : Traffic L W G)
      → s.calls i ≡ called vars prev result now
      → Ends 2 i s
          (settle_refresh lru backend ttl neg_ttl (identity_of vars) prev result now s.cached)
  unfolding advance
  called-Ends i vars prev result now s here =
      let t = acts i (called vars prev result now) s in
      Ends-suc 1 i s t here refl (landing-Ends i vars _ t (place-here s.calls i _))

  leading-Ends :
      (i : ℕ) (vars : Vars) (s : Traffic L W G)
      → s.calls i ≡ leading vars
      → Ends 4 i s (refresh lru backend ttl neg_ttl (identity_of vars) vars s.cached)
  unfolding advance refresh
  leading-Ends i vars s here =
      let t = acts i (leading vars) s in
      let u = acts i (calling vars (lru.get (identity_of vars) s.cached.cache).0) t in
      Ends-suc 3 i s t here refl (
        Ends-suc 2 i t u (place-here s.calls i _) refl
          (called-Ends i vars _ _ _ u (place-here t.calls i _)))

  missed-Ends :
      (i : ℕ) (vars : Vars) (s : Traffic L W G)
      → s.calls i ≡ missed vars
      → group.busy (identity_of vars) s.group ≡ false
      → Ends 5 i s (refresh lru backend ttl neg_ttl (identity_of vars) vars s.cached)
  unfolding advance
  missed-Ends i vars s here free =
      let t : Traffic L W G =
        become lru backend group ttl neg_ttl i (leading vars)
          (record s { group = group.begin (identity_of vars) s.group }) in
      let moved : acts i (missed vars) s ≡ t = rw free refl in
      Ends-suc 4 i s t here moved (leading-Ends i vars t (place-here s.calls i _))

  judge-Ends :
      (i : ℕ) (found : Served) (vars : Vars) (s : Traffic L W G)
      → group.busy (identity_of vars) s.group ≡ false
      → Ends 5 i
          (judge lru backend group ttl neg_ttl i found vars s)
          (answer lru backend ttl neg_ttl found (identity_of vars) vars s.cached)
  unfolding answer
  judge-Ends i (hit_value v) vars s free =
      Ends-answered 5 i (judge lru backend group ttl neg_ttl i (hit_value v) vars s) (ok v)
        (place-here s.calls i _)
  judge-Ends i hit_failure vars s free =
      Ends-answered 5 i (judge lru backend group ttl neg_ttl i hit_failure vars s)
        (fail err_unresolved) (place-here s.calls i _)
  judge-Ends i go_live vars s free =
      missed-Ends i vars (judge lru backend group ttl neg_ttl i go_live vars s)
        (place-here s.calls i _) free

  looked-Ends :
      (i : ℕ) (vars : Vars) (found : Option CacheEntry) (s : Traffic L W G)
      → s.calls i ≡ looked vars found
      → group.busy (identity_of vars) s.group ≡ false
      → Ends 6 i s (
          answer lru backend ttl neg_ttl
            (served lru backend ttl neg_ttl found (backend.now s.cached.world).0)
            (identity_of vars)
            vars
            (record (s.cached) { world = (backend.now s.cached.world).1 }))
  unfolding advance
  looked-Ends i vars found s here free = Ends-suc 5 i s (acts i (looked vars found) s) here refl (
      judge-Ends i (served lru backend ttl neg_ttl found (backend.now s.cached.world).0) vars
        (record s { cached = record (s.cached) { world = (backend.now s.cached.world).1 } }) free)

  -- A call of `Resolve` that enters where no execution for its identity is in flight, and that no
  -- other call overlaps, is answered after seven accesses with the result of `Resolve`, and leaves
  -- the cache, the counters and the warnings as `Resolve` does.
  pub run-resolve :
      (i : ℕ) (vars : Vars) (s : Traffic L W G)
      → s.calls i ≡ entered vars
      → group.busy (identity_of vars) s.group ≡ false
      → ((run lru backend group ttl neg_ttl 7 i s).calls i
          ≡ answered (resolve lru backend ttl neg_ttl vars s.cached).0)
        × ((run lru backend group ttl neg_ttl 7 i s).cached
            ≡ (resolve lru backend ttl neg_ttl vars s.cached).1)
  unfolding advance resolve
  run-resolve i vars s here free = elim (Bool-cases (bytes_eq (identity_of vars) [])) [
    | inl empty ↦
        let t : Traffic L W G =
          become lru backend group ttl neg_ttl i (answered (fail err_unresolved)) s in
        let moved : acts i (entered vars) s ≡ t = rw empty refl in
        rw empty (
          Ends-suc 6 i s t here moved
            (Ends-answered 6 i t (fail err_unresolved) (place-here s.calls i _)))
    | inr named ↦
        let found = lru.get (identity_of vars) s.cached.cache in
        let t : Traffic L W G =
          become lru backend group ttl neg_ttl i (looked vars found.0)
            (record s { cached = record (s.cached) { cache = found.1 } }) in
        let moved : acts i (entered vars) s ≡ t = rw named refl in
        rw named
          (Ends-suc 6 i s t here moved (looked-Ends i vars found.0 t (place-here s.calls i _) free))
  ]

  -- A call of `Resolve` that enters where no execution for its identity is in flight, and that no
  -- other call overlaps, is answered after seven accesses. Without an identity the answer is an error
  -- and nothing changes. A value in the LRU that is younger than the TTL, and a failure that is still
  -- remembered, are served, count as a hit, and change nothing else there; all else counts as a miss
  -- and asks the provider once. What it gives is stored with the time after the call; if it fails,
  -- there is a warning, and an old value is served and kept, or else the failure is remembered until
  -- the negative TTL after that time.
  pub run-Resolved :
      (i : ℕ) (vars : Vars) (s : Traffic L W G)
      → s.calls i ≡ entered vars
      → group.busy (identity_of vars) s.group ≡ false
      → (r : Result VarMap) × ((run lru backend group ttl neg_ttl 7 i s).calls i ≡ answered r)
        × Resolved lru backend ttl neg_ttl vars s.cached r
            (run lru backend group ttl neg_ttl 7 i s).cached
  run-Resolved i vars s here free =
      let (done, left) = run-resolve i vars s here free in
      let out = resolve lru backend ttl neg_ttl vars s.cached in
      (
        out.0,
        done,
        subst (Resolved lru backend ttl neg_ttl vars s.cached out.0) (sym left)
            (resolve-Resolved lru backend ttl neg_ttl vars s.cached),
      )
