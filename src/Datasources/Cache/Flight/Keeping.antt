-- ===== src/Datasources/Cache/Flight/Keeping.antt =====
-- A failed live call never takes a known value away, however calls overlap.
use authzmtls.Common.{
  ℕ, ◌≡◌, ◌≢◌, ◌⊎◌, refl, ap, sym, subst, ◌∙◌, inl, inr, Bool-cases, ℤ, none, some, Bytes, bytes_eq,
  bytes-cases, Result, arith, [],
}
use authzmtls.Datasources.Cache.Flight.Family.{place}
use authzmtls.Datasources.Cache.Flight.Inv.{flies, Standing}
use authzmtls.Datasources.Cache.Flight.Overlap.{Reach-Holds}
use authzmtls.Datasources.Cache.Flight.Recall.{
  IsEvicting, recalls, recalls-released, recalls-flies, Unchanged, settle_refresh-Unchanged, Knows,
  settle_refresh-Knows, Recalled, Recalled-place,
}
use authzmtls.Datasources.Cache.Flight.{
  Group, IsGroup, Call, unborn, entered, looked, missed, waiting, leading, calling, called, landing,
  answered, Traffic, judge, advance, Step, arrives, moves, flushes, passes, Reach, opened, next,
}
use authzmtls.Datasources.Cache.{
  Served, hit_value, hit_failure, go_live, Backend, Lru, IsLru, identity_of, settle_refresh,
}
use authzmtls.Rules.Expand.{VarMap}
use authzmtls.Rules.Reqvars.{Vars}

module _ {L W G : Type 0} (lru : Lru L) (laws : IsLru lru) (evicting : IsEvicting lru)
    (backend : Backend W) (group : Group G) (ttl neg_ttl : ℤ) (n : ℕ) where
  abbrev RecalledIn : Traffic L W G → Type 0
  RecalledIn s = Recalled lru laws evicting backend group ttl neg_ttl n s.cached.cache s.calls

  -- The call at `i` comes to stand where it remembers nothing.
  forgets :
      (s : Traffic L W G) (l : L) (i : ℕ) (c : Call)
      → recalls c ≡ none
      → ((k : Bytes) → Unchanged lru laws evicting backend ttl neg_ttl k s.cached.cache l)
      → RecalledIn s
      → Recalled lru laws evicting backend group ttl neg_ttl n l (place s.calls i c)
  forgets s l i c nothing keeps h =
      Recalled-place lru laws evicting backend group ttl neg_ttl n s.calls i c
        (λ k p e. cc (nothing, e)) keeps h

  judge-RecalledIn :
      (i : ℕ) (found : Served) (vars : Vars) (s : Traffic L W G)
      → RecalledIn s
      → RecalledIn (judge lru backend group ttl neg_ttl i found vars s)
  judge-RecalledIn i (hit_value v) vars s h = forgets s _ i _ refl (λ k. inl refl) h
  judge-RecalledIn i hit_failure vars s h = forgets s _ i _ refl (λ k. inl refl) h
  judge-RecalledIn i go_live vars s h = forgets s _ i _ refl (λ k. inl refl) h

  -- A call settles: what the others remember is of other identities.
  settles-Recalled :
      (i : ℕ) (j : Bytes) (c : Call) (l l' : L) (calls : ℕ → Call) (g : G)
      → Standing group n g calls
      → flies (calls i) ≡ some j
      → recalls c ≡ none
      → ((k : Bytes) → k ≢ j → Unchanged lru laws evicting backend ttl neg_ttl k l l')
      → Recalled lru laws evicting backend group ttl neg_ttl n l calls
      → Recalled lru laws evicting backend group ttl neg_ttl n l' (place calls i c)
  settles-Recalled i j c l l' calls g st runs nothing keeps h a k p e =
      let (other, e') = older in
      let differs : k ≢ j =
        λ f. other (st.unique a i j (recalls-flies (calls a) k p e' ∙ ap some f) runs) in
      elim (keeps k differs) [
        | inl same ↦ elim (h a k p e') [ inl q ↦ inl (same ∙ q) | inr q ↦ inr (same ∙ q) ]
        | inr gone ↦ inr gone
      ]
    where
      older : (a ≢ i) × (recalls (calls a) ≡ some (k, p))
      older = ground (arith, nothing)

  leading-RecalledIn :
      (s : Traffic L W G) (i : ℕ) (vars : Vars)
      → RecalledIn s
      → RecalledIn (advance lru backend group ttl neg_ttl i (leading vars) s)
  unfolding advance
  leading-RecalledIn s i vars h a k p e = elim older [
    | inl (same, q) ↦ inl (
        subst (λ j. (lru.get j (lru.get (identity_of vars) s.cached.cache).1).0 ≡ p) same
          (laws.get-get (identity_of vars) (identity_of vars) s.cached.cache ∙ q))
    | inr f ↦ elim (h a k p f) [
      | inl q ↦ inl (laws.get-get k (identity_of vars) s.cached.cache ∙ q)
      | inr q ↦ inr (laws.get-get k (identity_of vars) s.cached.cache ∙ q)
    ]
  ]
    where
      older :
          ((identity_of vars ≡ k) × ((lru.get (identity_of vars) s.cached.cache).0 ≡ p))
          ⊎ (recalls (s.calls a) ≡ some (k, p))
      older = ground arith

  landing-RecalledIn :
      (s : Traffic L W G) (i : ℕ) (vars : Vars) (r : Result VarMap)
      → RecalledIn s
      → RecalledIn (advance lru backend group ttl neg_ttl i (landing vars r) s)
  unfolding advance
  landing-RecalledIn s i vars r h a k p e = h a k p older
    where
      older : recalls (s.calls a) ≡ some (k, p)
      older = ground (arith, recalls-released (identity_of vars) r (s.calls a))

  advance-RecalledIn :
      (i : ℕ) (c : Call) (s : Traffic L W G)
      → s.calls i ≡ c
      → Standing group n s.group s.calls
      → RecalledIn s
      → RecalledIn (advance lru backend group ttl neg_ttl i c s)
  unfolding advance
  advance-RecalledIn i unborn s e st h = h
  advance-RecalledIn i (waiting k) s e st h = h
  advance-RecalledIn i (answered r) s e st h = h
  advance-RecalledIn i (entered vars) s e st h =
      elim (Bool-cases (bytes_eq (identity_of vars) [])) [
        | inl empty ↦ rw empty (forgets s _ i _ refl (λ k. inl refl) h)
        | inr named ↦
            rw named
              (forgets s _ i _ refl (λ k. inl (laws.get-get k (identity_of vars) s.cached.cache)) h)
      ]
  advance-RecalledIn i (looked vars found) s e st h = judge-RecalledIn i _ vars _ h
  advance-RecalledIn i (missed vars) s e st h =
      elim (Bool-cases (group.busy (identity_of vars) s.group)) [
        | inl busy ↦ rw busy (forgets s _ i _ refl (λ k. inl refl) h)
        | inr free ↦ rw free (forgets s _ i _ refl (λ k. inl refl) h)
      ]
  advance-RecalledIn i (leading vars) s e st h = leading-RecalledIn s i vars h
  advance-RecalledIn i (calling vars prev) s e st h =
      Recalled-place lru laws evicting backend group ttl neg_ttl n s.calls i _
        (λ k p q. ap recalls e ∙ q) (λ k. inl refl) h
  advance-RecalledIn i (called vars prev result now) s e st h =
      settles-Recalled i (identity_of vars) _ s.cached.cache _ s.calls s.group st (ap flies e) refl
        (λ k d.
          settle_refresh-Unchanged lru laws evicting backend ttl neg_ttl (identity_of vars) k prev
            result now s.cached d)
        h
  advance-RecalledIn i (landing vars r) s e st h = landing-RecalledIn s i vars r h

  Step-RecalledIn :
      {s t : Traffic L W G}
      → Step lru backend group ttl neg_ttl n s t
      → Standing group n s.group s.calls
      → RecalledIn s
      → RecalledIn t
  Step-RecalledIn {s = s} (arrives i vars lt e) st h = forgets s _ i _ refl (λ k. inl refl) h
  Step-RecalledIn {s = s} (moves i lt) st h = advance-RecalledIn i (s.calls i) s refl st h
  Step-RecalledIn {s = s} flushes st h = λ i k p q. inr (laws.get-purge k s.cached.cache)
  Step-RecalledIn (passes w) st h = h

  Reach-RecalledIn :
      {s : Traffic L W G} → IsGroup group → Reach lru backend group ttl neg_ttl n s → RecalledIn s
  Reach-RecalledIn sync (opened c g free) = λ i k p q. cc
  Reach-RecalledIn sync (next r step) =
      Step-RecalledIn step (Reach-Holds lru backend group sync ttl neg_ttl n r).standing
        (Reach-RecalledIn sync r)

  abbrev KnowsIn : Bytes → Traffic L W G → Type 0
  KnowsIn k s = Knows lru laws evicting backend ttl neg_ttl k s.cached.cache

  -- The cache knows the identity, or has lost it.
  abbrev Spares : Bytes → L → Type 0
  Spares k l = Knows lru laws evicting backend ttl neg_ttl k l ⊎ ((lru.get k l).0 ≡ none)

  Spares-Unchanged :
      (k : Bytes) (l l' : L)
      → Knows lru laws evicting backend ttl neg_ttl k l
      → Unchanged lru laws evicting backend ttl neg_ttl k l l'
      → Spares k l'
  Spares-Unchanged k l l' (e, h, v) (inl same) = inl (e, same ∙ h, v)
  Spares-Unchanged k l l' (e, h, v) (inr gone) = inr gone

  judge-cache :
      (i : ℕ) (found : Served) (vars : Vars) (s : Traffic L W G)
      → (judge lru backend group ttl neg_ttl i found vars s).cached.cache ≡ s.cached.cache
  judge-cache i (hit_value v) vars s = refl
  judge-cache i hit_failure vars s = refl
  judge-cache i go_live vars s = refl

  advance-Spares :
      (i : ℕ) (c : Call) (k : Bytes) (s : Traffic L W G)
      → s.calls i ≡ c
      → RecalledIn s
      → KnowsIn k s
      → Spares k (advance lru backend group ttl neg_ttl i c s).cached.cache
  unfolding advance
  advance-Spares i unborn k s e h v = inl v
  advance-Spares i (waiting j) k s e h v = inl v
  advance-Spares i (answered r) k s e h v = inl v
  advance-Spares i (entered vars) k s e h v = elim (Bool-cases (bytes_eq (identity_of vars) [])) [
    | inl empty ↦ rw empty (inl v)
    | inr named ↦
        rw named (Spares-Unchanged k _ _ v (inl (laws.get-get k (identity_of vars) s.cached.cache)))
  ]
  advance-Spares i (looked vars found) k s e h v =
      Spares-Unchanged k _ _ v (inl (ap (λ l. (lru.get k l).0) (judge-cache i _ vars _)))
  advance-Spares i (missed vars) k s e h v =
      elim (Bool-cases (group.busy (identity_of vars) s.group)) [
        | inl busy ↦ rw busy (inl v)
        | inr free ↦ rw free (inl v)
      ]
  advance-Spares i (leading vars) k s e h v =
      Spares-Unchanged k _ _ v (inl (laws.get-get k (identity_of vars) s.cached.cache))
  advance-Spares i (calling vars prev) k s e h v = inl v
  advance-Spares i (called vars prev result now) k s e h v =
      elim (bytes-cases k (identity_of vars)) [
        | inl same ↦
            let here = subst (λ j. (KnowsIn j s)) same v in
            let after =
              (settle_refresh lru backend ttl neg_ttl (identity_of vars) prev result now
                s.cached).1.cache in
            subst (λ j. Spares j after) (sym same)
              (inl (
                settle_refresh-Knows lru laws evicting backend ttl neg_ttl (identity_of vars) prev
                  result now s.cached (h i (identity_of vars) prev (ap recalls e)) here))
        | inr (differs, _) ↦ Spares-Unchanged k _ _ v (
            settle_refresh-Unchanged lru laws evicting backend ttl neg_ttl (identity_of vars) k prev
              result now s.cached differs)
      ]
  advance-Spares i (landing vars r) k s e h v = inl v

  -- However calls, flushes and the world interleave, once the cache holds a value for an identity, the
  -- next step leaves it with a value for the identity or with nothing, by an eviction or a flush: no
  -- failure of a live call, also of one that began earlier, puts a negative entry in its place.
  pub Step-Spares :
      {s t : Traffic L W G}
      → IsGroup group
      → Reach lru backend group ttl neg_ttl n s
      → Step lru backend group ttl neg_ttl n s t
      → (k : Bytes) → KnowsIn k s
      → Spares k t.cached.cache
  Step-Spares sync r (arrives i vars lt e) k v = inl v
  Step-Spares {s} sync r (moves i lt) k v =
      advance-Spares i (s.calls i) k s refl (Reach-RecalledIn sync r) v
  Step-Spares {s} sync r flushes k v = inr (laws.get-purge k s.cached.cache)
  Step-Spares sync r (passes w) k v = inl v
