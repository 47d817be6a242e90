-- ===== src/Datasources/Cache/Flight/Recall.antt =====
-- What a running `refresh` remembers of its identity, and what the end of one does to the cache.
use authzmtls.Common.{
  ℕ, ◌≡◌, ◌≢◌, ◌⊎◌, refl, ◌∙◌, inl, inr, Bool-cases, true, ℤ, Option, none, some, Bytes, bytes_eq,
  Result, ok, fail, arith,
}
use authzmtls.Datasources.Cache.Flight.Family.{place}
use authzmtls.Datasources.Cache.Flight.Inv.{flies}
use authzmtls.Datasources.Cache.Flight.{
  Group, Call, unborn, entered, looked, missed, waiting, leading, calling, called, landing,
  answered, released,
}
use authzmtls.Datasources.Cache.{
  CacheEntry, Backend, Lru, IsLru, Cached, identity_of, settle_refresh,
}
use authzmtls.Rules.Expand.{VarMap}

-- What golang-lru documents of the other keys: adding one may evict them, and changes none.
pub record IsEvicting {L : Type 0} (lru : Lru L) : Type 0 where
  pub get-add_other :
      (j k : Bytes) (e : CacheEntry) (l : L)
      → k ≢ j
      → ((lru.get k (lru.add j e l)).0 ≡ (lru.get k l).0) ⊎ ((lru.get k (lru.add j e l)).0 ≡ none)

-- The identity, and what the cache held for it when its execution began.
abbrev pub recalls : Call → Option (Bytes × Option CacheEntry)
recalls (calling vars prev) = some (identity_of vars, prev)
recalls (called vars prev result now) = some (identity_of vars, prev)
recalls _ = none

pub recalls-released :
    (k : Bytes) (r : Result VarMap) (c : Call) → recalls (released k r c) ≡ recalls c
recalls-released k r (waiting j) = elim (Bool-cases (bytes_eq j k)) [
  | inl same ↦ rw same refl
  | inr other ↦ rw other refl
]
recalls-released k r unborn = refl
recalls-released k r (entered vars) = refl
recalls-released k r (looked vars found) = refl
recalls-released k r (missed vars) = refl
recalls-released k r (leading vars) = refl
recalls-released k r (calling vars prev) = refl
recalls-released k r (called vars prev result now) = refl
recalls-released k r (landing vars result) = refl
recalls-released k r (answered result) = refl

pub recalls-flies :
    (c : Call) (k : Bytes) (p : Option CacheEntry) → recalls c ≡ some (k, p) → flies c ≡ some k
recalls-flies (calling vars prev) k p h = cc
recalls-flies (called vars prev result now) k p h = cc
recalls-flies unborn k p h = cc
recalls-flies (entered vars) k p h = cc
recalls-flies (looked vars found) k p h = cc
recalls-flies (missed vars) k p h = cc
recalls-flies (waiting j) k p h = cc
recalls-flies (leading vars) k p h = cc
recalls-flies (landing vars result) k p h = cc
recalls-flies (answered result) k p h = cc

module _ {L W : Type 0} (lru : Lru L) (laws : IsLru lru) (evicting : IsEvicting lru)
    (backend : Backend W) (ttl neg_ttl : ℤ) where
  abbrev pub entry : Bytes → L → Option CacheEntry
  entry k l = (lru.get k l).0

  -- Nothing new is known of the identity, and perhaps less.
  abbrev pub Unchanged : Bytes → L → L → Type 0
  Unchanged k l l' = (entry k l' ≡ entry k l) ⊎ (entry k l' ≡ none)

  pub settle_refresh-Unchanged :
      (j k : Bytes) (prev : Option CacheEntry) (result : Result VarMap) (now : ℤ) (c : Cached L W)
      → k ≢ j
      → Unchanged k c.cache (settle_refresh lru backend ttl neg_ttl j prev result now c).1.cache
  unfolding settle_refresh
  settle_refresh-Unchanged j k prev (ok value) now c d = evicting.get-add_other j k _ c.cache d
  settle_refresh-Unchanged j k none (fail e) now c d = evicting.get-add_other j k _ c.cache d
  settle_refresh-Unchanged j k (some prev) (fail e) now c d = elim (Bool-cases prev.has_value) [
    | inl stale ↦ rw stale (inl refl)
    | inr never ↦ rw never (evicting.get-add_other j k _ c.cache d)
  ]

  -- The cache holds a value for the identity.
  abbrev pub Knows : Bytes → L → Type 0
  Knows k l = (e : CacheEntry) × (entry k l ≡ some e) × (e.has_value ≡ true)

  pub settle_refresh-Knows :
      (k : Bytes) (prev : Option CacheEntry) (result : Result VarMap) (now : ℤ) (c : Cached L W)
      → (entry k c.cache ≡ prev) ⊎ (entry k c.cache ≡ none)
      → Knows k c.cache
      → Knows k (settle_refresh lru backend ttl neg_ttl k prev result now c).1.cache
  unfolding settle_refresh
  settle_refresh-Knows k prev (ok value) now c p (e, h, v) = (_, laws.get-add k _ c.cache, refl)
  settle_refresh-Knows k none (fail error) now c p (e, h, v) = ground arith
  settle_refresh-Knows k (some prev) (fail error) now c p (e, h, v) =
      elim (Bool-cases prev.has_value) [
        | inl stale ↦ rw stale (e, h, v)
        | inr never ↦ elim p [ inl same ↦ cc (same, h, v, never) | inr gone ↦ cc (gone, h) ]
      ]

module _ {L W G : Type 0} (lru : Lru L) (laws : IsLru lru) (evicting : IsEvicting lru)
    (backend : Backend W) (group : Group G) (ttl neg_ttl : ℤ) (n : ℕ) where
  -- What a running `refresh` remembers of its identity, the cache holds, or has lost.
  abbrev pub Recalled : L → (ℕ → Call) → Type 0
  Recalled l calls =
      (i : ℕ) (k : Bytes) (p : Option CacheEntry)
      → recalls (calls i) ≡ some (k, p)
      → ((lru.get k l).0 ≡ p) ⊎ ((lru.get k l).0 ≡ none)

  -- The call at `i` remembers nothing new, and the cache may have lost entries.
  pub Recalled-place :
      {l l' : L} (calls : ℕ → Call) (i : ℕ) (c : Call)
      → ((k : Bytes) (p : Option CacheEntry)
          → recalls c ≡ some (k, p)
          → recalls (calls i) ≡ some (k, p))
      → ((k : Bytes) → Unchanged lru laws evicting backend ttl neg_ttl k l l')
      → Recalled l calls
      → Recalled l' (place calls i c)
  Recalled-place {l} {l'} calls i c old keeps h a k p e =
      let e' : recalls (calls a) ≡ some (k, p) = ground (arith, old k p) in
      elim (keeps k) [
        | inl same ↦ elim (h a k p e') [ inl q ↦ inl (same ∙ q) | inr q ↦ inr (same ∙ q) ]
        | inr gone ↦ inr gone
      ]
