-- ===== src/Datasources/Cache/Flight/Identity.antt =====
-- Which values stand where for an identity.
use authzmtls.Common.{
  ℕ, ◌≡◌, sym, subst, ◌∙◌, inl, inr, Bool-cases, and-eq-true, true, ℤ, ◌-ℤ◌, ltb_ℤ, not, ◌&&◌,
  Option, none, some, Bytes, bytes_eq, bytes_eq_iff, bytes-cases, Result, ok, fail, ==_iff, ◌==◌,
}
use authzmtls.Datasources.Cache.Flight.Family.{place}
use authzmtls.Datasources.Cache.Flight.Recall.{IsEvicting}
use authzmtls.Datasources.Cache.Flight.{
  Call, unborn, entered, looked, missed, waiting, leading, calling, called, landing, answered,
  released,
}
use authzmtls.Datasources.Cache.{
  CacheEntry, Served, hit_value, hit_failure, go_live, before_neg_until, Backend, Lru, IsLru,
  Cached, identity_of, served, served_fresh, settle_refresh,
}
use authzmtls.Rules.Expand.{VarMap}

module _ (P : Bytes → VarMap → Type 0) where
  -- A value, where there is one, is for the identity.
  abbrev pub GoodEntry : Bytes → Option CacheEntry → Type 0
  GoodEntry k none = Unit
  GoodEntry k (some e) = e.has_value ≡ true → P k e.value

  abbrev pub GoodResult : Bytes → Result VarMap → Type 0
  GoodResult k (ok v) = P k v
  GoodResult k (fail e) = Unit

  abbrev pub GoodServed : Bytes → Served → Type 0
  GoodServed k (hit_value v) = P k v
  GoodServed k hit_failure = Unit
  GoodServed k go_live = Unit

  -- The call is for the identity `k`, and so are the values that it has.
  abbrev pub Fine : Bytes → Call → Type 0
  Fine k unborn = Unit
  Fine k (entered vars) = identity_of vars ≡ k
  Fine k (looked vars found) = (identity_of vars ≡ k) × GoodEntry k found
  Fine k (missed vars) = identity_of vars ≡ k
  Fine k (waiting j) = j ≡ k
  Fine k (leading vars) = identity_of vars ≡ k
  Fine k (calling vars prev) = (identity_of vars ≡ k) × GoodEntry k prev
  Fine k (called vars prev result now) =
      (identity_of vars ≡ k) × GoodEntry k prev × GoodResult k result
  Fine k (landing vars result) = (identity_of vars ≡ k) × GoodResult k result
  Fine k (answered result) = GoodResult k result

  pub Fine-released :
      (k j : Bytes) (r : Result VarMap) (c : Call)
      → GoodResult k r
      → Fine j c
      → Fine j (released k r c)
  Fine-released k j r (waiting i) g h = elim (Bool-cases (bytes_eq i k)) [
    | inl same ↦ rw same (subst (λ x. GoodResult x r) (sym ((bytes_eq_iff i k).0 same) ∙ h) g)
    | inr other ↦ rw other h
  ]
  Fine-released k j r unborn g h = h
  Fine-released k j r (entered vars) g h = h
  Fine-released k j r (looked vars found) g h = h
  Fine-released k j r (missed vars) g h = h
  Fine-released k j r (leading vars) g h = h
  Fine-released k j r (calling vars prev) g h = h
  Fine-released k j r (called vars prev result now) g h = h
  Fine-released k j r (landing vars result) g h = h
  Fine-released k j r (answered result) g h = h

  -- Every call is fine for its identity.
  abbrev pub AllFine : (ℕ → Bytes) → (ℕ → Call) → Type 0
  AllFine names calls = (j : ℕ) → Fine (names j) (calls j)

  pub Fine-place :
      (names : ℕ → Bytes) (calls : ℕ → Call) (i : ℕ) (c : Call)
      → Fine (names i) c
      → AllFine names calls
      → AllFine names (place calls i c)
  Fine-place names calls i c here h j = elim (Bool-cases (i == j)) [
    | inl same ↦ rw same (subst (λ x. Fine (names x) c) ((==_iff i j).0 same) here)
    | inr other ↦ rw other (h j)
  ]

module _ {L W : Type 0} (lru : Lru L) (laws : IsLru lru) (evicting : IsEvicting lru)
    (backend : Backend W) (ttl neg_ttl : ℤ) (P : Bytes → VarMap → Type 0) where
  -- Every value in the cache is for the identity under which it stands.
  abbrev pub Keyed : L → Type 0
  Keyed l = (k : Bytes) → GoodEntry P k (lru.get k l).0

  Keyed-add :
      (j : Bytes) (e : CacheEntry) (l : L)
      → GoodEntry P j (some e)
      → Keyed l
      → Keyed (lru.add j e l)
  Keyed-add j e l g h k = elim (bytes-cases k j) [
    | inl same ↦
        subst (λ x. GoodEntry P x (lru.get x (lru.add j e l)).0) (sym same)
          (subst (GoodEntry P j) (sym (laws.get-add j e l)) g)
    | inr (differs, _) ↦ elim (evicting.get-add_other j k e l differs) [
      | inl kept ↦ subst (GoodEntry P k) (sym kept) (h k)
      | inr gone ↦ subst (GoodEntry P k) (sym gone) tt
    ]
  ]

  pub served-GoodServed :
      (k : Bytes) (found : Option CacheEntry) (now : ℤ)
      → GoodEntry P k found
      → GoodServed P k (served lru backend ttl neg_ttl found now)
  unfolding served_fresh
  served-GoodServed k none now g = tt
  served-GoodServed k (some e) now g =
      elim (Bool-cases (e.has_value && ltb_ℤ (now -ℤ e.fetched_at) ttl)) [
        | inl hit ↦ rw hit (g (and-eq-true e.has_value _ hit).0)
        | inr miss ↦ elim (Bool-cases (not e.has_value && before_neg_until now e.neg_until)) [
          | inl waits ↦ rw (miss, waits) tt
          | inr due ↦ rw (miss, due) tt
        ]
      ]

  pub settle_refresh-Keyed :
      (k : Bytes) (prev : Option CacheEntry) (result : Result VarMap) (now : ℤ) (c : Cached L W)
      → GoodEntry P k prev
      → GoodResult P k result
      → Keyed c.cache
      → GoodResult P k (settle_refresh lru backend ttl neg_ttl k prev result now c).0
        × Keyed (settle_refresh lru backend ttl neg_ttl k prev result now c).1.cache
  unfolding settle_refresh
  settle_refresh-Keyed k prev (ok v) now c p g h = (g, Keyed-add k _ c.cache (λ _. g) h)
  settle_refresh-Keyed k none (fail e) now c p g h = (tt, Keyed-add k _ c.cache (λ f. cc) h)
  settle_refresh-Keyed k (some prev) (fail e) now c p g h = elim (Bool-cases prev.has_value) [
    | inl stale ↦ rw stale (p stale, h)
    | inr never ↦ rw never (tt, Keyed-add k _ c.cache (λ f. cc) h)
  ]
