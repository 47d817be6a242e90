-- ===== src/Datasources/Cache/Flight/Overlap.antt =====
-- Calls for one identity do not overlap in `refresh`, and the gauge counts the calls that are there.
use authzmtls.Common.{
  ℕ, ◌+◌, ◌<◌, ◌≡◌, refl, ap, sym, ◌∙◌, inl, inr, Bool-cases, true, ℤ, pos, negsuc, ◌+ℤ◌, none,
  some, Bytes, bytes_eq, arith, [],
}
use authzmtls.Datasources.Cache.Flight.Family.{place, total, total-place, total-same}
use authzmtls.Datasources.Cache.Flight.Inv.{
  flies, waits, refreshing, released-refreshing, Standing, Standing-place, Standing-begin,
  Standing-finish,
}
use authzmtls.Datasources.Cache.Flight.{
  Group, IsGroup, Call, unborn, entered, looked, missed, waiting, leading, calling, called, landing,
  answered, Traffic, released, judge, advance, Step, arrives, moves, flushes, passes, Reach, opened,
  next,
}
use authzmtls.Datasources.Cache.{Served, hit_value, hit_failure, go_live, Backend, Lru, identity_of}
use authzmtls.Rules.Reqvars.{Vars}

gauge_up : (m : ℕ) → pos m +ℤ pos 1 ≡ pos (m + 1)
gauge_up m = ground arith

gauge_down : (m : ℕ) → pos (m + 1) +ℤ negsuc 0 ≡ pos m
gauge_down m = ground arith

module _ {G : Type 0} (group : Group G) (n : ℕ) where
  pub record Sound (g : G) (gauge : ℤ) (calls : ℕ → Call) : Type 0 where
    pub standing : Standing group n g calls
    pub counted : gauge ≡ pos (total refreshing n calls)

  -- A call that stays where it is, as far as the group and the gauge can tell.
  Sound-place :
      {g : G} {gauge : ℤ} {calls : ℕ → Call} (i : ℕ) (c : Call)
      → i < n
      → flies c ≡ flies (calls i)
      → refreshing c ≡ refreshing (calls i)
      → ((k : Bytes) → waits c ≡ some k → group.busy k g ≡ true)
      → Sound g gauge calls
      → Sound g gauge (place calls i c)
  Sound-place {calls = calls} i c lt same weighs joins s = record {
    standing = Standing-place group i c same joins s.standing;
    counted = s.counted ∙ ap pos (omega (arith, total-place refreshing n calls i c lt, weighs));
  }

  total-empty : (m : ℕ) → total refreshing m (λ _. unborn) ≡ 0
  unfolding total
  total-empty ℕ.zero = refl
  total-empty (ℕ.suc m) = omega (arith, total-empty m)

module _ {L W G : Type 0} (lru : Lru L) (backend : Backend W) (group : Group G)
    (laws : IsGroup group) (ttl neg_ttl : ℤ) (n : ℕ) where
  abbrev Holds : Traffic L W G → Type 0
  Holds s = Sound group n s.group s.inflight s.calls

  judge-Holds :
      (i : ℕ) (found : Served) (vars : Vars) (s : Traffic L W G)
      → i < n
      → flies (s.calls i) ≡ none
      → refreshing (s.calls i) ≡ 0
      → Holds s
      → Holds (judge lru backend group ttl neg_ttl i found vars s)
  judge-Holds i (hit_value v) vars s lt f w h =
      Sound-place group n i _ lt (sym f) (sym w) (λ k e. cc) h
  judge-Holds i hit_failure vars s lt f w h =
      Sound-place group n i _ lt (sym f) (sym w) (λ k e. cc) h
  judge-Holds i go_live vars s lt f w h = Sound-place group n i _ lt (sym f) (sym w) (λ k e. cc) h

  advance-Holds :
      (i : ℕ) (c : Call) (s : Traffic L W G)
      → i < n
      → s.calls i ≡ c
      → Holds s
      → Holds (advance lru backend group ttl neg_ttl i c s)
  unfolding advance
  advance-Holds i unborn s lt e h = h
  advance-Holds i (waiting k) s lt e h = h
  advance-Holds i (answered r) s lt e h = h
  advance-Holds i (entered vars) s lt e h = elim (Bool-cases (bytes_eq (identity_of vars) [])) [
    | inl empty ↦
        rw empty
          (Sound-place group n i _ lt (sym (ap flies e)) (sym (ap refreshing e)) (λ k e. cc) h)
    | inr named ↦
        rw named
          (Sound-place group n i _ lt (sym (ap flies e)) (sym (ap refreshing e)) (λ k e. cc) h)
  ]
  advance-Holds i (looked vars found) s lt e h =
      judge-Holds i _ vars _ lt (ap flies e) (ap refreshing e) h
  advance-Holds i (missed vars) s lt e h =
      elim (Bool-cases (group.busy (identity_of vars) s.group)) [
        | inl busy ↦ rw busy (
            Sound-place group n i _ lt (sym (ap flies e)) (sym (ap refreshing e))
              (λ k e. cc (e, busy)) h)
        | inr free ↦ rw free (record {
          standing =
              Standing-begin group laws i (identity_of vars) (leading vars) lt (ap flies e) refl
                refl free h.standing;
          counted =
              h.counted
              ∙ ap pos (
                  omega
                    (arith, total-place refreshing n s.calls i (leading vars) lt, ap refreshing e));
        })
      ]
  advance-Holds i (leading vars) s lt e h = record {
    standing = Standing-place group i _ (sym (ap flies e)) (λ k e. cc) h.standing;
    counted =
        ap (λ x. x +ℤ pos 1) h.counted
        ∙ gauge_up (total refreshing n s.calls)
        ∙ ap pos (omega (arith, total-place refreshing n s.calls i _ lt, ap refreshing e));
  }
  advance-Holds i (calling vars prev) s lt e h =
      Sound-place group n i _ lt (sym (ap flies e)) (sym (ap refreshing e)) (λ k e. cc) h
  advance-Holds i (called vars prev result now) s lt e h = record {
    standing = Standing-place group i _ (sym (ap flies e)) (λ k e. cc) h.standing;
    counted =
        ap (λ x. x +ℤ negsuc 0)
          (h.counted
            ∙ ap pos (omega (arith, total-place refreshing n s.calls i _ lt, ap refreshing e)))
        ∙ gauge_down (total refreshing n (place s.calls i _));
  }
  advance-Holds i (landing vars r) s lt e h = record {
    standing = Standing-finish group laws i (identity_of vars) r (ap flies e) h.standing;
    counted =
        h.counted
        ∙ ap pos (
            omega (
              arith,
              total-same refreshing n s.calls (λ j. released (identity_of vars) r (s.calls j))
                  (λ j. sym (released-refreshing (identity_of vars) r (s.calls j))),
              total-place refreshing n (λ j. released (identity_of vars) r (s.calls j)) i
                  (answered r) lt,
              released-refreshing (identity_of vars) r (s.calls i),
              ap refreshing e,
            ));
  }

  pub Step-Holds :
      {s t : Traffic L W G} → Step lru backend group ttl neg_ttl n s t → Holds s → Holds t
  Step-Holds {s = s} (arrives i vars lt e) h =
      Sound-place group n i _ lt (sym (ap flies e)) (sym (ap refreshing e)) (λ k e. cc) h
  Step-Holds {s = s} (moves i lt) h = advance-Holds i (s.calls i) s lt refl h
  Step-Holds flushes h = h
  Step-Holds (passes w) h = h

  pub Reach-Holds : {s : Traffic L W G} → Reach lru backend group ttl neg_ttl n s → Holds s
  Reach-Holds (opened c g free) = record {
    standing = record {
      unique = λ i j k p q. cc;
      busy = λ i k p. cc;
      flown = λ k p. cc (p, free k);
      awaited = λ j k p. cc;
    };
    counted = ap pos (sym (total-empty group n n));
  }
  Reach-Holds (next r step) = Step-Holds step (Reach-Holds r)

  -- However calls of `Resolve` interleave with each other, with flushes and with the world: two calls
  -- that execute `refresh` for one identity are the same call, and the inflight gauge shows how many
  -- calls are between its two changes in `refresh`.
  pub Reach-alone :
      {s : Traffic L W G}
      → Reach lru backend group ttl neg_ttl n s
      → ((i j : ℕ) (k : Bytes) → flies (s.calls i) ≡ some k → flies (s.calls j) ≡ some k → i ≡ j)
        × (s.inflight ≡ pos (total refreshing n s.calls))
  Reach-alone r = let h = Reach-Holds r in (h.standing.unique, h.counted)
