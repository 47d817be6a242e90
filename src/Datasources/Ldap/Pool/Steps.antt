-- ===== src/Datasources/Ldap/Pool/Steps.antt =====
-- The pool among callers that get and put connections in any order.
use authzmtls.Common.{
  ℕ, suc, zero, ◌+◌, ◌≤◌, ◌<◌, ◌≡◌, refl, ap, subst, ◌∙◌, Bool, List, [], ◌∷◌, ◌++◌, Option, none,
  some, Bytes, arith, ok, fail, replicate, length, length-append,
}
use authzmtls.Datasources.Ldap.Pool.Laws.{
  slots_after, Receives, receive-Receives, redial-Got, put-slots, put-capacity,
}
use authzmtls.Datasources.Ldap.Pool.{
  Network, Pool, ready, must_dial, missed, new_pool, redial, receive, put,
}

-- A pool, the connections that its callers hold, and how many calls of `get` have a slot and have not
-- dialled yet.
pub record Shared (Conn W : Type 0) : Type 0 where
  pub pool : Pool Conn W
  pub held : List Conn
  pub dialling : ℕ

-- The slots that hold a connection.
abbrev pub idle : {Conn : Type 0} → List (Option Conn) → ℕ
idle [] = 0
idle (none ∷ slots) = idle slots
idle (some c ∷ slots) = suc (idle slots)

idle_le : {Conn : Type 0} (slots : List (Option Conn)) → idle slots ≤ length slots
idle_le [] = omega arith
idle_le (none ∷ slots) = omega (arith, idle_le slots)
idle_le (some c ∷ slots) = omega (arith, idle_le slots)

length-replicate : {A : Type 0} (n : ℕ) (a : A) → length (replicate n a) ≡ n
length-replicate zero a = refl
length-replicate (suc n) a = ap suc (length-replicate n a)

module _ {Conn W : Type 0} (net : Network Conn W) where
  pub data Step : Shared Conn W → Shared Conn W → Type 0 where
    -- A call of `get` receives a connection that can be used.
    gets :
        {s : Shared Conn W} {c : Conn}
        → (receive net s.pool).0 ≡ ready c
        → Step s (record s { pool = (receive net s.pool).1; held = c ∷ s.held })
    -- A call of `get` receives a slot without one, and has to dial.
    begins :
        {s : Shared Conn W}
        → (receive net s.pool).0 ≡ must_dial
        → Step s (record s { pool = (receive net s.pool).1; dialling = suc s.dialling })
    -- A call of `get` ends with the context's error.
    misses :
        {s : Shared Conn W} {e : Bytes}
        → (receive net s.pool).0 ≡ missed e
        → Step s (record s { pool = (receive net s.pool).1 })
    -- The dial of a call of `get` gives a connection.
    dials :
        {s : Shared Conn W} {c : Conn} {n : ℕ}
        → s.dialling ≡ suc n
        → (redial net s.pool).0 ≡ ok c
        → Step s (record { pool = (redial net s.pool).1; held = c ∷ s.held; dialling = n })
    -- The dial fails.
    dials_in_vain :
        {s : Shared Conn W} {e : Bytes} {n : ℕ}
        → s.dialling ≡ suc n
        → (redial net s.pool).0 ≡ fail e
        → Step s (record s { pool = (redial net s.pool).1; dialling = n })
    -- A caller puts a connection that it holds.
    puts :
        (p : Pool Conn W) (before after : List Conn) (n : ℕ) (c : Conn) (healthy : Bool)
        → Step
            (record { pool = p; held = before ++ c ∷ after; dialling = n })
            (record { pool = put net c healthy p; held = before ++ after; dialling = n })
    -- Whatever else happens in the world.
    passes :
        {s : Shared Conn W} (w : W) → Step s (record s { pool = record (s.pool) { world = w } })

  -- What a pool of `size` connections can come to.
  pub data Reach (size : ℕ) : Shared Conn W → Type 0 where
    opened : (w : W) → Reach size (record { pool = new_pool size w; held = []; dialling = 0 })
    next : {s t : Shared Conn W} → Reach size s → Step s t → Reach size t

  record Balanced (size : ℕ) (s : Shared Conn W) : Type 0 where
    sized : s.pool.capacity ≡ size
    counted : length s.pool.slots + length s.held + s.dialling ≡ size

  redial-counted :
      (p : Pool Conn W)
      → ((redial net p).1.capacity ≡ p.capacity)
        × (slots_after (redial net p).0 (length (redial net p).1.slots) ≡ suc (length p.slots))
  redial-counted p =
      let taken_from = record p { slots = none ∷ p.slots } in
      let got = redial-Got net taken_from p (record { same = refl; taken = refl }) in
      (got.same_capacity, got.counted)

  Step-Balanced : {size : ℕ} {s t : Shared Conn W} → Balanced size s → Step s t → Balanced size t
  Step-Balanced {s = s} h (gets {c = c} e) =
      let took =
        subst (λ r. Receives net s.pool r (receive net s.pool).1) e (receive-Receives net s.pool) in
      record { sized = took.same ∙ h.sized; counted = omega (arith, took.taken, h.counted) }
  Step-Balanced {s = s} h (begins e) =
      let took =
        subst (λ r. Receives net s.pool r (receive net s.pool).1) e (receive-Receives net s.pool) in
      record { sized = took.same ∙ h.sized; counted = omega (arith, took.taken, h.counted) }
  Step-Balanced {s = s} h (misses e) =
      let kept =
        subst (λ r. Receives net s.pool r (receive net s.pool).1) e (receive-Receives net s.pool) in
      record { sized = kept.0 ∙ h.sized; counted = omega (arith, kept.1, h.counted) }
  Step-Balanced {s = s} h (dials {n = n} some_dial e) =
      let done = redial-counted s.pool in
      record {
        sized = done.0 ∙ h.sized;
        counted = omega (arith, rw e at done.1, some_dial, h.counted);
      }
  Step-Balanced {s = s} h (dials_in_vain {n = n} some_dial e) =
      let done = redial-counted s.pool in
      record {
        sized = done.0 ∙ h.sized;
        counted = omega (arith, rw e at done.1, some_dial, h.counted);
      }
  Step-Balanced h (puts p before after n c healthy) = record {
    sized = put-capacity net c healthy p ∙ h.sized;
    counted = omega (
      arith,
      put-slots net c healthy p,
      length-append before (c ∷ after),
      length-append before after,
      h.counted,
    );
  }
  Step-Balanced h (passes w) = record { sized = h.sized; counted = h.counted }

  Reach-Balanced : {size : ℕ} {s : Shared Conn W} → Reach size s → Balanced size s
  unfolding new_pool
  Reach-Balanced {size} (opened w) = record {
    sized = refl;
    counted = omega (arith, length-replicate {A = Option Conn} size none);
  }
  Reach-Balanced (next r step) = Step-Balanced (Reach-Balanced r) step

  -- However calls of `get`, their dials, and calls of `put` interleave: the connections that are idle
  -- or held and those that are being dialled are together at most `size`; whoever puts a connection
  -- and whoever hands a slot back after a failed dial finds room in the channel, so that no send
  -- blocks; and `get` finds the channel empty only if all `size` slots are with callers that hold a
  -- connection or dial one.
  pub Reach-bounds :
      {size : ℕ} {s : Shared Conn W}
      → Reach size s
      → (idle s.pool.slots + length s.held + s.dialling ≤ size)
        × (0 < length s.held + s.dialling → length s.pool.slots < s.pool.capacity)
        × (s.pool.slots ≡ [] → length s.held + s.dialling ≡ size)
  Reach-bounds {size} {s} r =
      let h = Reach-Balanced r in
      (
        omega (arith, idle_le s.pool.slots, h.counted),
        λ busy. omega (arith, busy, h.counted, h.sized),
        λ e. omega (arith, ap length e, h.counted),
      )
