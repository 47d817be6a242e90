-- ===== src/Datasources/Ldap/Pool/Leaks.antt =====
-- The pool of `dialAndBind` loses no connection.
use authzmtls.Common.{
  ℕ, zero, suc, ◌+◌, ◌≤◌, ◌≡◌, refl, sym, ap, subst, inl, inr, Bool, Bool-cases, true, false, List,
  [], ◌∷◌, ◌++◌, Option, Option-cases, none, some, Bytes, arith, Result, ok, fail, length,
  length-append, replicate,
}
use authzmtls.Datasources.Ldap.Dial.{Dialer, Counted, bound, dialled_url, dial_and_bind, production}
use authzmtls.Datasources.Ldap.Pool.Steps.{Shared, idle, Reach, opened, next, Reach-bounds}
use authzmtls.Datasources.Ldap.Pool.Steps
use authzmtls.Datasources.Ldap.Pool.{
  Pool, Received, ready, must_dial, missed, new_pool, dialled, redial, usable, receive_from,
  receive, put,
}

abbrev pub one_of : {A : Type 0} → Result A → ℕ
one_of (ok c) = 1
one_of (fail e) = 0

abbrev slot_count : {Conn : Type 0} → Option Conn → ℕ
slot_count none = 0
slot_count (some c) = 1

idle-append : {Conn : Type 0} (xs ys : List (Option Conn)) → idle (xs ++ ys) ≡ idle xs + idle ys
idle-append [] ys = omega arith
idle-append (none ∷ xs) ys = omega (arith, idle-append xs ys)
idle-append (some c ∷ xs) ys = omega (arith, idle-append xs ys)

idle-replicate : (Conn : Type 0) (n : ℕ) → idle {Conn = Conn} (replicate n none) ≡ 0
idle-replicate Conn zero = refl
idle-replicate Conn (suc n) = idle-replicate Conn n

idle-cons :
    {Conn : Type 0} (slot : Option Conn) (rest : List (Option Conn))
    → idle (slot ∷ rest) ≡ slot_count slot + idle rest
idle-cons none rest = omega arith
idle-cons (some c) rest = omega arith

module _ {Conn W : Type 0} (d : Dialer Conn W) where
  abbrev Prod : Type 0
  Prod = Pool Conn (Counted W)

  -- Every connection that was opened is closed, idle, or one of `out` that callers have.
  abbrev Even : ℕ → Prod → Type 0
  Even out p = p.world.opened ≡ p.world.closed + idle p.slots + out

  -- The dial opens one connection for its result, and closes what else it opens.
  abbrev Dialled : Result Conn × Counted W → ℕ → ℕ → Type 0
  Dialled x o k = x.1.opened + k ≡ o + x.1.closed + one_of x.0

  bound-Dialled : (c : Conn) (x : Option Bytes × W) (o k : ℕ) → Dialled (bound d c x (suc o) k) o k
  bound-Dialled c (none, w) o k = omega arith
  bound-Dialled c (some e, w) o k = omega arith

  dialled_url-Dialled : (x : Result Conn × W) (o k : ℕ) → Dialled (dialled_url d x o k) o k
  dialled_url-Dialled (fail e, w) o k = omega arith
  dialled_url-Dialled (ok c, w) o k = bound-Dialled c (d.bind c w) o k

  dial_and_bind-Dialled : (w : Counted W) → Dialled (dial_and_bind d w) w.opened w.closed
  unfolding dial_and_bind
  dial_and_bind-Dialled w = dialled_url-Dialled (d.dial_url _ w.inner) w.opened w.closed

  dialled-Even :
      (out : ℕ) (x : Result Conn × Counted W) (p : Prod)
      → Even out p
      → Dialled x p.world.opened p.world.closed
      → Even (out + one_of x.0) (dialled (production d) x.0 (record p { world = x.1 })).1
        × (one_of (dialled (production d) x.0 (record p { world = x.1 })).0 ≡ one_of x.0)
  dialled-Even out (ok c, w) p h e = (omega (arith, h, e), refl)
  dialled-Even out (fail m, w) p h e = (omega (arith, h, e, idle-append p.slots (none ∷ [])), refl)

  redial-Even :
      (out : ℕ) (p : Prod)
      → Even out p
      → Even (out + one_of (redial (production d) p).0) (redial (production d) p).1
  redial-Even out p h =
      let (even, same) =
        dialled-Even out (dial_and_bind d p.world) p h (dial_and_bind-Dialled p.world) in
      subst (λ m. Even (out + m) (redial (production d) p).1) (sym same) even

  -- What `receive` gives a caller.
  abbrev one_received : Received Conn → ℕ
  one_received (ready c) = 1
  one_received must_dial = 0
  one_received (missed e) = 0

  abbrev ReceivesEven : ℕ → Received Conn × Prod → Type 0
  ReceivesEven out x = Even (out + one_received x.0) x.1

  usable-Even :
      (out : ℕ) (slot : Option Conn) (p : Prod)
      → Even (out + slot_count slot) p
      → ReceivesEven out (usable (production d) slot p)
  usable-Even out none p h = h
  usable-Even out (some c) p h = elim (Bool-cases (d.is_closing c p.world.inner)) [
    | inl broken ↦ rw broken (omega (arith, h))
    | inr working ↦ rw working h
  ]

  receive_from-Even :
      (out : ℕ) (slots : List (Option Conn)) (p : Prod)
      → slots ≡ p.slots
      → Even out p
      → ReceivesEven out (receive_from (production d) slots p)
  unfolding receive_from
  receive_from-Even out [] p e h = omega (arith, h)
  receive_from-Even out (slot ∷ rest) p e h = elim (Option-cases (d.ctx_done p.world.inner)) [
    | inr (error, done) ↦ rw (done, receive_from) (omega (arith, h))
    | inl waits ↦
        rw (waits, receive_from)
          (usable-Even out slot (record p { slots = rest })
            (omega (arith, h, ap idle e, idle-cons slot rest)))
  ]

  receive-Even : (out : ℕ) (p : Prod) → Even out p → ReceivesEven out (receive (production d) p)
  unfolding receive
  receive-Even out p h = receive_from-Even out p.slots p refl h

  put-Even :
      (out : ℕ) (c : Conn) (healthy : Bool) (p : Prod)
      → Even (suc out) p
      → Even out (put (production d) c healthy p)
  unfolding put
  put-Even out c true p h = omega (arith, h, idle-append p.slots (some c ∷ []))
  put-Even out c false p h = omega (arith, h, idle-append p.slots (none ∷ []))

  -- What a pool of `size` connections and its callers can come to, the rest of the world changing as
  -- it likes, also between the two halves of `get`.
  pub data Trace (size : ℕ) : Shared Conn (Counted W) → Type 0 where
    fresh :
        (w : W)
        → Trace size (record {
          pool = new_pool size (record { inner = w; opened = 0; closed = 0 });
          held = [];
          dialling = 0;
        })
    gets :
        {s : Shared Conn (Counted W)} {c : Conn}
        → Trace size s
        → (receive (production d) s.pool).0 ≡ ready c
        → Trace size (record s { pool = (receive (production d) s.pool).1; held = c ∷ s.held })
    begins :
        {s : Shared Conn (Counted W)}
        → Trace size s
        → (receive (production d) s.pool).0 ≡ must_dial
        → Trace size
            (record s { pool = (receive (production d) s.pool).1; dialling = suc s.dialling })
    misses :
        {s : Shared Conn (Counted W)} {e : Bytes}
        → Trace size s
        → (receive (production d) s.pool).0 ≡ missed e
        → Trace size (record s { pool = (receive (production d) s.pool).1 })
    dials :
        {s : Shared Conn (Counted W)} {c : Conn} {n : ℕ}
        → Trace size s
        → s.dialling ≡ suc n
        → (redial (production d) s.pool).0 ≡ ok c
        → Trace size
            (record { pool = (redial (production d) s.pool).1; held = c ∷ s.held; dialling = n })
    dials_in_vain :
        {s : Shared Conn (Counted W)} {e : Bytes} {n : ℕ}
        → Trace size s
        → s.dialling ≡ suc n
        → (redial (production d) s.pool).0 ≡ fail e
        → Trace size (record s { pool = (redial (production d) s.pool).1; dialling = n })
    puts :
        (p : Pool Conn (Counted W)) (before after : List Conn) (n : ℕ) (c : Conn) (healthy : Bool)
        → Trace size (record { pool = p; held = before ++ c ∷ after; dialling = n })
        → Trace size
            (record { pool = put (production d) c healthy p; held = before ++ after; dialling = n })
    passes :
        {s : Shared Conn (Counted W)} (w : W)
        → Trace size s
        → Trace size
            (record s { pool = record (s.pool) { world = record (s.pool.world) { inner = w } } })

  Trace-Reach :
      {size : ℕ} {s : Shared Conn (Counted W)} → Trace size s → Reach (production d) size s
  Trace-Reach (fresh w) = opened _
  Trace-Reach (gets t e) = next (Trace-Reach t) (Steps.gets e)
  Trace-Reach (begins t e) = next (Trace-Reach t) (Steps.begins e)
  Trace-Reach (misses t e) = next (Trace-Reach t) (Steps.misses e)
  Trace-Reach (dials t some_dial e) = next (Trace-Reach t) (Steps.dials some_dial e)
  Trace-Reach (dials_in_vain t some_dial e) = next (Trace-Reach t) (Steps.dials_in_vain some_dial e)
  Trace-Reach (puts p before after n c healthy t) =
      next (Trace-Reach t) (Steps.puts p before after n c healthy)
  Trace-Reach (passes w t) = next (Trace-Reach t) (Steps.passes _)

  Trace-Even : {size : ℕ} {s : Shared Conn (Counted W)} → Trace size s → Even (length s.held) s.pool
  unfolding new_pool
  Trace-Even {size} (fresh w) = omega (arith, idle-replicate Conn size)
  Trace-Even (gets {s} {c} t e) =
      let even = receive-Even (length s.held) s.pool (Trace-Even t) in
      omega (arith, even, ap one_received e)
  Trace-Even (begins {s} t e) =
      let even = receive-Even (length s.held) s.pool (Trace-Even t) in
      omega (arith, even, ap one_received e)
  Trace-Even (misses {s} t e) =
      let even = receive-Even (length s.held) s.pool (Trace-Even t) in
      omega (arith, even, ap one_received e)
  Trace-Even (dials {s} {c} t some_dial e) =
      let even = redial-Even (length s.held) s.pool (Trace-Even t) in
      omega (arith, even, ap one_of e)
  Trace-Even (dials_in_vain {s} t some_dial e) =
      let even = redial-Even (length s.held) s.pool (Trace-Even t) in
      omega (arith, even, ap one_of e)
  Trace-Even (puts p before after n c healthy t) =
      put-Even (length (before ++ after)) c healthy p
        (omega (arith, Trace-Even t, length-append before (c ∷ after), length-append before after))
  Trace-Even (passes w t) = Trace-Even t

  -- However calls of `get`, their dials, and calls of `put` interleave, no connection is lost: as many as `dialAndBind`
  -- has opened, also where the bind failed, have been closed, are idle in the pool, or are with a
  -- caller; and no more than `size` are not closed.
  pub Trace-opened :
      {size : ℕ} {s : Shared Conn (Counted W)}
      → Trace size s
      → (s.pool.world.opened ≡ s.pool.world.closed + idle s.pool.slots + length s.held)
        × (s.pool.world.opened ≤ s.pool.world.closed + size)
  Trace-opened {size} {s} t =
      let even = Trace-Even t in
      let bounds = Reach-bounds (production d) (Trace-Reach t) in
      (even, omega (arith, even, bounds.0))
