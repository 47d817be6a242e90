-- ===== src/Datasources/Ldap/Pool/Laws.antt =====
-- What `get` and `put` do to the slots.
use authzmtls.Common.{
  ℕ, suc, ◌≡◌, refl, sym, ap, inl, inr, Bool, Bool-cases, true, false, List, [], ◌∷◌, Option,
  Option-cases, none, some, arith, Result, ok, fail, length, length-append,
}
use authzmtls.Datasources.Ldap.Pool.{
  Network, Pool, Received, ready, must_dial, missed, dialled, redial, usable, receive_from, receive,
  handed_out, get, put,
}

-- The slots, one for the connection that was handed out included.
abbrev pub slots_after : {Conn : Type 0} → Result Conn → ℕ → ℕ
slots_after (ok c) n = suc n
slots_after (fail e) n = n

-- What `get` does to the slots: one is taken for a connection, and none if there is an error.
pub record Got {Conn W : Type 0} (p : Pool Conn W) (result : Result Conn) (q : Pool Conn W)
    : Type 0 where
  pub same_capacity : q.capacity ≡ p.capacity
  pub counted : slots_after result (length q.slots) ≡ length p.slots

module _ {Conn W : Type 0} (net : Network Conn W) where
  -- `q` is `p` with a slot taken.
  pub record Taken (p q : Pool Conn W) : Type 0 where
    pub same : q.capacity ≡ p.capacity
    pub taken : length p.slots ≡ suc (length q.slots)

  dialled-Got :
      (p : Pool Conn W) (result : Result Conn) (q : Pool Conn W)
      → Taken p q
      → Got p (dialled net result q).0 (dialled net result q).1
  dialled-Got p (ok c) q h = record { same_capacity = h.same; counted = sym h.taken }
  dialled-Got p (fail m) q h = record {
    same_capacity = h.same;
    counted = omega (arith, length-append q.slots (none ∷ []), h.taken);
  }

  pub redial-Got : (p q : Pool Conn W) → Taken p q → Got p (redial net q).0 (redial net q).1
  redial-Got p q h =
      dialled-Got p (net.dial q.world).0 (record q { world = (net.dial q.world).1 })
        (record { same = h.same; taken = h.taken })

  -- `q` is what `receive` leaves of `p`: a slot is taken, but not for an error.
  abbrev pub Receives : Pool Conn W → Received Conn → Pool Conn W → Type 0
  Receives p (missed e) q = (q.capacity ≡ p.capacity) × (length q.slots ≡ length p.slots)
  Receives p (ready c) q = Taken p q
  Receives p must_dial q = Taken p q

  usable-Receives :
      (p : Pool Conn W) (slot : Option Conn) (q : Pool Conn W)
      → Taken p q
      → Receives p (usable net slot q).0 (usable net slot q).1
  usable-Receives p none q h = h
  usable-Receives p (some c) q h = elim (Bool-cases (net.is_closing c q.world)) [
    | inl broken ↦ rw broken (record { same = h.same; taken = h.taken })
    | inr working ↦ rw working h
  ]

  receive_from-Receives :
      (p : Pool Conn W) (slots : List (Option Conn))
      → slots ≡ p.slots
      → Receives p (receive_from net slots p).0 (receive_from net slots p).1
  unfolding receive_from
  receive_from-Receives p [] e = (refl, refl)
  receive_from-Receives p (slot ∷ rest) e = elim (Option-cases (net.ctx_done p.world)) [
    | inr (error, done) ↦ rw (done, receive_from) (refl, refl)
    | inl waits ↦
        rw (waits, receive_from)
          (usable-Receives p slot (record p { slots = rest })
            (record { same = refl; taken = sym (ap length e) }))
  ]

  pub receive-Receives : (p : Pool Conn W) → Receives p (receive net p).0 (receive net p).1
  unfolding receive
  receive-Receives p = receive_from-Receives p p.slots refl

  handed_out-Got :
      (p : Pool Conn W) (r : Received Conn) (q : Pool Conn W)
      → Receives p r q
      → Got p (handed_out net r q).0 (handed_out net r q).1
  handed_out-Got p (ready c) q h = record { same_capacity = h.same; counted = sym h.taken }
  handed_out-Got p must_dial q h = redial-Got p q h
  handed_out-Got p (missed e) q h = record { same_capacity = h.0; counted = h.1 }

  pub get-Got : (p : Pool Conn W) → Got p (get net p).0 (get net p).1
  unfolding get
  get-Got p = handed_out-Got p (receive net p).0 (receive net p).1 (receive-Receives p)

  -- A pool gets one slot back with a connection, whether the connection is healthy or not.
  pub put-slots :
      (c : Conn) (healthy : Bool) (p : Pool Conn W)
      → length (put net c healthy p).slots ≡ suc (length p.slots)
  unfolding put
  put-slots c true p = omega (arith, length-append p.slots (some c ∷ []))
  put-slots c false p = omega (arith, length-append p.slots (none ∷ []))

  pub put-capacity :
      (c : Conn) (healthy : Bool) (p : Pool Conn W) → (put net c healthy p).capacity ≡ p.capacity
  unfolding put
  put-capacity c true p = refl
  put-capacity c false p = refl
