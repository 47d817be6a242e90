-- ===== src/Datasources/Ldap/Pool.antt =====
-- internal/datasources/ldap/pool.go: the pool of connections. The channel of slots is a list, its
-- first-in first-out order kept. Dialling, the state of a connection and the deadline are outside.
pub mod Laws
pub mod Steps
pub mod Leaks
use authzmtls.Common.{
  ℕ, Bool, true, false, not, List, [], ◌∷◌, ◌++◌, Option, none, some, Bytes, Result, ok, fail,
  replicate, if◌then◌else◌,
}

pub record Network (Conn W : Type 0) : Type 0 where
  -- `dialFunc`.
  pub dial : W → Result Conn × W
  pub is_closing : Conn → W → Bool
  pub close : Conn → W → W
  -- The choice of `select` where a slot is free: `some` is the context's error.
  pub ctx_done : W → Option Bytes
  -- The context's error, once no slot has become free in time.
  pub ctx_err : W → Bytes

-- `pool`, with the world that its connections live in; `none` is a nil placeholder.
pub record Pool (Conn W : Type 0) : Type 0 where
  pub slots : List (Option Conn)
  pub capacity : ℕ
  pub world : W

-- `newPool`.
unfoldable pub new_pool : {Conn W : Type 0} → ℕ → W → Pool Conn W
new_pool size w = record { slots = replicate size none; capacity = size; world = w }

-- `p.slots <- c`.
abbrev pub send : {Conn W : Type 0} → Option Conn → Pool Conn W → Pool Conn W
send c p = record p { slots = p.slots ++ c ∷ [] }

-- What `get` has from the `select`: a connection, a slot without one, or the context's error.
pub data Received (Conn : Type 0) : Type 0 where
  ready : Conn → Received Conn
  must_dial : Received Conn
  missed : Bytes → Received Conn

module _ {Conn W : Type 0} (net : Network Conn W) where
  -- The end of `get`, given the result of the dial.
  abbrev pub dialled : Result Conn → Pool Conn W → Result Conn × Pool Conn W
  dialled (ok c) p = (ok c, p)
  dialled (fail e) p = (fail e, send none p)

  abbrev pub redial : Pool Conn W → Result Conn × Pool Conn W
  redial p = let (result, w) = net.dial p.world in dialled result (record p { world = w })

  -- The slot that `get` has received: a connection that can be used, or none, so that it dials.
  abbrev pub usable : Option Conn → Pool Conn W → Received Conn × Pool Conn W
  usable none p = (must_dial, p)
  usable (some c) p =
      if not (net.is_closing c p.world)
      then (ready c, p)
      else (must_dial, record p { world = net.close c p.world })

  unfoldable pub receive_from : List (Option Conn) → Pool Conn W → Received Conn × Pool Conn W
  receive_from [] p = (missed (net.ctx_err p.world), p)
  receive_from (slot ∷ rest) p = elim (net.ctx_done p.world) [
    | some e ↦ (missed e, p)
    | none ↦ usable slot (record p { slots = rest })
  ]

  -- `get` up to the dial: the `select`, and the test of the connection.
  unfoldable pub receive : Pool Conn W → Received Conn × Pool Conn W
  unfolding receive_from
  receive p = receive_from p.slots p

  -- `get` from there.
  abbrev pub handed_out : Received Conn → Pool Conn W → Result Conn × Pool Conn W
  handed_out (ready c) p = (ok c, p)
  handed_out must_dial p = redial p
  handed_out (missed e) p = (fail e, p)

  -- `get`.
  unfoldable pub get : Pool Conn W → Result Conn × Pool Conn W
  unfolding receive
  get p = let (received, q) = receive p in handed_out received q

  -- `put`.
  unfoldable pub put : Conn → Bool → Pool Conn W → Pool Conn W
  put c healthy p =
      if not healthy then send none (record p { world = net.close c p.world }) else send (some c) p

-- An error of a search: its text, whether it is a `*goldap.Error`, so that the server responded, and
-- whether its code is `LDAPResultSizeLimitExceeded`.
pub record SearchError : Type 0 where
  pub text : Bytes
  pub responded : Bool
  pub size_limit : Bool

-- `connHealthyAfterError`.
abbrev pub conn_healthy_after_error : Option SearchError → Bool
conn_healthy_after_error none = true
conn_healthy_after_error (some e) = e.responded
