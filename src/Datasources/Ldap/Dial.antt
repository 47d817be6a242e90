-- ===== src/Datasources/Ldap/Dial.antt =====
-- internal/datasources/ldap/pool.go: `dialAndBind`, the dial of a pool in production, with a count
-- of the connections that it opens and of those that are closed. go-ldap and the clock are
-- parameters.
use authzmtls.Common.{
  ℕ, suc, ℤ, pos, ltb_ℤ, Bool, Option, none, some, Bytes, Result, ok, fail, if◌then◌else◌,
}
use authzmtls.Datasources.Ldap.Pool.{Network}

-- What `dialAndBind` and a pool take from go-ldap and from the context.
pub record Dialer (Conn W : Type 0) : Type 0 where
  -- `goldap.DefaultTimeout`.
  pub default_timeout : ℤ
  -- `time.Until` of the context's deadline, if it has one.
  pub remaining : W → Option ℤ
  -- `goldap.DialURL`, with a timeout.
  pub dial_url : ℤ → W → Result Conn × W
  -- `conn.Bind`; `some` is its error.
  pub bind : Conn → W → Option Bytes × W
  pub is_closing : Conn → W → Bool
  pub close : Conn → W → W
  pub ctx_done : W → Option Bytes
  pub ctx_err : W → Bytes

-- The world, with the numbers of connections opened and closed so far.
pub record Counted (W : Type 0) : Type 0 where
  pub inner : W
  pub opened : ℕ
  pub closed : ℕ

module _ {Conn W : Type 0} (d : Dialer Conn W) where
  -- The timeout of the dial.
  abbrev pub timeout_of : Option ℤ → ℤ
  timeout_of none = d.default_timeout
  timeout_of (some left) = if ltb_ℤ (pos 0) left then left else d.default_timeout

  abbrev pub close_counted : Conn → Counted W → Counted W
  close_counted c w = record { inner = d.close c w.inner; opened = w.opened; closed = suc w.closed }

  -- Behind the dial: the bind, and the close if it fails.
  abbrev pub bound : Conn → Option Bytes × W → ℕ → ℕ → Result Conn × Counted W
  bound c (none, w) opened closed = (ok c, record { inner = w; opened = opened; closed = closed })
  bound c (some e, w) opened closed =
      (fail e, close_counted c (record { inner = w; opened = opened; closed = closed }))

  abbrev pub dialled_url : Result Conn × W → ℕ → ℕ → Result Conn × Counted W
  dialled_url (fail e, w) opened closed =
      (fail e, record { inner = w; opened = opened; closed = closed })
  dialled_url (ok c, w) opened closed = bound c (d.bind c w) (suc opened) closed

  -- `dialAndBind`.
  unfoldable pub dial_and_bind : Counted W → Result Conn × Counted W
  dial_and_bind w =
      dialled_url (d.dial_url (timeout_of (d.remaining w.inner)) w.inner) w.opened w.closed

  -- The network of a pool in production.
  abbrev pub production : Network Conn (Counted W)
  production = record {
    dial = dial_and_bind;
    is_closing = λ c w. d.is_closing c w.inner;
    close = close_counted;
    ctx_done = λ w. d.ctx_done w.inner;
    ctx_err = λ w. d.ctx_err w.inner;
  }
