-- ===== src/Server/Lifecycle.antt =====
-- internal/server/server.go: `Start`, `Addr` and `Shutdown`. Listeners and the HTTP server are
-- parameters. The goroutine that serves is the value that it sends at its end.
pub mod Laws
use authzmtls.Common.{
  Bool, true, false, List, [], ◌∷◌, ◌++◌, Option, none, some, Bytes, codes, Result, ok, fail,
}

-- How `Serve` or `ServeTLS` ends: with `http.ErrServerClosed`, or another error.
pub data ServeEnd : Type 0 where
  server_closed : ServeEnd
  serve_failed : Bytes → ServeEnd

-- `net.Listen`, the address of a listener, and `http.Server`, on the world `N`.
pub record Net (Ln N : Type 0) : Type 0 where
  pub listen : Bytes → N → Result Ln × N
  pub address : Ln → Bytes
  pub serve : Ln → N → ServeEnd × N
  pub serve_tls : Ln → N → ServeEnd × N
  pub shut_down : N → Option Bytes × N

-- `started` and `listener` of `Server`; `none` is nil.
pub record Life (Ln : Type 0) : Type 0 where
  pub started : Bool
  pub listener : Option Ln

abbrev pub not_started : {Ln : Type 0} → Life Ln
not_started = record { started = false; listener = none }

module _ {Ln N : Type 0} (net : Net Ln N) where
  abbrev pub listened : Bytes → Result Ln × N → Result Ln × Life Ln × N
  listened addr (fail e, w) = (
    fail (codes "server: listening on " ++ (addr ++ (codes ": " ++ e))),
    record { started = true; listener = none },
    w,
  )
  listened addr (ok ln, w) = (ok ln, record { started = true; listener = some ln }, w)

  -- `Start`, up to its return, for the server's address.
  unfoldable pub start : Bytes → Life Ln → N → Result Ln × Life Ln × N
  start addr life w = elim life.started [
    | true ↦ (fail (codes "server: Start called more than once"), life, w)
    | false ↦ listened addr (net.listen addr w)
  ]

  abbrev pub terminal : ServeEnd → Option Bytes
  terminal server_closed = none
  terminal (serve_failed e) = some e

  -- The goroutine of `Start`: the error that it sends on the channel.
  unfoldable pub serve_until : Bool → Ln → N → Option Bytes × N
  serve_until true ln w = let (end, w') = net.serve_tls ln w in (terminal end, w')
  serve_until false ln w = let (end, w') = net.serve ln w in (terminal end, w')

  -- `Addr`.
  unfoldable pub addr : Life Ln → Bytes
  addr life = elim life.listener [ none ↦ [] | some ln ↦ net.address ln ]

  -- Calls of `Start` one after the other.
  unfoldable pub starts : Bytes → List (Unit {0}) → Life Ln → N → Life Ln × N
  unfolding start
  starts address [] life w = (life, w)
  starts address (_ ∷ calls) life w =
      let (result, life', w') = start address life w in starts address calls life' w'
