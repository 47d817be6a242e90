-- ===== src/Telemetry.antt =====
-- internal/telemetry/telemetry.go: the process's metrics, built on first use, and
-- internal/datasources/metrics.go: the instruments of a datasource. OpenTelemetry and the Prometheus
-- client are parameters.
pub mod Laws
pub mod Instruments
use authzmtls.Common.{
  ◌≡◌, Bool, true, false, List, [], ◌∷◌, ◌++◌, Option, none, some, Bytes, codes, Result, ok, fail,
}

-- What ensureInit calls; `Reg` is a registry of Prometheus, `X` an exporter, `P` a MeterProvider, `H`
-- a handler, `M` a meter and `W` the world.
pub record Otel (Reg X P H M W : Type 0) : Type 0 where
  pub new_registry : W → Reg × W
  pub new_exporter : Reg → W → Result X × W
  pub new_provider : List X → W → P × W
  pub handler_for : Reg → H
  pub meter_of : P → Bytes → M
  pub start_runtime : P → W → Option Bytes × W
  pub shut_down : P → W → Option Bytes × W

-- The package-level state; `none` is nil, and `done` is that of the `sync.Once`.
pub record Telemetry (P H M : Type 0) : Type 0 where
  pub done : Bool
  pub provider : Option P
  pub handler : Option H
  pub meter : Option M

abbrev pub unused : {P H M : Type 0} → Telemetry P H M
unused = record { done = false; provider = none; handler = none; meter = none }

abbrev pub scope_name : Bytes
scope_name = codes "github.com/weishiuchang/authzmtls"

module _ {Reg X P H M W : Type 0} (otel : Otel Reg X P H M W) where
  -- `newMeterProvider`; an option for each reader.
  abbrev pub new_meter_provider : List X → W → P × W
  new_meter_provider readers w = otel.new_provider readers w

  -- The function that `ensureInit` gives to `initOnce.Do`, behind the exporter; `some` is a panic.
  unfoldable pub built : Reg → Result X → W → Option Bytes × Telemetry P H M × W
  built reg (fail e) w = (
    some (codes "telemetry: failed to construct prometheus exporter/reader: " ++ e),
    record unused { done = true },
    w,
  )
  built reg (ok exporter) w =
      let (provider, w₁) = new_meter_provider (exporter ∷ []) w in
      let (ignored, w₂) = otel.start_runtime provider w₁ in
      (
        none,
        record {
          done = true;
          provider = some provider;
          handler = some (otel.handler_for reg);
          meter = some (otel.meter_of provider scope_name);
        },
        w₂,
      )

  -- `ensureInit`. A `sync.Once` whose function panics is done too.
  unfoldable pub ensure_init : Telemetry P H M → W → Option Bytes × Telemetry P H M × W
  unfolding built
  ensure_init t w =
      let (reg, w₁) = otel.new_registry w in
      let (exporter, w₂) = otel.new_exporter reg w₁ in
      elim t.done [ true ↦ (none, t, w) | false ↦ built reg exporter w₂ ]

  -- A call of one of the four exported functions, and what comes of it.
  pub data Access : Type 0 where
    meter_provider : Access
    handler : Access
    meter : Access
    shutdown : Access

  pub data Outcome : Type 0 where
    panicked : Bytes → Outcome
    gave_provider : Option P → Outcome
    gave_handler : Option H → Outcome
    gave_meter : Option M → Outcome
    shut : Option Bytes → Outcome

  -- The package's answer from its state.
  abbrev pub read : Access → Telemetry P H M → Outcome
  read meter_provider t = gave_provider t.provider
  read handler t = gave_handler t.handler
  read meter t = gave_meter t.meter
  read shutdown t = shut none

  abbrev pub after_init :
      Access → Option Bytes × Telemetry P H M × W → Outcome × Telemetry P H M × W
  after_init a (none, t, w) = (read a t, t, w)
  after_init a (some e, t, w) = (panicked e, t, w)

  -- `Shutdown`.
  abbrev pub shut_provider : Option P → Telemetry P H M → W → Outcome × Telemetry P H M × W
  shut_provider none t w = (shut none, t, w)
  shut_provider (some p) t w = let (e, w') = otel.shut_down p w in (shut e, t, w')

  -- `MeterProvider`, `Handler`, `Meter` and `Shutdown`.
  unfoldable pub access : Access → Telemetry P H M → W → Outcome × Telemetry P H M × W
  unfolding ensure_init
  access meter_provider t w = after_init meter_provider (ensure_init t w)
  access handler t w = after_init handler (ensure_init t w)
  access meter t w = after_init meter (ensure_init t w)
  access shutdown t w = shut_provider t.provider t w

  -- Calls one after the other.
  unfoldable pub accesses : List Access → Telemetry P H M → W → List Outcome
  unfolding access
  accesses [] t w = []
  accesses (a ∷ rest) t w = let (o, t', w') = access a t w in o ∷ accesses rest t' w'
