-- ===== src/Telemetry/Instruments.antt =====
-- internal/datasources/metrics.go: the four instruments of a datasource and what is recorded with
-- them. A duration is kept in nanoseconds: its division into milliseconds of float64 is left out.
use authzmtls.Common.{ℤ, pos, List, [], ◌∷◌, ◌++◌, Bytes, codes, Result, ok, ◌>>=◌}

-- The meter: it creates an instrument of a kind from its name and unit, or fails.
pub record Meter (I : Type 0) : Type 0 where
  pub counter : Bytes → Bytes → Result I
  pub up_down_counter : Bytes → Bytes → Result I
  pub histogram : Bytes → Bytes → Result I

-- `datasourceMetrics`.
pub record DatasourceMetrics (I : Type 0) : Type 0 where
  pub hits : I
  pub misses : I
  pub inflight : I
  pub duration : I

-- `newDatasourceMetrics`.
unfoldable pub new_datasource_metrics : {I : Type 0} → Meter I → Result (DatasourceMetrics I)
new_datasource_metrics meter =
    meter.counter (codes "authzmtls.datasource.cache.hits") (codes "1") >>= λ hits.
    meter.counter (codes "authzmtls.datasource.cache.misses") (codes "1") >>= λ misses.
    meter.up_down_counter (codes "authzmtls.datasource.inflight") (codes "1") >>= λ inflight.
    meter.histogram (codes "authzmtls.datasource.resolve.duration") (codes "ms") >>= λ duration.
    ok (record { hits = hits; misses = misses; inflight = inflight; duration = duration })

-- What one call adds to an instrument, with its attributes.
pub record Measurement (I : Type 0) : Type 0 where
  pub instrument : I
  pub amount : ℤ
  pub attributes : List (Bytes × Bytes)

-- `labels`.
abbrev pub labels : Bytes → Bytes → List (Bytes × Bytes)
labels name kind = (codes "datasource", name) ∷ (codes "type", kind) ∷ []

module _ {I : Type 0} (m : DatasourceMetrics I) (name kind : Bytes) where
  -- `recordHit`.
  abbrev pub record_hit : Measurement I
  record_hit = record { instrument = m.hits; amount = pos 1; attributes = labels name kind }

  -- `recordMiss`.
  abbrev pub record_miss : Measurement I
  record_miss = record { instrument = m.misses; amount = pos 1; attributes = labels name kind }

  -- `addInflight`.
  abbrev pub add_inflight : ℤ → Measurement I
  add_inflight delta = record {
    instrument = m.inflight;
    amount = delta;
    attributes = labels name kind;
  }

  -- `recordDuration`.
  abbrev pub record_duration : Bytes → ℤ → Measurement I
  record_duration outcome ns = record {
    instrument = m.duration;
    amount = ns;
    attributes = labels name kind ++ (codes "result", outcome) ∷ [];
  }
