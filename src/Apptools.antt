-- ===== src/Apptools.antt =====
-- apptools/metric/: the configuration from environment and options, the prefix of metric names, and the
-- instruments of metric_warp.go, which all carry a baseMetric. X stands for the numbers that an
-- instrument is given; what is given to OpenTelemetry is kept, with its attributes.
pub mod Builder
pub mod Prefix
pub mod Shared
mod Tests
use go_toolkits.Base.{ℕ, Bool, true, false, not, ◌&&◌, List, [], ◌∷◌, ◌++◌, if◌then◌else◌}
use go_toolkits.Base.Bytes.{Bytes, codes, same, is_empty, has_prefix}
use go_toolkits.Metric.Labels.{Attrs, label}

-- Config, without its InitCallback; Interval counts nanoseconds.
pub record Config : Type 0 where
  pub endpoint : Bytes
  pub interval : ℕ
  pub without_up : Bool
  pub collect_stats : Bool
  pub default_prefix : Bytes
  pub debug : Bool

-- The options.
abbrev pub with_interval : ℕ → Config → Config
with_interval d cfg = record cfg { interval = d }

abbrev pub with_debug : Bool → Config → Config
with_debug b cfg = record cfg { debug = b }

abbrev pub without_up_metric : Config → Config
without_up_metric cfg = record cfg { without_up = true }

abbrev pub with_stats_metric : Config → Config
with_stats_metric cfg = record cfg { collect_stats = true }

abbrev pub with_endpoint : Bytes → Config → Config
with_endpoint s cfg = record cfg { endpoint = s }

abbrev pub with_default_prefix : Bytes → Config → Config
with_default_prefix s cfg = record cfg { default_prefix = s }

-- The loop over the options.
pub apply_options : List (Config → Config) → Config → Config
apply_options [] cfg = cfg
apply_options (option ∷ ops) cfg = apply_options ops (option cfg)

-- initConfig, with METRIC_DEFAULT_PREFIX and METRIC_LOG_DEBUG, empty where they are not set.
pub init_config : Bytes → Bytes → List (Config → Config) → Config → Config
init_config prefix debug ops cfg = apply_options ops (record cfg {
  default_prefix = if is_empty prefix then cfg.default_prefix else prefix;
  debug = if is_empty debug then cfg.debug else same debug (codes "true");
})

-- withPrefix, with the DefaultPrefix
pub with_prefix : Bytes → Bytes → Bytes
with_prefix p name =
    if not (is_empty p) && not (has_prefix name (p ++ b'_' ∷ [])) then p ++ b'_' ∷ name else name

-- An instrument with its baseMetric, and what it has given to OpenTelemetry.
pub record Instrument (X : Type 0) : Type 0 where
  pub label_names : List Bytes
  pub attrs : Attrs
  pub sent : List (X × Attrs)

module _ {X : Type 0} where
  -- With, which writes to the instrument and returns it.
  pub with_values : List Bytes → Instrument X → Instrument X
  with_values values c = record c { attrs = label c.label_names values }

  -- Add of the counters, and Record of the others
  pub add : X → Instrument X → Instrument X
  add incr c = record c { sent = c.sent ++ (incr, c.attrs) ∷ [] }

  -- Inc and Dec, with 1 and -1
  pub inc : X → Instrument X → Instrument X
  inc one c = record c { sent = c.sent ++ (one, c.attrs) ∷ [] }

  pub dec : X → Instrument X → Instrument X
  dec minus_one c = record c { sent = c.sent ++ (minus_one, c.attrs) ∷ [] }

-- A call on an instrument: all that hold it hold the same.
pub data Call (X : Type 0) : Type 0 where
  withs : List Bytes → Call X
  adds : X → Call X

pub call : {X : Type 0} → Call X → Instrument X → Instrument X
call (withs values) c = with_values values c
call (adds x) c = add x c

pub run : {X : Type 0} → List (Call X) → Instrument X → Instrument X
run [] c = c
run (d ∷ calls) c = run calls (call d c)
