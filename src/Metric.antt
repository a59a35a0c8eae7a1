-- ===== src/Metric.antt =====
-- metric/: the configuration and its options, Start with the exporters that it chooses and the metrics
-- that it registers, the collector's round, and the names of metrics. The gauge of OpenTelemetry is in
-- Metric/Gauge.antt. OpenTelemetry, Prometheus, the runtime and the environment are parameters.
pub mod Gauge
pub mod Starting
pub mod Labels
mod Tests
use go_toolkits.Base.{
  ℕ, zero, suc, Bool, true, false, not, Option, none, some, List, [], ◌∷◌, ◌++◌, if◌then◌else◌,
  ◌&&◌, ltb, ◌^◌,
}
use go_toolkits.Base.Bytes.{Bytes, codes, same, is_empty}
use go_toolkits.Metric.Gauge.{Float, new_otel_gauge, set}

-- metric.Mode: its constants, and any other string.
pub data Mode : Type 0 where
  log open_observe otel : Mode
  unknown : Bytes → Mode

-- Config; Interval counts nanoseconds and is an int64, as its representative below 2 ^ 64.
pub record Config : Type 0 where
  pub mode : Mode
  pub endpoint : Bytes
  pub interval : ℕ
  pub without_up : Bool
  pub collect_stats : Bool
  pub service_name : Bytes
  pub service_version : Bytes
  pub env : Bytes
  pub stream_name : Bytes
  pub default_namespace : Bytes
  pub default_subsystem : Bytes
  pub debug : Bool

-- The globalConfig at first.
abbrev pub global_config : Config
global_config = record {
  mode = otel;
  endpoint = [];
  interval = 60000000000;
  without_up = true;
  collect_stats = false;
  service_name = codes "go-tookits";
  service_version = [];
  env = [];
  stream_name = [];
  default_namespace = [];
  default_subsystem = [];
  debug = false;
}

-- The options.
abbrev pub with_mode : Mode → Config → Config
with_mode m cfg = record cfg { mode = m }

abbrev pub with_interval : ℕ → Config → Config
with_interval d cfg = record cfg { interval = d }

abbrev pub with_debug : Bool → Config → Config
with_debug b cfg = record cfg { debug = b }

abbrev pub without_up_metric : Config → Config
without_up_metric cfg = record cfg { without_up = true }

abbrev pub with_stats_metric : Config → Config
with_stats_metric cfg = record cfg { collect_stats = true }

abbrev pub with_endpoint : Bytes → Config → Config
with_endpoint s cfg = record cfg { endpoint = s }

abbrev pub with_service_name : Bytes → Config → Config
with_service_name s cfg = record cfg { service_name = s }

abbrev pub with_stream_name : Bytes → Config → Config
with_stream_name s cfg = record cfg { stream_name = s }

abbrev pub with_service_version : Bytes → Config → Config
with_service_version s cfg = record cfg { service_version = s }

abbrev pub with_env : Bytes → Config → Config
with_env s cfg = record cfg { env = s }

abbrev pub with_default_namespace : Bytes → Config → Config
with_default_namespace s cfg = record cfg { default_namespace = s }

abbrev pub with_default_subsystem : Bytes → Config → Config
with_default_subsystem s cfg = record cfg { default_subsystem = s }

-- The variables of the environment that Start reads, empty where they are not set.
pub record Environment : Type 0 where
  pub metric_default_namespace : Bytes
  pub metric_default_subsystem : Bytes
  pub metric_log_debug : Bytes

abbrev or_kept : Bytes → Bytes → Bytes
or_kept s kept = if is_empty s then kept else s

-- What Start takes from the environment.
pub from_environment : Environment → Config → Config
from_environment e cfg = record cfg {
  default_namespace = or_kept e.metric_default_namespace cfg.default_namespace;
  default_subsystem = or_kept e.metric_default_subsystem cfg.default_subsystem;
  debug = if is_empty e.metric_log_debug then cfg.debug else same e.metric_log_debug (codes "true");
}

-- The loop over the options.
pub apply_options : List (Config → Config) → Config → Config
apply_options [] cfg = cfg
apply_options (option ∷ options) cfg = apply_options options (option cfg)

-- applyDefaults
pub apply_defaults : Config → Bytes → Bytes → Bytes × Bytes
apply_defaults cfg namespace subsystem = (
  if is_empty namespace then cfg.default_namespace else namespace,
  if is_empty subsystem then cfg.default_subsystem else subsystem,
)

-- The fullName of NewCounter, NewGauge, NewHistogram and NewSummary.
pub full_name : Bytes → Bytes → Bytes → Bytes
full_name namespace subsystem name =
    if not (is_empty namespace)
    then if not (is_empty subsystem)
      then namespace ++ b'_' ∷ subsystem ++ b'_' ∷ name
      else namespace ++ b'_' ∷ name
    else if not (is_empty subsystem)
    then subsystem ++ b'_' ∷ name
    else name

-- The name of the instrument of OpenTelemetry that the four make.
pub otel_name : Config → Bytes → Bytes → Bytes → Bytes
otel_name cfg namespace subsystem name =
    let (ns, ss) = apply_defaults cfg namespace subsystem in full_name ns ss name

-- The exporters, two of them with their flag init.
pub data Exporter : Type 0 where
  json_logger : Exporter
  openobserve_exporter otel_exporter : Bool → Exporter

-- IsStart, of each of the exporters.
abbrev pub is_start : Exporter → Bool
is_start json_logger = true
is_start (openobserve_exporter init) = init
is_start (otel_exporter init) = init

-- The package's variables: the configuration, the exporter, the names in prometheusRegistry, nil at
-- first, and whether there is a runtimeGauge.
pub record Globals : Type 0 where
  pub config : Config
  pub exporter : Option Exporter
  pub registry : Option (List Bytes)
  pub runtime_gauge : Bool

abbrev pub globals : Globals
globals = record { config = global_config; exporter = none; registry = none; runtime_gauge = false }

-- How Start ends: with its stop function; with one of its errors; in a panic, by a nil exporter at
-- IsStart, by MustRegister or by NewTicker; or, where the loop of a gauge ran out of fuel, not.
pub data Outcome : Type 0 where
  started : Globals → Outcome
  unsupported_mode no_exporter nil_exporter register_panics ticker_panics looping : Outcome

-- newOpenobserveExporter and newOTELExporter, whose initialize succeeds or not, and the choice of Start.
pub choose : Mode → Bool → Globals → Option Globals
choose log initializes g = some (record g { exporter = some json_logger; registry = some [] })
choose open_observe initializes g = some (record g {
  config = record g.config { stream_name = or_kept g.config.stream_name (codes "go") };
  exporter = some (openobserve_exporter (not (is_empty g.config.endpoint)));
  registry = some [];
})
choose otel initializes g = some (record g { exporter = some (otel_exporter initializes) })
choose (unknown m) initializes g = none

-- Whether a name is not in the registry.
pub is_new : Bytes → List Bytes → Bool
is_new n [] = true
is_new n (m ∷ ms) = if same m n then false else is_new n ms

-- MustRegister: it panics at a name that is registered, and on a nil registry.
pub register : Bytes → Option (List Bytes) → Globals → Option Globals
register n none g = none
register n (some ms) g = if is_new n ms then some (record g { registry = some (n ∷ ms) }) else none

abbrev with_gauge : Option Globals → Outcome
with_gauge none = register_panics
with_gauge (some g) = started (record g { runtime_gauge = true })

-- registerStatsMetric
pub register_stats_metric : Mode → Globals → Outcome
register_stats_metric otel g = started (record g { runtime_gauge = true })
register_stats_metric log g = with_gauge (register (codes "runtime") g.registry g)
register_stats_metric open_observe g = with_gauge (register (codes "runtime") g.registry g)
register_stats_metric (unknown m) g = started g

abbrev pub then_stats : Globals → Outcome
then_stats g = if g.config.collect_stats then register_stats_metric g.config.mode g else started g

abbrev pub stats_behind : Option Globals → Outcome
stats_behind none = register_panics
stats_behind (some g) = then_stats g

-- Whether an int64 is positive.
abbrev pub is_positive : ℕ → Bool
is_positive n = ltb 0 n && ltb n (2 ^ 63)

-- NewTicker, which panics at an interval that is not positive, and the start of the collector.
pub ticked : Outcome → Outcome
ticked (started g) = if is_positive g.config.interval then started g else ticker_panics
ticked o = o

module _ {X : Type 0} (float : Float X) (hash : Bytes → Bytes) (one : X) (fuel : ℕ) where
  abbrev set_up : Option (Gauge.Gauge X) → Globals → Outcome
  set_up none g = looping
  set_up (some gauge) g = then_stats g

  -- registerUpMetric, and what comes behind it.
  pub register_up_metric : Mode → Globals → Outcome
  register_up_metric otel g = set_up (set float hash fuel [] one new_otel_gauge) g
  register_up_metric log g = stats_behind (register (codes "up") g.registry g)
  register_up_metric open_observe g = stats_behind (register (codes "up") g.registry g)
  register_up_metric (unknown m) g = then_stats g

  abbrev then_up : Globals → Outcome
  then_up g = if g.config.without_up then then_stats g else register_up_metric g.config.mode g

  pub with_exporter : Option Exporter → Globals → Outcome
  with_exporter none g = nil_exporter
  with_exporter (some e) g = if is_start e then then_up g else no_exporter

  abbrev chosen : Option Globals → Outcome
  chosen none = unsupported_mode
  chosen (some g) = with_exporter g.exporter g

  -- Start, with whether there is a logger and whether the exporter of OpenTelemetry initializes.
  pub start : Environment → List (Config → Config) → Bool → Bool → Globals → Outcome
  start e options logger initializes g =
      let cfg = apply_options options (from_environment e g.config) in
      let h = record g { config = cfg } in
      ticked (if logger then chosen (choose cfg.mode initializes h) else with_exporter h.exporter h)

-- collectMetrics, of what Gather gives: the families that are exported, or an error for OnError.
pub data Collected (F E : Type 0) : Type 0 where
  exports : List F → Collected F E
  on_error : E → Collected F E

pub collect_metrics : {F E : Type 0} → Mode → Option E → List F → Collected F E
collect_metrics log (some err) mfs = on_error err
collect_metrics log none mfs = exports mfs
collect_metrics open_observe (some err) mfs = on_error err
collect_metrics open_observe none mfs = exports mfs
collect_metrics otel err mfs = exports []
collect_metrics (unknown m) err mfs = exports []
