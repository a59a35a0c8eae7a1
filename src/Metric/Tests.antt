-- ===== src/Metric/Tests.antt =====
-- Runs of Start and of the names, and the theorems at them. The floats are numbers.
use go_toolkits.Base.{
  ℕ, ◌+◌, ◌-◌, ◌==◌, ◌≡◌, refl, ◌≢◌, ◌⊎◌, true, false, none, some, List, [], ◌∷◌,
}
use go_toolkits.Base.Bytes.{Bytes, codes}
use go_toolkits.Metric.Gauge.{Float}
use go_toolkits.Metric.{
  Mode, log, open_observe, otel, Config, Environment, with_mode, with_interval, with_debug,
  without_up_metric, with_stats_metric, with_endpoint, with_service_name, with_stream_name,
  with_service_version, with_env, with_default_namespace, with_default_subsystem, otel_name,
  global_config, Exporter, is_start, Globals, globals, Outcome, started, nil_exporter,
  apply_options, from_environment, start, collect_metrics, exports, on_error,
}
use go_toolkits.Metric.Starting.{start-started, start-log}

abbrev float : Float ℕ
float = record { plus = λ a b. a + b; minus = λ a b. a - b; neg = λ a. a; equal = λ a b. a == b }

abbrev hash : Bytes → Bytes
hash s = s

abbrev environment : Environment
environment = record {
  metric_default_namespace = codes "td";
  metric_default_subsystem = [];
  metric_log_debug = codes "true";
}

abbrev options : List (Config → Config)
options =
    with_mode log
    ∷ with_interval 5
    ∷ with_debug false
    ∷ without_up_metric
    ∷ with_stats_metric
    ∷ with_endpoint (codes "host")
    ∷ with_service_name (codes "quote")
    ∷ with_stream_name []
    ∷ with_service_version (codes "1")
    ∷ with_env (codes "dev")
    ∷ with_default_subsystem (codes "rpc")
    ∷ []

name_of_counter :
    otel_name
      (apply_options options (from_environment environment global_config))
      []
      []
      (codes "up")
    ≡ codes "td_rpc_up"
unfolding otel_name go_toolkits.Metric.full_name go_toolkits.Metric.apply_defaults apply_options
    from_environment
name_of_counter = refl

name_of_namespace :
    otel_name (with_default_namespace (codes "td") global_config) [] [] (codes "up") ≡ codes "td_up"
unfolding otel_name go_toolkits.Metric.full_name go_toolkits.Metric.apply_defaults
name_of_namespace = refl

collected : collect_metrics {F = ℕ} {E = ℕ} log none (1 ∷ []) ≡ exports (1 ∷ [])
unfolding collect_metrics
collected = refl

-- The start of start-log.
abbrev running :
    (h : Globals) × (start float hash 1 0 environment options true true globals ≡ started h)
unfolding apply_options
running = start-log float hash 1 0 environment options true globals refl refl

start-started_example :
    (x : Exporter) × (running.0.exporter ≡ some x)
    × (is_start x ≡ true)
    × ((running.0.config.without_up ≡ true) ⊎ (running.0.config.mode ≢ otel))
start-started_example =
    start-started float hash 1 0 environment options true true globals running.0 running.1
