-- ===== src/Apptools/Tests.antt =====
-- Runs of the configuration, the names and an instrument, and the theorems at them.
use go_toolkits.Base.{ℕ, ◌≡◌, refl, Bool, true, false, List, [], ◌∷◌, ◌++◌}
use go_toolkits.Base.Bytes.{Bytes, codes}
use go_toolkits.Metric.Labels.{label}
use go_toolkits.Apptools.{
  Config, with_interval, with_debug, without_up_metric, with_stats_metric, with_endpoint,
  with_default_prefix, init_config, with_prefix, Instrument, Call, withs, adds, inc, dec, run,
}
use go_toolkits.Apptools.Shared.{under, run_last_with}

abbrev config : Config
config = record {
  endpoint = [];
  interval = 60;
  without_up = false;
  collect_stats = false;
  default_prefix = [];
  debug = false;
}

prefix_of_options :
    (init_config
      (codes "a")
      (codes "true")
      (with_interval 1
        ∷ with_debug false
        ∷ without_up_metric
        ∷ with_stats_metric
        ∷ with_endpoint []
        ∷ with_default_prefix (codes "td")
        ∷ [])
      config).default_prefix
    ≡ codes "td"
unfolding init_config go_toolkits.Apptools.apply_options
prefix_of_options = refl

prefixed : with_prefix (codes "td") (codes "up") ≡ codes "td_up"
unfolding with_prefix go_toolkits.Base.Bytes.has_prefix
prefixed = refl

-- NewConnectionsCounter
abbrev connections : Instrument ℕ
connections = record { label_names = codes "kind" ∷ []; attrs = []; sent = [] }

-- Two goroutines call With(...).Add(...), the one for "ws" and the other for "tcp".
abbrev calls : List (Call ℕ)
calls = withs (codes "ws" ∷ []) ∷ []

run_last_with_example :
    (run (calls ++ withs (codes "tcp" ∷ []) ∷ adds 1 ∷ adds 2 ∷ []) connections).sent
    ≡ (run calls connections).sent
      ++ under (label (codes "kind" ∷ []) (codes "tcp" ∷ [])) (1 ∷ 2 ∷ [])
run_last_with_example = run_last_with calls (codes "tcp" ∷ []) (1 ∷ 2 ∷ []) connections

up_and_down : (dec 0 (inc 1 connections)).sent ≡ (1, []) ∷ (0, []) ∷ []
unfolding dec inc
up_and_down = refl
