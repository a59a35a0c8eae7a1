-- ===== src/Collector/Tests.antt =====
-- A run of a collector whose queue is short, and the theorem at it.
use go_toolkits.Base.{ℕ, ◌≡◌, refl, true, false, Option, none, List, [], ◌∷◌, take, drop}
use go_toolkits.Base.Bytes.{Bytes, codes}
use go_toolkits.Collector.{
  Config, default_config, with_topic, with_broker, with_error_callback, apply_options,
  new_collector, interval_of,
}
use go_toolkits.Collector.History.{
  Event, pushes, ticks, takes, stops, quits, empty_history, promise,
}
use go_toolkits.Collector.Refine.{run, messages, run-promise}

abbrev small_queue : Config ℕ → Config ℕ
small_queue cfg = record cfg { queue_size = 1 }

abbrev options : List (Config ℕ → Config ℕ)
options = with_broker ∷ with_topic (codes "t") ∷ with_error_callback ∷ small_queue ∷ []

abbrev broker : Bytes → ℕ → Option ℕ
broker topic m = none

abbrev events : List (Event ℕ)
events =
    pushes 4
    ∷ pushes 5
    ∷ takes
    ∷ ticks (record { f = 6; collect_interval = 0 })
    ∷ stops
    ∷ takes
    ∷ quits
    ∷ pushes 7
    ∷ takes
    ∷ []

linked : (apply_options options default_config).has_broker ≡ true
unfolding apply_options with_error_callback with_topic with_broker
linked = refl

run-promise_example :
    let n = (apply_options options default_config).queue_size in
    let (c, answers) = run broker events (new_collector {E = ℕ} options) in
    let (h, promises) = promise n events empty_history in
    (answers ≡ promises)
    × (messages c.published ≡ take h.gone h.accepted)
    × (c.queue ≡ drop h.gone h.accepted)
run-promise_example = run-promise broker options events linked

answers_of_run :
    (run broker events (new_collector {E = ℕ} options)).1 ≡ true ∷ false ∷ true ∷ true ∷ []
unfolding go_toolkits.Collector.push go_toolkits.Collector.collect new_collector apply_options
    go_toolkits.Collector.take_next go_toolkits.Collector.quit go_toolkits.Collector.receive
    go_toolkits.Collector.publish with_error_callback with_topic with_broker
    go_toolkits.Collector.stop
answers_of_run = refl

sent_by_run : messages (run broker events (new_collector {E = ℕ} options)).0.published ≡ 4 ∷ 6 ∷ []
unfolding go_toolkits.Collector.take_next go_toolkits.Collector.push go_toolkits.Collector.quit
    go_toolkits.Collector.stop go_toolkits.Collector.collect new_collector apply_options
    go_toolkits.Collector.receive go_toolkits.Collector.publish with_error_callback with_topic
    with_broker
sent_by_run = refl
