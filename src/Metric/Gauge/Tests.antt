-- ===== src/Metric/Gauge/Tests.antt =====
-- Rounds of a gauge, and the theorem at them. The floats are numbers.
use go_toolkits.Base.{ℕ, ◌+◌, ◌-◌, ◌==◌, ◌≡◌, refl, true, false, Option, none, some, List, [], ◌∷◌}
use go_toolkits.Base.Bytes.{Bytes, codes}
use go_toolkits.Metric.Labels.{label}
use go_toolkits.Metric.Gauge.{Float, Gauge, new_otel_gauge, make_attr_key, set_attempt}
use go_toolkits.Metric.Gauge.Stuck.{sets, adds, run, run-new_otel_gauge}

abbrev float : Float ℕ
float = record { plus = λ a b. a + b; minus = λ a b. a - b; neg = λ a. a; equal = λ a b. a == b }

abbrev hash : Bytes → Bytes
hash s = s

abbrev labels : List Bytes
labels = codes "kind" ∷ []

run-new_otel_gauge_example :
    run float hash
      (sets (label labels (codes "ws" ∷ [])) 7 none ∷ adds [] 1 (some 0) ∷ [])
      new_otel_gauge
    ≡ (new_otel_gauge, 0)
run-new_otel_gauge_example =
    run-new_otel_gauge float hash
      (sets (label labels (codes "ws" ∷ [])) 7 none ∷ adds [] 1 (some 0) ∷ [])

-- A gauge that holds a value: Set then sends the difference.
abbrev filled : Gauge ℕ
filled = record { values = (codes "_default_", 4) ∷ []; sent = [] }

set_on_value : (set_attempt float hash [] 7 (some 4) filled).0.sent ≡ (3, []) ∷ []
unfolding set_attempt go_toolkits.Metric.Gauge.compare_and_swap go_toolkits.Base.Assoc.lookup
    go_toolkits.Base.Bytes.same make_attr_key
set_on_value = refl

-- Two series with one key.
one_key :
    make_attr_key hash (label (codes "a" ∷ codes "b" ∷ []) (codes "1" ∷ codes "2" ∷ []))
    ≡ make_attr_key hash (label (codes "a" ∷ codes "b" ∷ []) (codes "1 b=2" ∷ []))
unfolding make_attr_key label go_toolkits.Metric.Gauge.key_text go_toolkits.Metric.Gauge.sorted
    go_toolkits.Metric.Gauge.put_sorted go_toolkits.Base.Bytes.less go_toolkits.Metric.Gauge.spaced
one_key = refl
