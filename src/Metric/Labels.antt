-- ===== src/Metric/Labels.antt =====
-- metric/otel_counter.go, metric/otel_gauge.go: With, which pairs label names with values.
use go_toolkits.Base.{List, [], ◌∷◌}
use go_toolkits.Base.Bytes.{Bytes}

-- Attributes: names with values.
abbrev pub Attrs : Type 0
Attrs = List (Bytes × Bytes)

-- The loop of With, up to the shorter length.
unfoldable pub label : List Bytes → List Bytes → Attrs
label [] values = []
label (n ∷ names) [] = []
label (n ∷ names) (v ∷ values) = (n, v) ∷ label names values
