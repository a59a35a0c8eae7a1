-- ===== src/Apptools/Shared.antt =====
-- apptools/metric/metric_warp.go: where the calls on one instrument are recorded.
use go_toolkits.Base.{◌≡◌, refl, sym, ◌∙◌, ap, List, [], ◌∷◌, ◌++◌, append-nil, append_assoc}
use go_toolkits.Base.Bytes.{Bytes}
use go_toolkits.Metric.Labels.{Attrs, label}
use go_toolkits.Apptools.{Instrument, with_values, add, Call, withs, adds, call, run}

module _ {X : Type 0} where
  -- The calls of Add for these numbers.
  abbrev pub all_adds : List X → List (Call X)
  all_adds [] = []
  all_adds (x ∷ xs) = adds x ∷ all_adds xs

  -- The numbers under these attributes.
  abbrev pub under : Attrs → List X → List (X × Attrs)
  under attrs [] = []
  under attrs (x ∷ xs) = (x, attrs) ∷ under attrs xs

  run-append : (ds es : List (Call X)) (c : Instrument X) → run (ds ++ es) c ≡ run es (run ds c)
  unfolding run
  run-append [] es c = refl
  run-append (d ∷ ds) es c = run-append ds es (call d c)

  run-label_names :
      (calls : List (Call X)) (c : Instrument X) → (run calls c).label_names ≡ c.label_names
  unfolding run call with_values add
  run-label_names [] c = refl
  run-label_names (withs values ∷ calls) c = run-label_names calls _
  run-label_names (adds x ∷ calls) c = run-label_names calls _

  run-adds :
      (xs : List X) (c : Instrument X) → (run (all_adds xs) c).sent ≡ c.sent ++ under c.attrs xs
  unfolding run call add
  run-adds [] c = sym (append-nil c.sent)
  run-adds (x ∷ xs) c =
      run-adds xs (add x c) ∙ append_assoc c.sent ((x, c.attrs) ∷ []) (under c.attrs xs)

  -- Whoever called With on an instrument, and for whatever labels: the numbers added behind the last
  -- With are recorded under the labels of that one.
  pub run_last_with :
      (calls : List (Call X)) (values : List Bytes) (xs : List X) (c : Instrument X)
      → (run (calls ++ withs values ∷ all_adds xs) c).sent
        ≡ (run calls c).sent ++ under (label c.label_names values) xs
  unfolding run call with_values
  run_last_with calls values xs c =
      ap (λ (d : Instrument X). d.sent) (run-append calls (withs values ∷ all_adds xs) c)
      ∙ run-adds xs (with_values values (run calls c))
      ∙ ap (λ names. (run calls c).sent ++ under (label names values) xs) (run-label_names calls c)
