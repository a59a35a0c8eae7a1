-- ===== src/Metric/Gauge/Stuck.antt =====
-- metric/otel_gauge.go: what the calls do to a new gauge, in any interleaving of their rounds.
use go_toolkits.Base.{
  ℕ, zero, suc, ◌≡◌, refl, Bool, false, Option, none, List, [], ◌∷◌, if◌then◌else◌,
}
use go_toolkits.Base.Bytes.{Bytes}
use go_toolkits.Base.Assoc.{bytes_eq, lookup, remove}
use go_toolkits.Metric.Labels.{Attrs}
use go_toolkits.Metric.Gauge.{
  Float, Gauge, new_otel_gauge, compare_and_swap, set_attempt, add_attempt, sub_attempt, delete,
  set,
}

-- What a goroutine does next: a round of Set, Add or Sub, with the old value that it loaded before,
-- or a Delete.
pub data Round (X : Type 0) : Type 0 where
  sets adds subs : Attrs → X → Option X → Round X
  deletes : Attrs → Round X

module _ {X : Type 0} (float : Float X) (hash : Bytes → Bytes) where
  -- The gauge behind a round, and whether a Set, Add or Sub returns with it.
  abbrev pub step : Round X → Gauge X → Gauge X × Bool
  step (sets attrs value old) g = set_attempt float hash attrs value old g
  step (adds attrs delta old) g = add_attempt float hash attrs delta old g
  step (subs attrs delta old) g = sub_attempt float hash attrs delta old g
  step (deletes attrs) g = (delete float hash attrs g, false)

  -- The rounds one behind the other, and how many calls of Set, Add and Sub return.
  abbrev pub run : List (Round X) → Gauge X → Gauge X × ℕ
  run [] g = (g, 0)
  run (r ∷ rounds) g =
      let (h, returned) = step r g in
      let (last, n) = run rounds h in (last, if returned then suc n else n)

  step-new : (r : Round X) → step r new_otel_gauge ≡ (new_otel_gauge, false)
  unfolding set_attempt add_attempt sub_attempt compare_and_swap lookup delete remove
  step-new (sets attrs value old) = refl
  step-new (adds attrs delta old) = refl
  step-new (subs attrs delta old) = refl
  step-new (deletes attrs) = refl

  -- Whatever goroutines call on a new gauge, in whatever order their rounds come: no Set, Add or Sub
  -- ever returns, nothing is stored and nothing is sent to OpenTelemetry.
  pub run-new_otel_gauge :
      (rounds : List (Round X)) → run rounds new_otel_gauge ≡ (new_otel_gauge, 0)
  run-new_otel_gauge [] = refl
  run-new_otel_gauge (r ∷ rounds) = rw (step-new r, run-new_otel_gauge rounds) refl

  -- The loop of Set on a new gauge uses up any fuel.
  pub set-new_otel_gauge :
      (n : ℕ) (attrs : Attrs) (value : X) → set float hash n attrs value new_otel_gauge ≡ none
  unfolding set set_attempt compare_and_swap lookup
  set-new_otel_gauge zero attrs value = refl
  set-new_otel_gauge (suc n) attrs value = set-new_otel_gauge n attrs value
