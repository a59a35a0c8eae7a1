-- ===== src/Metric/Starting.antt =====
-- metric/metric.go: what holds when Start has succeeded, and its end without an exporter.
use go_toolkits.Base.{
  ℕ, ◌≡◌, refl, sym, ◌∙◌, subst, ◌≢◌, ◌⊎◌, inl, inr, Bool, true, false, Option, none, some, List,
  [], ◌∷◌, by_if,
}
use go_toolkits.Base.Bytes.{Bytes, codes, same}
use go_toolkits.Metric.Gauge.{Float}
use go_toolkits.Metric.Gauge.Stuck.{set-new_otel_gauge}
use go_toolkits.Metric.{
  Mode, log, open_observe, otel, unknown, Config, Environment, from_environment, apply_options,
  Exporter, json_logger, is_start, Globals, Outcome, started, unsupported_mode, no_exporter,
  nil_exporter, register_panics, ticker_panics, looping, is_positive, ticked, choose, register,
  is_new, register_stats_metric, then_stats, stats_behind, register_up_metric, with_exporter, start,
}

-- An end of Start keeps to an exporter and a configuration, where it has started.
abbrev Keeps : Option Exporter → Config → Outcome → Type 0
Keeps e cfg (started h) = (h.exporter ≡ e) × (h.config ≡ cfg)
Keeps e cfg _ = Unit

register-stats :
    (ms : Option (List Bytes)) (g : Globals)
    → Keeps g.exporter g.config (go_toolkits.Metric.with_gauge (register (codes "runtime") ms g))
unfolding register
register-stats none g = tt
register-stats (some ms) g =
    by_if (λ o. Keeps g.exporter g.config (go_toolkits.Metric.with_gauge o))
      (is_new (codes "runtime") ms) (λ h. (refl, refl)) (λ h. tt)

stats-Keeps : (m : Mode) (g : Globals) → Keeps g.exporter g.config (register_stats_metric m g)
unfolding register_stats_metric
stats-Keeps otel g = (refl, refl)
stats-Keeps log g = register-stats g.registry g
stats-Keeps open_observe g = register-stats g.registry g
stats-Keeps (unknown m) g = (refl, refl)

then_stats-Keeps : (g : Globals) → Keeps g.exporter g.config (then_stats g)
then_stats-Keeps g =
    by_if (Keeps g.exporter g.config) g.config.collect_stats (λ h. stats-Keeps g.config.mode g)
      (λ h. (refl, refl))

-- Where an end is a start: the exporter is started, and the metric up is not wanted or not kept by the
-- gauge of OpenTelemetry.
abbrev Ready : Outcome → Type 0
Ready (started h) =
    (e : Exporter) × (h.exporter ≡ some e)
    × (is_start e ≡ true)
    × ((h.config.without_up ≡ true) ⊎ (h.config.mode ≢ otel))
Ready _ = Unit

module _ (g : Globals) (e : Exporter) (present : g.exporter ≡ some e)
    (starts : is_start e ≡ true) where
  ready :
      (o : Outcome)
      → (g.config.without_up ≡ true) ⊎ (g.config.mode ≢ otel)
      → Keeps g.exporter g.config o
      → Ready o
  ready (started h) u (k, l) = (
    e,
    k ∙ present,
    starts,
    subst (λ (cfg : Config). (cfg.without_up ≡ true) ⊎ (cfg.mode ≢ otel)) (sym l) u,
  )
  ready unsupported_mode u k = tt
  ready no_exporter u k = tt
  ready nil_exporter u k = tt
  ready register_panics u k = tt
  ready ticker_panics u k = tt
  ready looping u k = tt

  registered-Ready :
      (ms : Option (List Bytes))
      → g.config.mode ≢ otel
      → Ready (stats_behind (register (codes "up") ms g))
  unfolding register
  registered-Ready none apart = tt
  registered-Ready (some ms) apart =
      by_if (λ o. Ready (stats_behind o)) (is_new (codes "up") ms)
        (λ h.
          ready _ (inr apart) (then_stats-Keeps (record g { registry = some (codes "up" ∷ ms) })))
        (λ h. tt)

abbrev Starts : Outcome → Type 0
Starts (started h) = is_positive h.config.interval ≡ true
Starts _ = ⊥

stats_log-Starts :
    (g : Globals) (ms : List Bytes)
    → is_new (codes "runtime") ms ≡ true
    → is_positive g.config.interval ≡ true
    → Starts (register_stats_metric log (record g { registry = some ms }))
unfolding register_stats_metric register
stats_log-Starts g ms new p = rw new p

then_stats-Starts :
    (g : Globals) (ms : List Bytes)
    → is_new (codes "runtime") ms ≡ true
    → g.config.mode ≡ log
    → is_positive g.config.interval ≡ true
    → Starts (then_stats (record g { registry = some ms }))
then_stats-Starts g ms new m p =
    by_if Starts g.config.collect_stats
      (λ c.
        subst (λ n. Starts (register_stats_metric n (record g { registry = some ms }))) (sym m)
          (stats_log-Starts g ms new p))
      (λ c. p)

module _ {X : Type 0} (float : Float X) (hash : Bytes → Bytes) (one : X) (fuel : ℕ) where
  up-Ready :
      (g : Globals) (e : Exporter)
      → g.exporter ≡ some e
      → is_start e ≡ true
      → (m : Mode) → g.config.mode ≡ m
      → Ready (register_up_metric float hash one fuel m g)
  unfolding register_up_metric
  up-Ready g e p s otel eq = rw (set-new_otel_gauge float hash fuel [] one) tt
  up-Ready g e p s log eq = registered-Ready g e p s g.registry (λ h. cc)
  up-Ready g e p s open_observe eq = registered-Ready g e p s g.registry (λ h. cc)
  up-Ready g e p s (unknown m) eq = ready g e p s _ (inr (λ h. cc)) (then_stats-Keeps g)

  exporter-Ready :
      (o : Option Exporter) (g : Globals)
      → g.exporter ≡ o
      → Ready (with_exporter float hash one fuel o g)
  unfolding with_exporter
  exporter-Ready none g p = tt
  exporter-Ready (some e) g p =
      by_if Ready (is_start e)
        (λ s.
          by_if Ready g.config.without_up (λ u. ready g e p s _ (inl u) (then_stats-Keeps g))
            (λ u. up-Ready g e p s g.config.mode refl))
        (λ s. tt)

  chosen-Ready : (o : Option Globals) → Ready (go_toolkits.Metric.chosen float hash one fuel o)
  chosen-Ready none = tt
  chosen-Ready (some g) = exporter-Ready g.exporter g refl

  ticked-Ready : (o : Outcome) → Ready o → Ready (ticked o)
  unfolding ticked
  ticked-Ready (started h) r = by_if Ready (is_positive h.config.interval) (λ p. r) (λ p. tt)
  ticked-Ready unsupported_mode r = tt
  ticked-Ready no_exporter r = tt
  ticked-Ready nil_exporter r = tt
  ticked-Ready register_panics r = tt
  ticked-Ready ticker_panics r = tt
  ticked-Ready looping r = tt

  -- Where Start succeeds, whatever the fuel: its exporter is started, and the configuration leaves the
  -- metric up out or is not of the mode otel.
  pub start-started :
      (e : Environment) (options : List (Config → Config)) (logger initializes : Bool)
      (g h : Globals)
      → start float hash one fuel e options logger initializes g ≡ started h
      → (x : Exporter) × (h.exporter ≡ some x)
        × (is_start x ≡ true)
        × ((h.config.without_up ≡ true) ⊎ (h.config.mode ≢ otel))
  unfolding start
  start-started e options true initializes g h eq = subst Ready eq (ticked-Ready _ (chosen-Ready _))
  start-started e options false initializes g h eq =
      subst Ready eq (ticked-Ready _ (exporter-Ready _ _ refl))

  -- Without a logger and before an exporter was chosen, Start ends by a nil exporter and not with its
  -- error, whatever the environment and the options.
  pub start-no_logger :
      (e : Environment) (options : List (Config → Config)) (initializes : Bool) (g : Globals)
      → g.exporter ≡ none
      → start float hash one fuel e options false initializes g ≡ nil_exporter
  unfolding start with_exporter ticked
  start-no_logger e options initializes g h = rw h refl

  log-Starts :
      (g : Globals)
      → g.config.mode ≡ log
      → is_positive g.config.interval ≡ true
      → Starts
          (with_exporter float hash one fuel (some json_logger) (record g { registry = some [] }))
  unfolding with_exporter register_up_metric register is_new same
  log-Starts g m p =
      by_if Starts g.config.without_up (λ u. then_stats-Starts g [] refl m p)
        (λ u.
          subst
            (λ n.
              Starts (register_up_metric float hash one fuel n (record g { registry = some [] })))
            (sym m) (then_stats-Starts g (codes "up" ∷ []) refl m p))

  Starts-ticked : (o : Outcome) → Starts o → (h : Globals) × (ticked o ≡ started h)
  unfolding ticked
  Starts-ticked (started h) p = (h, rw p refl)
  Starts-ticked unsupported_mode p = absurd p
  Starts-ticked no_exporter p = absurd p
  Starts-ticked nil_exporter p = absurd p
  Starts-ticked register_panics p = absurd p
  Starts-ticked ticker_panics p = absurd p
  Starts-ticked looping p = absurd p

  -- With a logger, in the mode log and with a positive interval, Start succeeds.
  pub start-log :
      (e : Environment) (options : List (Config → Config)) (initializes : Bool) (g : Globals)
      → (apply_options options (from_environment e g.config)).mode ≡ log
      → is_positive (apply_options options (from_environment e g.config)).interval ≡ true
      → (h : Globals) × (start float hash one fuel e options true initializes g ≡ started h)
  unfolding start choose
  start-log e options initializes g m p =
      let cfg = apply_options options (from_environment e g.config) in
      Starts-ticked _ (
        subst
          (λ n. Starts (
            go_toolkits.Metric.chosen float hash one fuel
              (choose n initializes (record g { config = cfg }))))
          (sym m) (log-Starts (record g { config = cfg; exporter = some json_logger }) m p))
