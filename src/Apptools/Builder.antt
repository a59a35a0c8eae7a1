-- ===== src/Apptools/Builder.antt =====
-- apptools/builder.go: a Builder, its Build with every way to fail, and the cleanup that Build returns.
-- What a factory makes is known by the number of its cleanup, which is a function and not nil; E stands
-- for errors. What the app's Run,
-- the configuration's Load and Scan, the factories and the agent of gops answer stands in the builder.
pub mod Cleanup
mod Tests
use go_toolkits.Base.{
  ℕ, zero, suc, Bool, true, false, Option, none, some, List, [], ◌∷◌, ◌++◌, get_elem?, length,
}

-- What a factory gives: a cleanup, or an error.
pub data Made (E : Type 0) : Type 0 where
  made : ℕ → Made E
  refuses : E → Made E

-- Builder: the errors of Run, of the source's Load, of the Scan of each configuration, and of the log
-- factory; the factories; and the error of gops, where it is enabled.
pub record Builder (E : Type 0) : Type 0 where
  pub run : Option E
  pub source_factory : Option (Option E)
  pub cfgs : List (Option E)
  pub log_factory : Option (Option E)
  pub tp_factory : Option (Made E)
  pub mp_factory : Option (Made E)
  pub funcs : List (Made E)
  pub gops : Option (Option E)

-- What happens in Build: something is made, or its cleanup is called.
pub data Step : Type 0 where
  makes cleans : ℕ → Step

-- What Build returns: the list of cleanups that its cleanup function calls, or an error.
pub data Build (E : Type 0) : Type 0 where
  built : List ℕ → Build E
  fails : E → Build E

abbrev pub optional : {A : Type 0} → Option A → List A
optional none = []
optional (some a) = a ∷ []

module _ {E : Type 0} where
  -- NewBuilder, with what Run will answer.
  unfoldable pub new_builder : Option E → Builder E
  new_builder run = record {
    run = run;
    source_factory = none;
    cfgs = [];
    log_factory = none;
    tp_factory = none;
    mp_factory = none;
    funcs = [];
    gops = none;
  }

  -- AddSource, AddConfigs, AddLogFactory, AddOtelTraceProvider, AddOtelMetricProvider, AddFunc, WithGops
  abbrev pub add_source : Option E → Builder E → Builder E
  add_source load b = record b { source_factory = some load }

  abbrev pub add_configs : List (Option E) → Builder E → Builder E
  add_configs cfgs b = record b { cfgs = b.cfgs ++ cfgs }

  abbrev pub add_log_factory : Option E → Builder E → Builder E
  add_log_factory f b = record b { log_factory = some f }

  abbrev pub add_otel_trace_provider : Made E → Builder E → Builder E
  add_otel_trace_provider f b = record b { tp_factory = some f }

  abbrev pub add_otel_metric_provider : Made E → Builder E → Builder E
  add_otel_metric_provider f b = record b { mp_factory = some f }

  abbrev pub add_func : Made E → Builder E → Builder E
  add_func f b = record b { funcs = b.funcs ++ f ∷ [] }

  abbrev pub with_gops : Option E → Builder E → Builder E
  with_gops listen b = record b { gops = some listen }

  -- The first error of steps.
  pub first_error : List (Option E) → Option E
  first_error [] = none
  first_error (none ∷ steps) = first_error steps
  first_error (some e ∷ steps) = some e

  -- The steps of the configuration: without a source, no configuration is scanned.
  abbrev pub source_steps : Option (Option E) → List (Option E) → List (Option E)
  source_steps none cfgs = []
  source_steps (some load) cfgs = load ∷ cfgs

  -- The app's Run, the configuration and the logger.
  pub early_steps : Builder E → List (Option E)
  early_steps b = b.run ∷ source_steps b.source_factory b.cfgs ++ optional b.log_factory

  -- The factories that give a cleanup, in the order of Build.
  pub factories : Builder E → List (Made E)
  factories b = optional b.tp_factory ++ (optional b.mp_factory ++ b.funcs)

  -- The factories one behind the other, with the steps and the cleanups so far, and gops behind them.
  abbrev pub listened : List ℕ → Option E → Build E
  listened cleanups none = built cleanups
  listened cleanups (some e) = fails e

  pub make_all : Option E → List Step → List ℕ → List (Made E) → List Step × Build E
  make_all gops steps cleanups [] = (steps, listened cleanups gops)
  make_all gops steps cleanups (made c ∷ fs) =
      make_all gops (steps ++ makes c ∷ []) (cleanups ++ c ∷ []) fs
  make_all gops steps cleanups (refuses e ∷ fs) = (steps, fails e)

  abbrev pub behind_early : Option E → Builder E → List Step × Build E
  behind_early (some e) b = ([], fails e)
  behind_early none b = make_all (first_error (optional b.gops)) [] [] (factories b)

  -- Build, with what happens in it.
  pub build : Builder E → List Step × Build E
  build b = behind_early (first_error (early_steps b)) b

-- The loop of the cleanup function, from the i-th down to the first: what is called.
pub clean_down : List ℕ → ℕ → List (Option ℕ)
clean_down cleanups zero = []
clean_down cleanups (suc i) = get_elem? cleanups i ∷ clean_down cleanups i

pub cleanup : List ℕ → List (Option ℕ)
cleanup cleanups = clean_down cleanups (length cleanups)
