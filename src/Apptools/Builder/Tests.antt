-- ===== src/Apptools/Builder/Tests.antt =====
-- Builds, and the theorems at them.
use go_toolkits.Base.{◌⊎◌, map, ℕ, ◌≡◌, refl, none, some, List, [], ◌∷◌, ◌++◌}
use go_toolkits.Apptools.Builder.{
  Made, made, refuses, Builder, Build, built, fails, Step, makes, optional, new_builder, add_source,
  add_configs, add_log_factory, add_otel_trace_provider, add_otel_metric_provider, add_func,
  with_gops, first_error, early_steps, factories, build, cleanup,
}
use go_toolkits.Apptools.Builder.Cleanup.{Cause, all_made, backwards, build-cleanup, build-fails}

abbrev app : Builder ℕ
app = with_gops none (
    add_func (made 3) (
      add_otel_metric_provider (made 2) (
        add_otel_trace_provider (made 1)
          (add_log_factory none (add_configs (none ∷ []) (add_source none (new_builder none)))))))

build-cleanup_example :
    (ds : List ℕ) × (all_made (factories app) ≡ some ds) × (cleanup (1 ∷ 2 ∷ 3 ∷ []) ≡ backwards ds)
unfolding build first_error early_steps new_builder go_toolkits.Apptools.Builder.make_all factories
build-cleanup_example = build-cleanup app (1 ∷ 2 ∷ 3 ∷ []) refl

cleaned : cleanup (1 ∷ 2 ∷ []) ≡ some 2 ∷ some 1 ∷ []
unfolding cleanup go_toolkits.Apptools.Builder.clean_down
cleaned = refl

abbrev refusing : Builder ℕ
refusing = add_func (refuses 7) app

build-fails_example :
    (ds : List ℕ) × (left : List (Made ℕ)) × ((build refusing).0 ≡ map makes ds)
    × (factories refusing ≡ map made ds ++ left)
    × (((ds ≡ []) × (first_error (early_steps refusing) ≡ some 7))
        ⊎ Cause (first_error (optional refusing.gops)) left 7)
unfolding build first_error early_steps new_builder factories go_toolkits.Apptools.Builder.make_all
build-fails_example = build-fails refusing 7 refl

leaves : (build refusing).0 ≡ makes 1 ∷ makes 2 ∷ makes 3 ∷ []
unfolding build first_error early_steps new_builder factories go_toolkits.Apptools.Builder.make_all
leaves = refl
