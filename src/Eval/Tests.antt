-- ===== src/Eval/Tests.antt =====
-- Runs of the functions of eval/eval.go, and the theorems at inputs of theirs.
use go_toolkits.Base.{ℕ, ◌≡◌, ◌↔◌, Option, none, List, [], ◌∷◌, map, ◌==◌, All}
use go_toolkits.Base.Bytes.{Bytes, codes, split}
use go_toolkits.Base.Assoc.{bytes_eq}
use go_toolkits.Eval.{
  Value, text, number, other, Runtime, reply, in_func, match_multi_func, match_func,
  default_functions,
}
use go_toolkits.Eval.Compile.{Library, ok, gen_matcher}
use go_toolkits.Eval.Compile.Checked.{Bound, gen_matcher_iff}

-- Whole numbers in place of floats.
abbrev whole : Runtime ℕ
whole = record {
  float_eq = ◌==◌;
  to_uint = λ n. n;
  parse_duration = λ s. (0, none);
  to_lower = λ s. s;
}

-- An expression is the list of its variables, and a value to test it on the list of its fields.
abbrev words : Library whole (List Bytes) (List Bytes)
words = record {
  new_expression = λ s fs. ok (split b' ' s);
  evaluate = λ e ctx. none;
  vars = λ e. e;
  to_map = map (λ k. (k, number 1));
}

gen_matcher_iff_example :
    (gen_matcher whole words (codes "a") (codes "a" ∷ []) ≡ ok (codes "a" ∷ [])) ↔ (
      (ok (split b' ' (codes "a")) ≡ ok (codes "a" ∷ []))
      × ((◌≡◌ {A = Option go_toolkits.Eval.Error} none none)
          × All (Bound whole words (codes "a" ∷ [])) (codes "a" ∷ [])))
gen_matcher_iff_example = gen_matcher_iff whole words (codes "a") (codes "a" ∷ []) (codes "a" ∷ [])
