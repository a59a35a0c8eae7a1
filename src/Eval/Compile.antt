-- ===== src/Eval/Compile.antt =====
-- Gen, GenMatcher and GenMatcherWithFuncs of eval/eval.go, over govaluate and structs.
pub mod Checked
use go_toolkits.Base.{
  ◌≡◌, refl, ◌≢◌, ◌↔◌, Bool, true, false, Option, none, some, List, [], ◌∷◌, ◌++◌, arith,
  if◌then◌else◌, All, inl, inr, Option-cases,
}
use go_toolkits.Base.Bytes.{Bytes}
use go_toolkits.Base.Assoc.{Assoc, bytes_eq, lookup, insert, lookup-insert}
use go_toolkits.Eval.{Value, Error, no_parameter, Runtime, Function, default_functions}

pub data Result (A : Type 0) : Type 0 where
  ok : A → Result A
  err : Error → Result A

module _ {F : Type 0} (r : Runtime F) where
  abbrev pub Functions : Type 0
  Functions = Assoc Bytes (Function r)

  -- govaluate.NewEvaluableExpressionWithFunctions, Evaluate, Vars, and structs.Map, for
  -- expressions E and values T to test them on.
  pub record Library (E T : Type 0) : Type 0 where
    pub new_expression : Bytes → Functions → Result E
    pub evaluate : E → Assoc Bytes (Value F) → Option Error
    pub vars : E → List Bytes
    pub to_map : T → Assoc Bytes (Value F)

  pub record Options (T : Type 0) : Type 0 where
    pub test : Option T
    pub funcs : Functions
    pub default_func : Bool

  abbrev pub Setter : Type 0 → Type 0
  Setter T = Options T → Options T

  pub with_test : {T : Type 0} → T → Setter T
  with_test t o = record o { test = some t }

  pub with_funcs : {T : Type 0} → Functions → Setter T
  with_funcs fs o = record o { funcs = fs }

  pub with_default_funcs : {T : Type 0} → Setter T
  with_default_funcs o = record o { default_func = true }

  pub apply_options : {T : Type 0} → List (Setter T) → Options T → Options T
  apply_options [] o = o
  apply_options (f ∷ fs) o = apply_options fs (f o)

  -- `for name, f := range funcs { functions[name] = f }`; the keys of a Go map are distinct, so
  -- that the order does not matter.
  pub add_functions : Functions → Functions → Functions
  add_functions [] base = base
  add_functions ((name, f) ∷ fs) base = insert name f (add_functions fs base)

  module _ {E T : Type 0} (lib : Library E T) where
    -- `check var`
    pub check_vars : Assoc Bytes (Value F) → E → List Bytes → Result E
    check_vars ctx e [] = ok e
    check_vars ctx e (s ∷ vars) = elim (lookup s ctx) [
      | none ↦ err (no_parameter s)
      | some v ↦ check_vars ctx e vars
    ]

    -- `check var and type`
    pub try_on : T → E → Result E
    try_on t e =
        let ctx = lib.to_map t in
        elim (lib.evaluate e ctx) [ none ↦ check_vars ctx e (lib.vars e) | some bad ↦ err bad ]

    pub gen : Bytes → List (Setter T) → Result E
    gen expr options =
        let opt =
          apply_options options (record { test = none; funcs = []; default_func = false }) in
        let base = if opt.default_func then default_functions r else [] in
        elim (lib.new_expression expr (add_functions opt.funcs base)) [
          | err bad ↦ err bad
          | ok e ↦ elim opt.test [ none ↦ ok e | some t ↦ try_on t e ]
        ]

    pub gen_matcher_with_funcs : Bytes → T → Functions → Result E
    gen_matcher_with_funcs expr t funcs =
        elim (lib.new_expression expr (add_functions funcs (default_functions r))) [
          | err bad ↦ err bad
          | ok e ↦ try_on t e
        ]

    pub gen_matcher : Bytes → T → Result E
    gen_matcher expr t = gen_matcher_with_funcs expr t []
