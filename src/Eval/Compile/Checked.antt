-- ===== src/Eval/Compile/Checked.antt =====
-- What Gen and GenMatcher have checked of the expression that they return.
use go_toolkits.Base.{
  ◌≡◌, refl, sym, ◌∙◌, ap, subst, ◌≢◌, ◌↔◌, Option, none, some, List, [], ◌∷◌, arith, All, inl, inr,
  Option-cases,
}
use go_toolkits.Base.Bytes.{Bytes}
use go_toolkits.Base.Assoc.{bytes_eq, lookup, lookup-insert}
use go_toolkits.Eval.{Runtime, default_functions}
use go_toolkits.Eval.Compile.{
  Result, ok, err, Functions, Library, with_test, with_funcs, with_default_funcs, apply_options,
  add_functions, check_vars, try_on, gen, gen_matcher_with_funcs, gen_matcher,
}

module _ {F : Type 0} (r : Runtime F) where
  abbrev pub or_else : {A : Type 0} → Option A → Option A → Option A
  or_else none o = o
  or_else (some a) o = some a

  -- In the table that an expression sees a caller's function hides the built-in one of its name,
  -- and every other built-in function is there.
  pub lookup-add_functions :
      (k : Bytes) (fs base : Functions r)
      → lookup k (add_functions r fs base) ≡ or_else (lookup k fs) (lookup k base)
  unfolding add_functions lookup
  lookup-add_functions k [] base = refl
  lookup-add_functions k ((name, f) ∷ fs) base =
      ground
        (arith, lookup-insert name k f (add_functions r fs base), lookup-add_functions k fs base)

  module _ {E T : Type 0} (lib : Library r E T) where
    abbrev pub Bound : T → Bytes → Type 0
    Bound t s = lookup s (lib.to_map t) ≢ none

    check_vars_ok :
        (t : T) (e e' : E) (vars : List Bytes)
        → check_vars r lib (lib.to_map t) e vars ≡ ok e'
        → (e' ≡ e) × All (Bound t) vars
    unfolding check_vars
    check_vars_ok t e e' [] h = (ground arith, tt)
    check_vars_ok t e e' (s ∷ vars) h = elim (Option-cases (lookup s (lib.to_map t))) [
      | inl gone ↦ absurd (ground arith)
      | inr (v, found) ↦
          let (same, all) = check_vars_ok t e e' vars (ground arith) in
          (same, ((λ gone. cc (sym gone ∙ found)), all))
    ]

    check_vars_complete :
        (t : T) (e : E) (vars : List Bytes)
        → All (Bound t) vars
        → check_vars r lib (lib.to_map t) e vars ≡ ok e
    unfolding check_vars
    check_vars_complete t e [] a = refl
    check_vars_complete t e (s ∷ vars) a = elim (Option-cases (lookup s (lib.to_map t))) [
      | inl gone ↦ absurd (a.0 gone)
      | inr (v, found) ↦ rw (found, check_vars) (check_vars_complete t e vars a.1)
    ]

    -- The checks let an expression through unchanged, exactly if it evaluates on the test value
    -- without an error and the test value has a field for each of its variables.
    pub try_on_iff :
        (t : T) (e e' : E)
        → (try_on r lib t e ≡ ok e')
          ↔ ((e' ≡ e) × (lib.evaluate e (lib.to_map t) ≡ none) × All (Bound t) (lib.vars e))
    unfolding try_on
    try_on_iff t e e' = elim (Option-cases (lib.evaluate e (lib.to_map t))) [
      | inl fine ↦
          rw (fine, try_on)
            (
              λ h. let (same, all) = check_vars_ok t e e' (lib.vars e) h in (same, refl, all),
              λ (same, _, all). check_vars_complete t e (lib.vars e) all ∙ ap ok (sym same),
            )
      | inr (bad, wrong) ↦ rw (wrong, try_on) ((λ h. cc), λ (_, fine, _). cc)
    ]

    -- GenMatcherWithFuncs does what Gen does with the three options WithDefaultFuncs, WithTest and
    -- WithFuncs.
    pub gen_matcher_with_funcs-gen :
        (expr : Bytes) (t : T) (funcs : Functions r)
        → gen_matcher_with_funcs r lib expr t funcs
          ≡ gen r lib expr (with_default_funcs r ∷ with_test r t ∷ with_funcs r funcs ∷ [])
    unfolding gen_matcher_with_funcs gen apply_options with_default_funcs with_test with_funcs
    gen_matcher_with_funcs-gen expr t funcs = refl

    -- What GenMatcher returns without an error is the expression that govaluate compiled with the
    -- built-in functions; it evaluates on the test value, which has all its variables.
    pub gen_matcher_iff :
        (expr : Bytes) (t : T) (e' : E)
        → (gen_matcher r lib expr t ≡ ok e') ↔ (
            (lib.new_expression expr (default_functions r) ≡ ok e')
            × ((lib.evaluate e' (lib.to_map t) ≡ none) × All (Bound t) (lib.vars e')))
    unfolding gen_matcher gen_matcher_with_funcs add_functions
    gen_matcher_iff expr t e' = go (lib.new_expression expr (default_functions r))
      where
        Fine : E → Type 0
        Fine e = (lib.evaluate e (lib.to_map t) ≡ none) × All (Bound t) (lib.vars e)

        go :
            (c : Result E)
            → (elim c [ err bad ↦ err bad | ok e ↦ try_on r lib t e ] ≡ ok e')
              ↔ ((c ≡ ok e') × Fine e')
        go (err bad) = ((λ h. cc), λ h. absurd (ground (arith, h.0)))
        go (ok e) = (
          λ h.
              let (same, fine, all) = (try_on_iff t e e').0 h in
              (ap ok (sym same), subst Fine (sym same) (fine, all)),
          λ (same, (fine, all)).
              let back : e' ≡ e = cc in
              let moved = subst Fine back (fine, all) in
              (try_on_iff t e e').1 (back, moved.0, moved.1),
        )
