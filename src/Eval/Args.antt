-- ===== src/Eval/Args.antt =====
-- eval/eval.go: the answers that the functions give, over all lists of arguments.
use go_toolkits.Base.{◌≡◌, refl, ◌⊎◌, inl, inr, Bool, List, [], ◌∷◌, by_if, All}
use go_toolkits.Eval.{
  Value, text, number, parameter, Runtime, Answer, refuse, reply, match_func, match_multi_func,
  match_ie_func, any_func, any_multi_func, any_ie_func, range_func, color_eq_func, in_rest, in_func,
  Function,
}

-- A Boolean without an error, or false with ErrParameter.
abbrev pub IsClean : {F : Type 0} → Answer F → Type 0
IsClean a = ((b : Bool) × (a ≡ reply b)) ⊎ (a ≡ refuse parameter)

module _ {F : Type 0} (r : Runtime F) where
  match_func-IsClean : (args : List (Value F)) → IsClean (match_func r args)
  unfolding match_func
  match_func-IsClean (text v ∷ text p ∷ []) = inl (_, refl)
  match_func-IsClean _ = inr refl

  match_ie_func-IsClean : (args : List (Value F)) → IsClean (match_ie_func r args)
  unfolding match_ie_func
  match_ie_func-IsClean (text v ∷ text p ∷ []) = inl (_, refl)
  match_ie_func-IsClean _ = inr refl

  match_multi_func-IsClean : (args : List (Value F)) → IsClean (match_multi_func r args)
  unfolding match_multi_func
  match_multi_func-IsClean (text v ∷ text p ∷ []) = inl (_, refl)
  match_multi_func-IsClean _ = inr refl

  any_func-IsClean : (args : List (Value F)) → IsClean (any_func r args)
  unfolding any_func
  any_func-IsClean (text v ∷ text p ∷ []) = inl (_, refl)
  any_func-IsClean _ = inr refl

  any_ie_func-IsClean : (args : List (Value F)) → IsClean (any_ie_func r args)
  unfolding any_ie_func
  any_ie_func-IsClean (text v ∷ text p ∷ []) = inl (_, refl)
  any_ie_func-IsClean _ = inr refl

  any_multi_func-IsClean : (args : List (Value F)) → IsClean (any_multi_func r args)
  unfolding any_multi_func
  any_multi_func-IsClean (text v ∷ text p ∷ []) = inl (_, refl)
  any_multi_func-IsClean _ = inr refl

  range_func-IsClean : (args : List (Value F)) → IsClean (range_func r args)
  unfolding range_func
  range_func-IsClean (text v ∷ text a ∷ text b ∷ []) = inl (_, refl)
  range_func-IsClean _ = inr refl

  color_eq_func-IsClean : (args : List (Value F)) → IsClean (color_eq_func r args)
  unfolding color_eq_func
  color_eq_func-IsClean (number c ∷ text n ∷ []) = inl (_, refl)
  color_eq_func-IsClean _ = inr refl

  in_rest-IsClean : (x : F) (args : List (Value F)) → IsClean (in_rest r x args)
  unfolding in_rest
  in_rest-IsClean x [] = inl (_, refl)
  in_rest-IsClean x (number y ∷ args) =
      by_if IsClean (r.float_eq y x) (λ _. inl (_, refl)) (λ _. in_rest-IsClean x args)
  in_rest-IsClean x (_ ∷ args) = inr refl

  in_func-IsClean : (args : List (Value F)) → IsClean (in_func r args)
  unfolding in_func
  in_func-IsClean (number x ∷ a ∷ args) = in_rest-IsClean x (a ∷ args)
  in_func-IsClean _ = inr refl

  -- The functions that tell yes or no.
  abbrev pub tests : List (Function r)
  tests =
      match_func r
      ∷ match_ie_func r
      ∷ match_multi_func r
      ∷ any_func r
      ∷ any_ie_func r
      ∷ any_multi_func r
      ∷ range_func r
      ∷ color_eq_func r
      ∷ in_func r
      ∷ []

  -- Whatever the arguments, each function but `duration` answers a Boolean without an error, or
  -- false with ErrParameter.
  pub tests-IsClean : All (λ f. (args : List (Value F)) → IsClean (f args)) tests
  tests-IsClean = (
    match_func-IsClean,
    (
      match_ie_func-IsClean,
      (
        match_multi_func-IsClean,
        (
          any_func-IsClean,
          (
            any_ie_func-IsClean,
            (
              any_multi_func-IsClean,
              (range_func-IsClean, (color_eq_func-IsClean, (in_func-IsClean, tt))),
            ),
          ),
        ),
      ),
    ),
  )
