-- ===== src/Eval/Functions.antt =====
-- eval/eval.go: what rangeFunc, inFunc and the functions on comma-separated values compute.
use go_toolkits.Base.{
  ◌≡◌, refl, sym, ◌∙◌, ◌↔◌, ◌⊎◌, inl, inr, Bool, true, false, ◌||◌, List, [], ◌∷◌, ◌++◌, map, arith,
  if◌then◌else◌, Bool-cases, Any,
}
use go_toolkits.Base.Bytes.{Bytes, less, split}
use go_toolkits.Mask.{match}
use go_toolkits.Eval.{
  Value, text, number, flag, other, parameter, Runtime, Answer, refuse, reply, some_piece,
  match_multi_func, range_func, in_rest, in_func,
}

-- s < t and t ≤ u give s < u.
less_trans_le : (s t u : Bytes) → less s t ≡ true → less u t ≡ false → less s u ≡ true
unfolding less
less_trans_le [] [] u h k = cc
less_trans_le [] (b ∷ t) [] h k = cc
less_trans_le [] (b ∷ t) (c ∷ u) h k = refl
less_trans_le (a ∷ s) [] u h k = cc
less_trans_le (a ∷ s) (b ∷ t) [] h k = cc
less_trans_le (a ∷ s) (b ∷ t) (c ∷ u) h k = ground (arith, less_trans_le s t u)

-- s ≤ t and t ≤ u give s ≤ u.
le_trans_less : (s t u : Bytes) → less t s ≡ false → less u t ≡ false → less u s ≡ false
le_trans_less s t u h k = elim (Bool-cases (less u s)) [
  | inl up ↦ absurd (cc (sym k ∙ less_trans_le u s t up h))
  | inr down ↦ down
]

module _ {F : Type 0} (r : Runtime F) where
  -- The answer of rangeFunc to three texts.
  abbrev pub in_range : Bytes → Bytes → Bytes → Answer F
  in_range value min max = range_func r (text value ∷ text min ∷ text max ∷ [])

  range_func_true :
      (value min max : Bytes)
      → (in_range value min max ≡ reply true) ↔ ((less value min ≡ false) × (less value max ≡ true))
  unfolding range_func
  range_func_true value min max = (λ h. (ground arith, ground arith), λ h. ground arith)

  -- Ranges are half-open: for min ≤ mid ≤ max a text is in [min, max) exactly if it is in [min, mid)
  -- or in [mid, max), and never in both.
  pub range_func_split :
      (value min mid max : Bytes)
      → less mid min ≡ false
      → less max mid ≡ false
      → ((in_range value min max ≡ reply true)
          ↔ ((in_range value min mid ≡ reply true) ⊎ (in_range value mid max ≡ reply true)))
        × (¬ ((in_range value min mid ≡ reply true) × (in_range value mid max ≡ reply true)))
  range_func_split value min mid max a b = ((to, from), never)
    where
      to :
          in_range value min max ≡ reply true
          → (in_range value min mid ≡ reply true) ⊎ (in_range value mid max ≡ reply true)
      to h =
          let (low, high) = (range_func_true value min max).0 h in
          elim (Bool-cases (less value mid)) [
            | inl left ↦ inl ((range_func_true value min mid).1 (low, left))
            | inr right ↦ inr ((range_func_true value mid max).1 (right, high))
          ]

      from :
          (in_range value min mid ≡ reply true) ⊎ (in_range value mid max ≡ reply true)
          → in_range value min max ≡ reply true
      from (inl h) =
          let (low, high) = (range_func_true value min mid).0 h in
          (range_func_true value min max).1 (low, less_trans_le value mid max high b)
      from (inr h) =
          let (low, high) = (range_func_true value mid max).0 h in
          (range_func_true value min max).1 (le_trans_less min mid value a low, high)

      never : ¬ ((in_range value min mid ≡ reply true) × (in_range value mid max ≡ reply true))
      never (h, k) =
          cc (sym ((range_func_true value min mid).0 h).1 ∙ ((range_func_true value mid max).0 k).0)

  -- What follows the leading numbers: nothing, or an argument of another type.
  abbrev pub NoNumber : List (Value F) → Type 0
  NoNumber (number x ∷ args) = ⊥
  NoNumber _ = Unit

  abbrev pub is_one_of : F → List F → Bool
  is_one_of x [] = false
  is_one_of x (y ∷ ys) = r.float_eq y x || is_one_of x ys

  abbrev pub at_end : List (Value F) → Answer F
  at_end [] = reply false
  at_end (a ∷ args) = refuse parameter

  in_rest_lem :
      (x : F) (ys : List F) (args : List (Value F))
      → NoNumber args
      → in_rest r x (map number ys ++ args) ≡ (if is_one_of x ys then reply true else at_end args)
  unfolding in_rest
  in_rest_lem x [] [] n = refl
  in_rest_lem x [] (text t ∷ args) n = refl
  in_rest_lem x [] (flag b ∷ args) n = refl
  in_rest_lem x [] (other ∷ args) n = refl
  in_rest_lem x [] (number y ∷ args) n = absurd n
  in_rest_lem x (y ∷ ys) args n = ground (arith, in_rest_lem x ys args n)

  -- inFunc looks for its first argument among the numbers that follow it, up to the first argument
  -- of another type: true if it is there, ErrParameter if it is not and such an argument stands
  -- behind them, and false otherwise.
  pub in_func_lem :
      (x y : F) (ys : List F) (args : List (Value F))
      → NoNumber args
      → in_func r (number x ∷ map number (y ∷ ys) ++ args)
        ≡ (if is_one_of x (y ∷ ys) then reply true else at_end args)
  unfolding in_func
  in_func_lem x y ys args n = in_rest_lem x (y ∷ ys) args n

some_piece_iff :
    (test : Bytes → Bytes → Bool) (vs : List Bytes) (pattern : Bytes)
    → (some_piece test vs pattern ≡ true) ↔ Any (λ v. test v pattern ≡ true) vs
unfolding some_piece
some_piece_iff test [] pattern = ((λ h. cc), λ a. absurd a)
some_piece_iff test (v ∷ vs) pattern = (
  λ h. elim (Bool-cases (test v pattern)) [
    | inl hit ↦ inl hit
    | inr miss ↦ inr ((some_piece_iff test vs pattern).0 (ground arith))
  ],
  elim [ inl hit ↦ rw hit | inr later ↦ ground (arith, (some_piece_iff test vs pattern).1 later) ],
)

-- matchMulti holds of a comma-separated value exactly if Match holds of one of its parts.
pub match_multi_func_iff :
    {F : Type 0} (r : Runtime F) (value pattern : Bytes)
    → (match_multi_func r (text value ∷ text pattern ∷ []) ≡ reply true)
      ↔ Any (λ v. match v pattern ≡ true) (split b',' value)
unfolding match_multi_func
match_multi_func_iff r value pattern =
    let s = some_piece_iff match (split b',' value) pattern in
    (λ h. s.0 (ground arith), λ a. ground (arith, s.1 a))
