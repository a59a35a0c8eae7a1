-- ===== src/Eval.antt =====
-- eval/eval.go: the functions that an expression may call, and Gen, which compiles an expression
-- and tries it. govaluate, structs and Go's float64 are not in this repository: they are the
-- parameters `Runtime`.
pub mod Args
pub mod Functions
pub mod Compile
mod Tests
use go_toolkits.Base.{
  ℕ, zero, suc, ◌≡◌, Bool, true, false, not, ◌&&◌, Option, none, some, List, [], ◌∷◌, if◌then◌else◌,
}
use go_toolkits.Base.Bytes.{Bytes, codes, less, split}
use go_toolkits.Base.Assoc.{Assoc, bytes_eq, lookup, insert}
use go_toolkits.Mask.{match, match_ie, any, any_ie}
use go_toolkits.Color.{color_eq}

-- An argument, by the types that the functions ask for.
pub data Value (F : Type 0) : Type 0 where
  text : Bytes → Value F
  number : F → Value F
  flag : Bool → Value F
  other : Value F

-- ErrParameter, errors.New(""), an error of time.ParseDuration, errors of govaluate, and
-- "No parameter 's' found."
pub data Error : Type 0 where
  parameter blank : Error
  library : Bytes → Error
  no_parameter : Bytes → Error

-- float64 as far as the functions use it: ==, uint(x), time.ParseDuration as a float64 with its
-- error, and strings.ToLower.
pub record Runtime (F : Type 0) : Type 0 where
  pub float_eq : F → F → Bool
  pub to_uint : F → ℕ
  pub parse_duration : Bytes → F × Option Error
  pub to_lower : Bytes → Bytes

-- (interface{}, error)
abbrev pub Answer : Type 0 → Type 0
Answer F = Value F × Option Error

abbrev pub refuse : {F : Type 0} → Error → Answer F
refuse e = (flag false, some e)

abbrev pub reply : {F : Type 0} → Bool → Answer F
reply b = (flag b, none)

-- The loops of matchMultiFunc and anyMultiFunc.
pub some_piece : (Bytes → Bytes → Bool) → List Bytes → Bytes → Bool
some_piece test [] pattern = false
some_piece test (v ∷ vs) pattern = if test v pattern then true else some_piece test vs pattern

module _ {F : Type 0} (r : Runtime F) where
  pub match_func : List (Value F) → Answer F
  match_func (text value ∷ text pattern ∷ []) = reply (match value pattern)
  match_func _ = refuse parameter

  pub match_multi_func : List (Value F) → Answer F
  match_multi_func (text value ∷ text pattern ∷ []) =
      reply (some_piece match (split b',' value) pattern)
  match_multi_func _ = refuse parameter

  pub match_ie_func : List (Value F) → Answer F
  match_ie_func (text value ∷ text pattern ∷ []) = reply (match_ie r.to_lower value pattern)
  match_ie_func _ = refuse parameter

  pub any_func : List (Value F) → Answer F
  any_func (text value ∷ text pattern ∷ []) = reply (any value pattern)
  any_func _ = refuse parameter

  pub any_multi_func : List (Value F) → Answer F
  any_multi_func (text value ∷ text pattern ∷ []) =
      reply (some_piece any (split b',' value) pattern)
  any_multi_func _ = refuse parameter

  pub any_ie_func : List (Value F) → Answer F
  any_ie_func (text value ∷ text pattern ∷ []) = reply (any_ie r.to_lower value pattern)
  any_ie_func _ = refuse parameter

  pub range_func : List (Value F) → Answer F
  range_func (text value ∷ text min ∷ text max ∷ []) =
      reply (not (less value min) && less value max)
  range_func _ = refuse parameter

  pub color_eq_func : List (Value F) → Answer F
  color_eq_func (number color ∷ text rgb_name ∷ []) = reply (color_eq (r.to_uint color) rgb_name)
  color_eq_func _ = refuse parameter

  -- The loop of inFunc from its second argument on.
  pub in_rest : F → List (Value F) → Answer F
  in_rest arg [] = reply false
  in_rest arg (number a ∷ args) = if r.float_eq a arg then reply true else in_rest arg args
  in_rest arg (_ ∷ args) = refuse parameter

  pub in_func : List (Value F) → Answer F
  in_func (number arg ∷ a ∷ args) = in_rest arg (a ∷ args)
  in_func _ = refuse parameter

  pub duration : List (Value F) → Answer F
  duration (text value ∷ []) = let (d, err) = r.parse_duration value in (number d, err)
  duration _ = refuse blank

  abbrev pub Function : Type 0
  Function = List (Value F) → Answer F

  -- The map that Gen and GenMatcherWithFuncs build.
  pub default_functions : Assoc Bytes Function
  default_functions =
      (codes "match", match_func)
      ∷ (codes "matchIE", match_ie_func)
      ∷ (codes "matchMulti", match_multi_func)
      ∷ (codes "any", any_func)
      ∷ (codes "anyIE", any_ie_func)
      ∷ (codes "anyMulti", any_multi_func)
      ∷ (codes "range", range_func)
      ∷ (codes "coloreq", color_eq_func)
      ∷ (codes "in", in_func)
      ∷ (codes "duration", duration)
      ∷ []
