-- ===== src/Mask.antt =====
-- utils/utils.go, Match to AnyIE: masks with the wildcard '*' and the exclusion '!'.
-- A string that Go walks by an index is the list of the bytes from that index on.
pub mod Glob
pub mod Loop
pub mod Single
pub mod Many
pub mod Old
mod Tests
use mathlib.Core.List.{reverse}
use go_toolkits.Base.{
  ℕ, zero, suc, ◌+◌, ◌*◌, ◌≡◌, Bool, true, false, not, ◌&&◌, ◌||◌, Option, none, some, List, [],
  ◌∷◌, ◌++◌, ◌==◌, if◌then◌else◌, length,
}
use go_toolkits.Base.Bytes.{
  Bytes, same, is_empty, has_prefix, has_suffix, contains, contains_byte, split,
}
use Loop.{match_iterative}
use Glob.{star}

-- expr[1:], for an expr that is not empty.
abbrev pub rest : Bytes → Bytes
rest [] = []
rest (c ∷ s) = s

-- expr[:len(expr)-1], for an expr that is not empty.
unfoldable pub front : Bytes → Bytes
front [] = []
front (c ∷ []) = []
front (c ∷ d ∷ s) = c ∷ front (d ∷ s)

abbrev pub star_text : Bytes
star_text = star ∷ []

-- The cases *text*, *text and text* of the switch.
abbrev is_infix : Bytes → Bool
is_infix expr =
    has_prefix expr star_text
    && has_suffix expr star_text
    && not (contains_byte (front (rest expr)) star)

abbrev is_suffix : Bytes → Bool
is_suffix expr = has_prefix expr star_text && not (contains_byte (rest expr) star)

abbrev is_prefix : Bytes → Bool
is_prefix expr = has_suffix expr star_text && not (contains_byte (front expr) star)

-- MatchSingle after the check of its arguments: the mask "*", and the switch.
pub fast_paths : Bytes → Bytes → Bool
fast_paths value expr =
    if same expr star_text
    then true
    else if not (contains_byte expr star)
    then same value expr
    else if is_infix expr
    then contains value (front (rest expr))
    else if is_suffix expr
    then has_suffix value (rest expr)
    else if is_prefix expr
    then has_prefix value (front expr)
    else match_iterative value expr

-- MatchSingle
pub match_single : Bytes → Bytes → Bool
match_single value expr = if is_empty expr || is_empty value then false else fast_paths value expr

-- The bytes of the token from its first byte that is not a space on.
pub trim_left : Bytes → Bytes
trim_left [] = []
trim_left (c ∷ s) = if c == b' ' then trim_left s else c ∷ s

-- token[tokenStart:tokenEnd], after the two loops over the spaces at its ends.
pub trim : Bytes → Bytes
unfolding trim_left
trim token = reverse (trim_left (reverse (trim_left token)))

-- What Match does with one mask: `none` returns false at once, `some` is the new value of found.
pub check_mask : Bytes → Bool → Bytes → Option Bool
check_mask value found [] = some found
check_mask value found (c ∷ mask) =
    if c == b'!'
    then (if match_single value mask then none else some found)
    else if match_single value (c ∷ mask)
    then some true
    else some found

-- The loop of Match over the pattern, with the bytes of the token since `start`.
pub match_masks : Bytes → Bytes → Bytes → Bool → Bool
match_masks value token [] found = elim (check_mask value found (trim token)) [
  | none ↦ false
  | some found' ↦ found'
]
match_masks value token (c ∷ pattern) found = elim (c == b',') [
  | true ↦ elim (check_mask value found (trim token)) [
    | none ↦ false
    | some found' ↦ match_masks value [] pattern found'
  ]
  | false ↦ match_masks value (token ++ c ∷ []) pattern found
]

-- Match
pub match : Bytes → Bytes → Bool
match value pattern =
    if is_empty pattern || is_empty value then false else match_masks value [] pattern false

-- MatchIE, over Go's strings.ToLower.
pub match_ie : (Bytes → Bytes) → Bytes → Bytes → Bool
match_ie to_lower value pattern = match (to_lower value) (to_lower pattern)

-- strings.Replace(exp, "*", "", -1)
pub strip : Bytes → Bytes
strip [] = []
strip (c ∷ s) = if c == star then strip s else c ∷ strip s

-- The test of Any for one mask, its '!' taken off.
pub any_test : Bytes → Bytes → Bool
any_test value exp =
    if same exp star_text
    then true
    else if has_prefix exp star_text
    then (if has_suffix exp star_text
        then contains value (strip exp)
        else has_suffix value (strip exp))
    else if has_suffix exp star_text
    then has_prefix value (strip exp)
    else same value (strip exp)

-- The body of the loop of Any.
pub any_mask : Bytes → Bytes → Bool
any_mask value [] = false
any_mask value (c ∷ exp) = if c == b'!' then not (any_test value exp) else any_test value (c ∷ exp)

pub any_masks : Bytes → List Bytes → Bool
any_masks value [] = false
any_masks value (exp ∷ exps) = any_mask value exp || any_masks value exps

-- Any
pub any : Bytes → Bytes → Bool
any value pattern = if is_empty pattern then false else any_masks value (split b',' pattern)

-- AnyIE, over Go's strings.ToLower.
pub any_ie : (Bytes → Bytes) → Bytes → Bytes → Bool
any_ie to_lower value pattern = any (to_lower value) (to_lower pattern)
