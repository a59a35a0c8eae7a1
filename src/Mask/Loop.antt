-- ===== src/Mask/Loop.antt =====
-- matchIterative of utils/utils.go.
pub mod Decides
use mathlib.Core.List.{tail}
use go_toolkits.Base.{
  ℕ, zero, suc, ◌+◌, ◌*◌, ◌≤◌, ◌<◌, ◌≡◌, refl, ◌≢◌, ◌↔◌, ◌⊎◌, inl, inr, Bool, true, false, Option,
  none, some, List, [], ◌∷◌, ◌++◌, arith, ◌==◌, if◌then◌else◌, length,
}
use go_toolkits.Base.Bytes.{Bytes}
use go_toolkits.Mask.Glob.{star}

-- backtrackV and backtrackE + 1 as what is left of value and expr there; none for -1.
abbrev pub Back : Type 0
Back = Option (Bytes × Bytes)

-- One round of the loop, from value and expr at vIdx and eIdx.
abbrev Round : Type 0
Round = Bytes → Bytes → Back → Option Bool

-- The last two branches: go on from one byte after the last retry, or give up.
go_back : Back → Round → Option Bool
go_back none next = some false
go_back (some (value, expr)) next = next (tail value) expr (some (tail value, expr))

-- The second loop and the last test.
pub only_stars : Bytes → Bool
only_stars [] = true
only_stars (x ∷ expr) = if x == star then only_stars expr else false

-- none stands for a loop that has not ended within its fuel.
match_loop : ℕ → Round
match_loop zero value expr back = none
match_loop (suc f) [] expr back = some (only_stars expr)
match_loop (suc f) (c ∷ value) [] back = go_back back (match_loop f)
match_loop (suc f) (c ∷ value) (x ∷ expr) back = elim (x == star) [
  | true ↦ match_loop f (c ∷ value) expr (some (c ∷ value, expr))
  | false ↦ elim (x == c) [
    | true ↦ match_loop f value expr back
    | false ↦ go_back back (match_loop f)
  ]
]

abbrev answer : Option Bool → Bool
answer none = false
answer (some b) = b

unfoldable pub run_match : Bytes → Bytes → Option Bool
unfolding match_loop go_back only_stars
run_match value expr = match_loop ((length value + 1) * (length expr + 1)) value expr none

unfoldable pub match_iterative : Bytes → Bytes → Bool
unfolding run_match
match_iterative value expr = answer (run_match value expr)
