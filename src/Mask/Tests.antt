-- ===== src/Mask/Tests.antt =====
-- Runs of the masks, and the theorems at inputs of theirs.
use go_toolkits.Base.{
  ℕ, ◌≡◌, refl, ◌≢◌, ◌↔◌, Bool, true, false, none, some, [], ◌∷◌, ◌++◌, arith, Any,
}
use go_toolkits.Base.Bytes.{Bytes, codes, contains_byte}
use go_toolkits.Mask.Glob.{Glob}
use go_toolkits.Mask.Loop.{match_iterative, run_match}
use go_toolkits.Mask.Loop.Decides.{run_match_total, match_iterative_iff}
use go_toolkits.Mask.Single.{Fits, match_single_iff}
use go_toolkits.Mask.Many.{masks, Includes, Excludes, match_iff}
use go_toolkits.Mask.{
  match_single, match, match_masks, check_mask, fast_paths, trim, front, any, any_test, any_masks,
  any_mask, strip,
}

backtracks : run_match (codes "EURUSD.c.pro") (codes "*USD*.pro") ≡ some true
unfolding run_match
backtracks = refl

excluded : match (codes "EURUSD") (codes "EUR*, !*USD , *") ≡ false
unfolding match match_masks check_mask match_single fast_paths trim front match_iterative
    go_toolkits.Base.Bytes.same contains_byte go_toolkits.Base.Bytes.has_prefix
    go_toolkits.Base.Bytes.has_suffix
excluded = refl

included : match (codes "EURJPY") (codes " EUR* , !*USD") ≡ true
unfolding match match_masks check_mask match_single fast_paths trim front match_iterative
    go_toolkits.Base.Bytes.same contains_byte go_toolkits.Base.Bytes.has_prefix
    go_toolkits.Base.Bytes.has_suffix
included = refl

old_is_or : any (codes "EURUSD") (codes "GBP*,!*JPY") ≡ true
unfolding any any_masks any_mask any_test strip go_toolkits.Base.Bytes.split
    go_toolkits.Base.Bytes.same go_toolkits.Base.Bytes.has_prefix go_toolkits.Base.Bytes.has_suffix
old_is_or = refl

run_match_total_example : run_match (codes "aXbXc") (codes "a*b*c") ≢ none
run_match_total_example = run_match_total (codes "aXbXc") (codes "a*b*c")

match_iterative_iff_example :
    (match_iterative (codes "aXbXc") (codes "a*b*c") ≡ true) ↔ Glob (codes "a*b*c") (codes "aXbXc")
match_iterative_iff_example = match_iterative_iff (codes "aXbXc") (codes "a*b*c")

match_single_iff_example :
    (match_single (codes "EURUSD") (codes "*USD") ≡ true) ↔ Fits (codes "EURUSD") (codes "*USD")
match_single_iff_example = match_single_iff (codes "EURUSD") (codes "*USD")

match_iff_example : (match (codes "EURUSD") (codes "EUR*,!*JPY") ≡ true) ↔ (
    Any (Includes (codes "EURUSD")) (masks (codes "EUR*,!*JPY"))
    × (¬ Any (Excludes (codes "EURUSD")) (masks (codes "EUR*,!*JPY"))))
match_iff_example = match_iff (codes "EURUSD") (codes "EUR*,!*JPY")
