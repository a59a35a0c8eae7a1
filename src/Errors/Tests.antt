-- ===== src/Errors/Tests.antt =====
-- Some calls of Add, and the theorems at them.
use go_toolkits.Base.{
  Distinct, ℕ, ◌+◌, ◌*◌, ◌^◌, ◌%◌, ◌≡◌, refl, Bool, true, false, not, ◌&&◌, none, some, List, [],
  ◌∷◌,
}
use go_toolkits.Base.Bytes.{codes}
use go_toolkits.Errors.{
  Code, of_int, of_int32, Error, from, set_escape_pool, assert_code, marshal, add_error,
}
use go_toolkits.Errors.Pool.{
  Call, calls, codes_of, codes_of-Distinct, among, verdict, add_error-among,
}

abbrev add : ℕ → Code → Call
add base code = record { error = from base; code = code; message = codes "m" }

-- The second is refused: 2 ^ 32 + 7 is 7 as an int32.
abbrev some_calls : List Call
some_calls =
    add 0 (of_int32 7)
    ∷ add 0 (of_int (4294967296 + 7))
    ∷ add 1000 (of_int 7)
    ∷ record { error = set_escape_pool true (from 0); code = of_int32 7; message = [] }
    ∷ []

codes_of_calls : codes_of some_calls [] ≡ 7 ∷ 1007 ∷ []
unfolding add_error go_toolkits.Errors.with_code assert_code go_toolkits.Errors.put_error from
    go_toolkits.Errors.unless_there go_toolkits.Base.Assoc.lookup marshal
    go_toolkits.Base.Assoc.insert set_escape_pool
codes_of_calls = refl

codes_of-Distinct_example : Distinct (codes_of some_calls [])
codes_of-Distinct_example = codes_of-Distinct some_calls

seven : assert_code (of_int 7) ≡ some 7
unfolding assert_code
seven = refl

add_error-among_example :
    (add_error (from 0) (of_int 7) [] (calls some_calls [])).1
    ≡ verdict
        (not (from 0).escape_pool
          && among ((7 + (from 0).err_code) % 2 ^ 32) (codes_of some_calls []))
        (marshal (from 0) (record { code = (7 + (from 0).err_code) % 2 ^ 32; message = [] }))
add_error-among_example = add_error-among some_calls (from 0) (of_int 7) 7 [] seven
