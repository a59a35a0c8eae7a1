-- ===== src/Errors.antt =====
-- errors/errors.go: the codes of errors and the pool that keeps them apart. An int32 is its
-- representative below 2 ^ 32, an int one below 2 ^ 64; the JSON of a status are
-- outside.
pub mod Pool
mod Tests
use go_toolkits.Base.{ℕ, ◌+◌, ◌%◌, ◌^◌, Bool, true, false, Option, none, some, ◌==◌, if◌then◌else◌}
use go_toolkits.Base.Bytes.{Bytes}
use go_toolkits.Base.Assoc.{Assoc, number_eq, lookup, insert}

-- The value of an interface{} as reflect sees it: of kind int32, of kind int, or of another.
pub data Code : Type 0 where
  of_int32 of_int : ℕ → Code
  of_other : Code

-- AssertCode; none is its panic.
pub assert_code : Code → Option ℕ
assert_code (of_int32 n) = some (n % 2 ^ 32)
assert_code (of_int n) = some (n % 2 ^ 32)
assert_code of_other = none

-- Error
pub record Error : Type 0 where
  pub err_code : ℕ
  pub built_in : Bool
  pub escape_pool : Bool

-- From
pub from : ℕ → Error
from code = record { err_code = code; built_in = true; escape_pool = false }

-- Error.BuiltIn
pub set_built_in : Bool → Error → Error
set_built_in flag er = record er { built_in = flag }

-- Error.EscapePool
pub set_escape_pool : Bool → Error → Error
set_escape_pool flag er = record er { escape_pool = flag }

-- A grpc status without details.
pub record Status : Type 0 where
  pub code : ℕ
  pub message : Bytes

-- What marshal gives: nil, the status itself, or its JSON.
pub data Made : Type 0 where
  no_error : Made
  as_status as_json : Status → Made

-- marshal; Err of a status is nil where its code is 0, codes.OK.
pub marshal : Error → Status → Made
marshal er s = if er.built_in then if s.code == 0 then no_error else as_status s else as_json s

-- errPool
abbrev pub Pool_ : Type 0
Pool_ = Assoc ℕ ℕ

pub unless_there : ℕ → Made → Option ℕ → Pool_ → Pool_ × Option Made
unless_there c made none pool = (insert c c pool, some made)
unless_there c made (some e) pool = (pool, none)

pub put_error : Error → ℕ → Bytes → Pool_ → Pool_ × Option Made
put_error er c msg pool =
    let made = marshal er (record { code = c; message = msg }) in
    if er.escape_pool then (pool, some made) else unless_there c made (lookup c pool) pool

pub with_code : Error → Bytes → Option ℕ → Pool_ → Pool_ × Option Made
with_code er msg none pool = (pool, none)
with_code er msg (some c) pool = put_error er ((c + er.err_code) % 2 ^ 32) msg pool

-- addError, which Add and New call; none is a panic.
pub add_error : Error → Code → Bytes → Pool_ → Pool_ × Option Made
add_error er code msg pool = with_code er msg (assert_code code) pool
