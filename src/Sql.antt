-- ===== src/Sql.antt =====
-- sql/sql.go: ArgsFilter, which collects the conditions of a query. V stands for the values of a
-- request, B for the expressions that With adds. Field names and operators are texts.
pub mod Conditions
pub mod Query
pub mod Transaction
mod Tests
use go_toolkits.Base.{
  ℕ, Bool, true, false, Option, none, some, List, [], ◌∷◌, ◌++◌, ◌==◌, leb, ltb, if◌then◌else◌,
}
use go_toolkits.Base.Bytes.{Bytes, codes}
use go_toolkits.Base.Assoc.{Assoc, bytes_eq, lookup, insert}

-- QueryOp: the operators that are defined, and any other text.
pub data QueryOp : Type 0 where
  eq neq between in_ not_in gt gte lt lte like i_like not_like is not_between : QueryOp
  unknown : Bytes → QueryOp

-- A value: nil, a slice of values, or one of another kind.
pub data Value (V : Type 0) : Type 0 where
  nil : Value V
  slice : List V → Value V
  one : V → Value V

-- goqu.Op with its one entry: the operator with a value, a range, or the pattern of a LIKE.
pub data Operand (V : Type 0) : Type 0 where
  value : Value V → Operand V
  range : V → V → Operand V
  pattern : Bytes → Operand V

-- What stands for a field in goqu.Ex: an operator, or a value that Update or Set put there.
pub data Entry (V : Type 0) : Type 0 where
  op : QueryOp → Operand V → Entry V
  plain : Value V → Entry V

-- What End lists: the conjunction, the expressions, the disjunction.
pub data Expression (V B : Type 0) : Type 0 where
  ex : Assoc Bytes (Entry V) → Expression V B
  expr : B → Expression V B
  ex_or : Assoc Bytes (Entry V) → Expression V B

-- ArgsFilter. A filter map that is nil is none.
pub record ArgsFilter (V B : Type 0) : Type 0 where
  pub exps : List B
  pub ex : Assoc Bytes (Entry V)
  pub filter_map : Option (Assoc Bytes (Value V))
  pub ex_or : Assoc Bytes (Entry V)

-- `print` is fmt.Sprintf with %v.
module _ {V : Type 0} (print : Value V → Bytes) where
  pub range_op : QueryOp → Value V → Option (Entry V)
  range_op o (slice (a ∷ b ∷ [])) = some (op o (range a b))
  range_op o _ = none

  pub list_op : QueryOp → Value V → Option (Entry V)
  list_op o (slice (a ∷ vs)) = some (op o (value (slice (a ∷ vs))))
  list_op o _ = none

  pub like_op : QueryOp → Value V → Option (Entry V)
  like_op o v = some (op o (pattern (b'%' ∷ print v ++ b'%' ∷ [])))

  -- execOp
  pub exec_op : QueryOp → Value V → Option (Entry V)
  exec_op eq v = some (op eq (value v))
  exec_op neq v = some (op neq (value v))
  exec_op gt v = some (op gt (value v))
  exec_op lt v = some (op lt (value v))
  exec_op lte v = some (op lte (value v))
  exec_op gte v = some (op gte (value v))
  exec_op is v = some (op is (value v))
  exec_op between v = range_op between v
  exec_op not_between v = range_op not_between v
  exec_op in_ v = list_op in_ v
  exec_op not_in v = list_op not_in v
  exec_op like v = like_op like v
  exec_op not_like v = like_op not_like v
  exec_op i_like v = like_op i_like v
  exec_op (unknown o) v = none

-- filterMap[filterField] for a map that may be nil.
pub requested : {V : Type 0} → Option (Assoc Bytes (Value V)) → Bytes → Option (Value V)
requested none field = none
requested (some m) field = lookup field m

module _ {V B : Type 0} where
  -- QueryFilter
  pub query_filter : Option (Assoc Bytes (Value V)) → ArgsFilter V B
  query_filter m = record { exps = []; ex = []; filter_map = m; ex_or = [] }

  -- Update
  pub update : Bytes → Bytes → ArgsFilter V B → ArgsFilter V B
  update field filter_field f = elim (requested f.filter_map filter_field) [
    | none ↦ f
    | some v ↦ record f { ex = insert field (plain v) f.ex }
  ]

  -- Set
  pub set : Bytes → Value V → ArgsFilter V B → ArgsFilter V B
  set field v f = record f { ex = insert field (plain v) f.ex }

  pub put_where : Bytes → Option (Entry V) → ArgsFilter V B → ArgsFilter V B
  put_where field none f = f
  put_where field (some e) f = record f { ex = insert field e f.ex }

  pub put_or : Bytes → Option (Entry V) → ArgsFilter V B → ArgsFilter V B
  put_or field none f = f
  put_or field (some e) f = record f { ex_or = insert field e f.ex_or }

  -- Where
  pub add_where : (Value V → Bytes) → Bytes → QueryOp → Bytes → ArgsFilter V B → ArgsFilter V B
  add_where print field o filter_field f = elim (requested f.filter_map filter_field) [
    | none ↦ f
    | some v ↦ put_where field (exec_op print o v) f
  ]

  -- Or
  pub add_or : (Value V → Bytes) → Bytes → QueryOp → Bytes → ArgsFilter V B → ArgsFilter V B
  add_or print field o filter_field f = elim (requested f.filter_map filter_field) [
    | none ↦ f
    | some v ↦ put_or field (exec_op print o v) f
  ]

  -- With
  pub add_with : (Value V → B) → Bytes → ArgsFilter V B → ArgsFilter V B
  add_with exp_func filter_field f = elim (requested f.filter_map filter_field) [
    | none ↦ f
    | some v ↦ record f { exps = f.exps ++ exp_func v ∷ [] }
  ]

  conjunction : Assoc Bytes (Entry V) → List (Expression V B)
  conjunction [] = []
  conjunction (e ∷ m) = ex (e ∷ m) ∷ []

  disjunction : Assoc Bytes (Entry V) → List (Expression V B)
  disjunction [] = []
  disjunction (e ∷ m) = ex_or (e ∷ m) ∷ []

  expressions : List B → List (Expression V B)
  expressions [] = []
  expressions (b ∷ bs) = expr b ∷ expressions bs

  -- End
  pub end_ : ArgsFilter V B → List (Expression V B)
  end_ f = conjunction f.ex ++ (expressions f.exps ++ disjunction f.ex_or)
