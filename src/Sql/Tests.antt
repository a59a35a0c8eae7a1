-- ===== src/Sql/Tests.antt =====
-- Runs of ArgsFilter, and the theorems at inputs of theirs.
use go_toolkits.Base.{
  ℕ, ◌≡◌, refl, ◌≢◌, ◌↔◌, true, false, not, ◌&&◌, Option, none, some, List, [], ◌∷◌,
}
use go_toolkits.Base.Bytes.{Bytes, codes}
use go_toolkits.Base.Assoc.{Assoc, bytes_eq, lookup}
use go_toolkits.Sql.{
  Value, one, slice, eq, between, like, ArgsFilter, Entry, op, value, query_filter, exec_op, ex,
  ex_or, expr, end_,
}
use go_toolkits.Sql.Transaction.{
  Outcome, panics, returns, Gorm, failed, closed, opened, committed, state_of, transaction_ctx,
  Passes, Panics, transaction_ctx_iff,
}
use go_toolkits.Sql.Conditions.{Call, wheres, ors, withs, run, or_else, last_asks, lookup-run}

abbrev print : Value ℕ → Bytes
print v = codes "7"

abbrev request : Assoc Bytes (Value ℕ)
request = (codes "Age", slice (18 ∷ 65 ∷ [])) ∷ (codes "Name", one 7) ∷ []

abbrev filter : ArgsFilter ℕ ℕ
filter = query_filter (some request)

-- The range, a second condition on its field, and one on a field that is not requested.
abbrev calls : List (Call ℕ ℕ)
calls =
    wheres (codes "age") between (codes "Age")
    ∷ wheres (codes "age") eq (codes "Name")
    ∷ wheres (codes "city") eq (codes "City")
    ∷ ors (codes "name") like (codes "Name")
    ∷ withs (λ v. 3) (codes "Name")
    ∷ []

lookup-run_example :
    lookup (codes "age") (run print calls filter).ex
    ≡ or_else
        (last_asks print filter.filter_map (codes "age") calls)
        (lookup (codes "age") filter.ex)
lookup-run_example = lookup-run print (codes "age") calls filter

abbrev ages : Value ℕ
ages = slice (18 ∷ 65 ∷ [])

ends :
    end_ (run print calls filter)
    ≡ ex ((codes "age", op eq (value (one 7))) ∷ [])
      ∷ expr 3
      ∷ ex_or ((codes "name", op like (go_toolkits.Sql.pattern (codes "%7%"))) ∷ [])
      ∷ []
unfolding end_ query_filter exec_op lookup go_toolkits.Sql.conjunction go_toolkits.Sql.disjunction
    go_toolkits.Sql.expressions go_toolkits.Sql.add_with go_toolkits.Sql.requested
    go_toolkits.Sql.add_or go_toolkits.Sql.add_where go_toolkits.Sql.put_where
    go_toolkits.Sql.range_op go_toolkits.Sql.list_op go_toolkits.Sql.like_op go_toolkits.Sql.put_or
    go_toolkits.Base.Bytes.same go_toolkits.Base.Assoc.insert
ends = refl

abbrev crash : Outcome ℕ ℕ
crash = panics 3

-- Begin and Commit succeed; Begin fails.
abbrev gorm : Gorm ℕ
gorm = record { begin_error = none; commit_error = none; invalid = λ e. e }

abbrev refusing : Gorm ℕ
refusing = record { begin_error = some 9; commit_error = none; invalid = λ e. e }

abbrev silent : Outcome ℕ ℕ
silent = returns none

transaction_ctx_iff_example :
    let (steps, err) = transaction_ctx gorm false false crash in
    ((state_of closed steps ≡ committed) ↔ Passes gorm crash)
    × ((err ≡ none) ↔ Passes gorm crash)
    × ((state_of closed steps ≡ opened)
        ↔ ((gorm.begin_error ≡ none) × Panics crash × (false && not false ≡ false)))
transaction_ctx_iff_example = transaction_ctx_iff gorm false false crash

begin_fails : (transaction_ctx refusing true false silent).1 ≡ some (failed 9)
unfolding transaction_ctx go_toolkits.Sql.Transaction.finish
begin_fails = refl
