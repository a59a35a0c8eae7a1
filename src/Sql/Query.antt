-- ===== src/Sql/Query.antt =====
-- sql/sql.go: the queries of DataBase. Q stands for goqu's queries and X for its columns, T for the
-- text of a query with its arguments, D for a gorm.DB, R for what it scans rows into, and E for
-- errors; goqu and gorm are parameters. An int64 is its representative below 2 ^ 64, as is a uint.
pub mod Pages
pub mod Failing
mod Tests
use go_toolkits.Base.{
  ℕ, ◌+◌, ◌-◌, ◌*◌, ◌%◌, ◌^◌, Bool, true, false, Option, none, some, List, [], ◌∷◌, ◌==◌,
  if◌then◌else◌,
}
use go_toolkits.Base.Bytes.{Bytes}

-- A Go pair of a value and an error, of which one is nil.
pub data Result (E A : Type 0) : Type 0 where
  ok : A → Result E A
  failed : E → Result E A

-- What goqu does: Select, Offset, Limit, the count of a query as a subquery, and ToSQL.
pub record Goqu (Q X T E : Type 0) : Type 0 where
  pub select : List X → Q → Q
  pub offset : ℕ → Q → Q
  pub limit : ℕ → Q → Q
  pub count_of : Q → Q
  pub to_sql : Q → Result E T
  pub explain : T → T

-- What gorm does with Raw: Find, with the number of affected rows, Scan, Pluck, Count and Rows, and
-- ScanRows for each row of an explanation; and its ErrRecordNotFound.
pub record Gorm (D T R E : Type 0) : Type 0 where
  pub find : D → T → R × Option E
  pub find_limit : D → ℕ → T → R × ℕ × Option E
  pub scan : D → T → R × Option E
  pub pluck : D → Bytes → T → R × Option E
  pub count : D → T → ℕ × Option E
  pub rows : D → T → Result E R
  pub explained : D → T → Result E (List (Result E ℕ))
  pub record_not_found : E

-- DataBase, as far as the queries read it: its gorm.DB.
pub record DataBase (D : Type 0) : Type 0 where
  pub gorm : D

-- What is left in outRows, if it was written to, and the error.
pub record Answer (R E : Type 0) : Type 0 where
  pub out : Option R
  pub error : Option E

-- uint((pageIndex - 1) * pageSize)
pub offset_of : ℕ → ℕ → ℕ
offset_of index size = (index + (2 ^ 64 - 1)) % 2 ^ 64 * size % 2 ^ 64

module _ {Q X T D R E : Type 0} (goqu : Goqu Q X T E) (gorm : Gorm D T R E) where
  -- The selection, if there is one.
  pub with_select : Option (List X) → Q → Q
  with_select none q = q
  with_select (some xs) q = goqu.select xs q

  -- The end of QueryCount: it gives err in place of result.Error, and err is nil there.
  pub counted : ℕ × Option E → ℕ × Option E
  counted (n, none) = (n, none)
  counted (n, some e) = (0, none)

  pub count_with : DataBase D → Result E T → ℕ × Option E
  count_with db (failed e) = (0, some e)
  count_with db (ok t) = counted (gorm.count db.gorm t)

  -- QueryCount
  pub query_count : DataBase D → Q → Option (List X) → ℕ × Option E
  query_count db q ex = count_with db (goqu.to_sql (goqu.count_of (with_select ex q)))

  -- convertToExplainResult
  pub convert_to_explain_result : List (Result E ℕ) → ℕ × Option E
  convert_to_explain_result [] = (0, some gorm.record_not_found)
  convert_to_explain_result (ok n ∷ rows) = (n, none)
  convert_to_explain_result (failed e ∷ rows) = (0, some e)

  pub explain_rows : Result E (List (Result E ℕ)) → ℕ × Option E
  explain_rows (failed e) = (0, some e)
  explain_rows (ok rows) = convert_to_explain_result rows

  pub explain_with : DataBase D → Result E T → ℕ × Option E
  explain_with db (failed e) = (0, some e)
  explain_with db (ok t) = explain_rows (gorm.explained db.gorm (goqu.explain t))

  -- QueryCountWithExplain
  pub query_count_with_explain : DataBase D → Q → Option (List X) → ℕ × Option E
  query_count_with_explain db q ex =
      explain_with db (goqu.to_sql (goqu.count_of (with_select ex q)))

  -- The scan of Query, PageQuery and PageQueryWithExplain.
  pub find_with : D → Result E T → Answer R E
  find_with scaner (failed e) = record { out = none; error = some e }
  find_with scaner (ok t) =
      let (out, err) = gorm.find scaner t in record { out = some out; error = err }

  pub with_count : Option E → ℕ → Answer R E → ℕ × Answer R E
  with_count none n a = (n, a)
  with_count (some e) n a = (0, a)

  -- The rest of PageQuery and PageQueryWithExplain, after the count.
  pub page_after : ℕ × Option E → D → Q → ℕ → ℕ → Option (List X) → ℕ × Answer R E
  page_after (n, some e) scaner q index size ex = (0, record { out = none; error = some e })
  page_after (n, none) scaner q index size ex =
      let page = goqu.limit size (goqu.offset (offset_of index size) (with_select ex q)) in
      let a = find_with scaner (goqu.to_sql page) in with_count a.error n a

  -- PageQuery
  pub page_query : DataBase D → Q → D → ℕ → ℕ → Option (List X) → ℕ × Answer R E
  page_query db q scaner index size ex = page_after (query_count db q ex) scaner q index size ex

  -- PageQueryWithExplain
  pub page_query_with_explain : DataBase D → Q → D → ℕ → ℕ → Option (List X) → ℕ × Answer R E
  page_query_with_explain db q scaner index size ex =
      page_after (query_count_with_explain db q ex) scaner q index size ex

  -- Query
  pub query : Q → D → Option (List X) → Answer R E
  query q scaner ex = find_with scaner (goqu.to_sql (with_select ex q))

  pub scan_with : DataBase D → Result E T → Answer R E
  scan_with db (failed e) = record { out = none; error = some e }
  scan_with db (ok t) =
      let (out, err) = gorm.scan db.gorm t in record { out = some out; error = err }

  -- QueryAll
  pub query_all : DataBase D → Q → Option (List X) → Answer R E
  query_all db q ex = scan_with db (goqu.to_sql (with_select ex q))

  pub pluck_with : DataBase D → Bytes → Result E T → Answer R E
  pluck_with db column (failed e) = record { out = none; error = some e }
  pluck_with db column (ok t) =
      let (out, err) = gorm.pluck db.gorm column t in record { out = some out; error = err }

  -- QueryPluck
  pub query_pluck : DataBase D → Q → Bytes → Answer R E
  query_pluck db q column = pluck_with db column (goqu.to_sql q)

  pub first_error : ℕ → Option E → Option E
  first_error n (some e) = some e
  first_error n none = if n == 0 then some gorm.record_not_found else none

  pub first_with : D → Result E T → Answer R E
  first_with scaner (failed e) = record { out = none; error = some e }
  first_with scaner (ok t) =
      let (out, n, err) = gorm.find_limit scaner 1 t in
      record { out = some out; error = first_error n err }

  -- QueryFirst
  pub query_first : Q → D → Option (List X) → Answer R E
  query_first q scaner ex = first_with scaner (goqu.to_sql (with_select ex q))

  pub rows_with : D → Result E T → Result E R
  rows_with scaner (failed e) = failed e
  rows_with scaner (ok t) = gorm.rows scaner t

  -- QueryRows
  pub query_rows : Q → D → Option (List X) → Result E R
  query_rows q scaner ex = rows_with scaner (goqu.to_sql (with_select ex q))
