-- ===== src/Sql/Query/Failing.antt =====
-- sql/sql.go: queries whose count fails in the database.
use go_toolkits.Base.{ℕ, ◌≡◌, refl, Option, none, some, List}
use go_toolkits.Sql.Query.{
  ok, Goqu, Gorm, DataBase, offset_of, with_select, count_with, counted, query_count, find_with,
  with_count, page_after, page_query,
}

module _ {Q X T D R E : Type 0} (goqu : Goqu Q X T E) (gorm : Gorm D T R E) where
  -- If the count fails in the database with any error, QueryCount answers 0 and no error, and PageQuery
  -- goes on: where its rows are found, it answers them with the count 0 and without an error.
  pub page_query_count_fails :
      (db : DataBase D) (q : Q) (scaner : D) (index size : ℕ) (ex : Option (List X))
      (count_text page_text : T) (n : ℕ) (e : E) (rows : R)
      → goqu.to_sql (goqu.count_of (with_select goqu gorm ex q)) ≡ ok count_text
      → gorm.count db.gorm count_text ≡ (n, some e)
      → goqu.to_sql
          (goqu.limit size (goqu.offset (offset_of index size) (with_select goqu gorm ex q)))
        ≡ ok page_text
      → gorm.find scaner page_text ≡ (rows, none)
      → (query_count goqu gorm db q ex ≡ (0, none))
        × (page_query goqu gorm db q scaner index size ex
            ≡ (0, record { out = some rows; error = none }))
  unfolding page_query page_after query_count count_with counted find_with with_count
  page_query_count_fails db q scaner index size ex ct pt n e rows h1 h2 h3 h4 =
      (rw (h1, h2) refl, rw (h1, h2, h3, h4) refl)
