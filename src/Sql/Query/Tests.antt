-- ===== src/Sql/Query/Tests.antt =====
-- A table of five rows, a database that cannot count, and the theorems at them.
use go_toolkits.Base.{ℕ, ◌*◌, ◌≡◌, refl, Option, none, List, [], ◌∷◌, arith, length, take, drop}
use go_toolkits.Sql.Query.{
  Result, ok, Goqu, Gorm, DataBase, Answer, offset_of, page_query, query_count,
}
use go_toolkits.Sql.Query.Pages.{Serves, first_pages, first_pages-take}

-- A query on the table: its offset and its limit.
record Select : Type 0 where
  skips : ℕ
  keeps : ℕ

abbrev whole : Select
whole = record { skips = 0; keeps = 5 }

abbrev builder : Goqu Select ℕ Select ℕ
builder = record {
  select = λ xs q. q;
  offset = λ n q. record q { skips = n };
  limit = λ n q. record q { keeps = n };
  count_of = λ q. q;
  to_sql = λ q. ok q;
  explain = λ t. t;
}

abbrev table : List ℕ
table = 10 ∷ 20 ∷ 30 ∷ 40 ∷ 50 ∷ []

abbrev found : Select → List ℕ
found q = take q.keeps (drop q.skips table)

abbrev engine : Option ℕ → Gorm ℕ Select (List ℕ) ℕ
engine count_error = record {
  find = λ d q. (found q, none);
  find_limit = λ d n q. (take n (found q), 1, none);
  scan = λ d q. (found q, none);
  pluck = λ d c q. (found q, none);
  count = λ d q. (length (found q), count_error);
  rows = λ d q. ok (found q);
  explained = λ d q. ok [];
  record_not_found = 404;
}

abbrev db : DataBase ℕ
db = record { gorm = 0 }

table_served : Serves builder (engine none) db whole 0 none table
unfolding go_toolkits.Sql.Query.with_select
table_served = record {
  count_text = whole;
  counts_as = refl;
  counts = refl;
  page_text = λ o l. record { skips = o; keeps = l };
  pages_as = λ o l. refl;
  pages = λ o l p. refl;
}

first_pages-take_example :
    first_pages builder (engine none) db whole 0 none 2 2 ≡ take (2 * 2) table
first_pages-take_example =
    first_pages-take builder (engine none) db whole 0 none table table_served 2 2 (omega arith)
      (omega arith)
