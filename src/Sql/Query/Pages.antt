-- ===== src/Sql/Query/Pages.antt =====
-- sql/sql.go: PageQuery over a table, page by page.
use go_toolkits.Base.{
  ℕ, zero, suc, ◌+◌, ◌-◌, ◌*◌, ◌%◌, ◌^◌, ◌<◌, ◌≤◌, ◌≡◌, refl, sym, ◌∙◌, ap, Option, none, some,
  List, [], ◌∷◌, ◌++◌, arith, length, take, drop, take-nil,
}
use go_toolkits.Sql.Query.{
  ok, Goqu, Gorm, DataBase, Answer, offset_of, with_select, count_with, counted, query_count,
  find_with, with_count, page_after, page_query,
}

offset_of-suc : (n size : ℕ) → 0 < size → n * size < 2 ^ 64 → offset_of (suc n) size ≡ n * size
unfolding offset_of
offset_of-suc n size p h =
    let l : n ≤ n * size = grind arith in
    let m : (suc n + (2 ^ 64 - 1)) % 2 ^ 64 ≡ n = omega (arith, l, h) in
    ap (λ k. k * size % 2 ^ 64) m ∙ omega (arith, h)

offset_of-zero : (size : ℕ) → 0 < size → size ≤ 2 ^ 64 → offset_of 0 size ≡ 2 ^ 64 - size
unfolding offset_of
offset_of-zero size p h = omega (arith, p, h)

take_more : {A : Type 0} (a b : ℕ) (xs : List A) → take (a + b) xs ≡ take a xs ++ take b (drop a xs)
take_more zero b xs = ap (λ n. take n xs) (omega arith)
take_more (suc a) b [] = take-nil (suc a + b) ∙ sym (take-nil b)
take_more (suc a) b (x ∷ xs) =
    ap (λ n. take n (x ∷ xs)) {y = suc (a + b)} (omega arith) ∙ ap (λ ys. x ∷ ys) (take_more a b xs)

module _ {Q X T D E A : Type 0} (goqu : Goqu Q X T E) (gorm : Gorm D T (List A) E) where
  -- The database answers the query as SQL says: the number of its rows, and with an offset and a limit
  -- the rows behind the one and as many as the other.
  pub record Serves (db : DataBase D) (q : Q) (scaner : D) (ex : Option (List X)) (rows : List A)
      : Type 0 where
    pub count_text : T
    pub counts_as : goqu.to_sql (goqu.count_of (with_select goqu gorm ex q)) ≡ ok count_text
    pub counts : gorm.count db.gorm count_text ≡ (length rows, none)
    pub page_text : ℕ → ℕ → T
    pub pages_as :
        (o l : ℕ)
        → goqu.to_sql (goqu.limit l (goqu.offset o (with_select goqu gorm ex q)))
          ≡ ok (page_text o l)
    pub pages : (o l : ℕ) → 0 < l → gorm.find scaner (page_text o l) ≡ (take l (drop o rows), none)

  page_query-Serves :
      (db : DataBase D) (q : Q) (scaner : D) (ex : Option (List X)) (rows : List A)
      → Serves db q scaner ex rows
      → (index size : ℕ) → 0 < size
      → page_query goqu gorm db q scaner index size ex ≡ (
        length rows,
        record { out = some (take size (drop (offset_of index size) rows)); error = none },
      )
  unfolding page_query page_after query_count count_with counted find_with with_count
  page_query-Serves db q scaner ex rows s index size p =
      rw
        (
          s.counts_as,
          s.counts,
          s.pages_as (offset_of index size) size,
          s.pages (offset_of index size) size p,
        )
        refl

  -- The rows of a page.
  abbrev pub page_rows : ℕ × Answer (List A) E → List A
  page_rows (n, a) = elim a.out [ none ↦ [] | some rows ↦ rows ]

  -- The rows of the pages 1 to n, one after the other.
  abbrev pub first_pages : DataBase D → Q → D → Option (List X) → ℕ → ℕ → List A
  first_pages db q scaner ex size zero = []
  first_pages db q scaner ex size (suc n) =
      first_pages db q scaner ex size n
      ++ page_rows (page_query goqu gorm db q scaner (suc n) size ex)

  -- If the database answers offsets and limits as SQL says, the pages 1 to n that PageQuery asks for
  -- are together the first n * size rows, in their order, as long as this number is below 2 ^ 64.
  pub first_pages-take :
      (db : DataBase D) (q : Q) (scaner : D) (ex : Option (List X)) (rows : List A)
      → Serves db q scaner ex rows
      → (size n : ℕ) → 0 < size
      → n * size < 2 ^ 64
      → first_pages db q scaner ex size n ≡ take (n * size) rows
  first_pages-take db q scaner ex rows s size zero p h = ap (λ k. take k rows) {x = 0} (grind arith)
  first_pages-take db q scaner ex rows s size (suc n) p h =
      let l : n * size < 2 ^ 64 = grind arith in
      let page = ap page_rows (page_query-Serves db q scaner ex rows s (suc n) size p) in
      ap (λ ys. ys ++ page_rows (page_query goqu gorm db q scaner (suc n) size ex))
        (first_pages-take db q scaner ex rows s size n p l)
      ∙ ap (λ ys. take (n * size) rows ++ ys)
          (page ∙ ap (λ o. take size (drop o rows)) (offset_of-suc n size p l))
      ∙ sym (take_more (n * size) size rows)
      ∙ ap (λ k. take k rows) (grind arith)
