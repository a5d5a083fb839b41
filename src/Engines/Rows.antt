-- ===== src/Engines/Rows.antt =====
-- The cap on the rows of a result.
use verix_dbm.Base.{
  ℕ, zero, suc, ◌≡◌, refl, ap, true, Option, none, List, [], ◌∷◌, map, arith, ltb, length, take,
  Bytes, Result, ok,
}
use verix_dbm.Web.Responses.{Table}
use verix_dbm.Engines.{
  Cursor, Querier, mysql_returns_rows, sqlite_returns_rows, with_max_exec_hint, max_rows,
  shown_cell, fetched, row_table, ended, read_rows, mysql_run_statement, sqlite_run_statement,
}

fetched-take :
    (n : ℕ) (rows : List (List (Option Bytes)))
    → fetched n (map ok rows) ≡ ok (take n (map (map shown_cell) rows), ltb n (length rows))
unfolding fetched
fetched-take zero [] = refl
fetched-take zero (r ∷ rs) = ap (λ b. ok ([], b)) (ground arith)
fetched-take (suc n) [] = ap (λ b. ok ([], b)) (ground arith)
fetched-take (suc n) (r ∷ rs) =
    rw (fetched-take n rs)
      (ap (λ b. ok (map shown_cell r ∷ take n (map (map shown_cell) rs), b)) (ground arith))

-- The first thousand rows, and whether there are more.
abbrev pub IsCapped :
    Cursor → List (List (Option Bytes)) → Result (Bytes × Option Table) Table → Type 0
IsCapped c rows result =
    (t : Table) × (result ≡ ok t)
    × (t.columns ≡ c.columns)
    × (t.is_select ≡ true)
    × (t.rows ≡ take max_rows (map (map shown_cell) rows))
    × (t.truncated ≡ ltb max_rows (length rows))

read_rows-IsCapped :
    (c : Cursor) (rows : List (List (Option Bytes)))
    → c.rows ≡ map ok rows
    → c.failure ≡ none
    → IsCapped c rows (read_rows (ok c))
unfolding read_rows ended row_table
read_rows-IsCapped c rows h k =
    let t =
      row_table c.columns (take max_rows (map (map shown_cell) rows), ltb max_rows (length rows)) in
    (t, rw (read_rows, h, fetched-take max_rows rows, k) refl, refl, refl, refl, refl)

-- Where every row can be read: a statement of MySQL or of SQLite that returns rows gives the first
-- thousand of them in their order, with the sign for NULL in its place, and is marked truncated
-- exactly if there are more.
pub run_statement-IsCapped :
    (q : Querier) (sql : Bytes) (c : Cursor) (rows : List (List (Option Bytes)))
    → c.rows ≡ map ok rows
    → c.failure ≡ none
    → (mysql_returns_rows sql ≡ true
        → q.query (with_max_exec_hint sql) ≡ ok c
        → IsCapped c rows (mysql_run_statement q sql))
      × (sqlite_returns_rows sql ≡ true
          → q.query sql ≡ ok c
          → IsCapped c rows (sqlite_run_statement q sql))
unfolding mysql_run_statement sqlite_run_statement
run_statement-IsCapped q sql c rows h k = (
  (λ r a. rw (r, a) (read_rows-IsCapped c rows h k)),
  (λ r a. rw (r, a) (read_rows-IsCapped c rows h k)),
)
