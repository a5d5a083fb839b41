-- ===== src/Engines.antt =====
-- internal/mysql/mysql.go and internal/sqlite/sqlite.go: how a statement is run, and how the rows
-- that come back are made a result.
pub mod Trees
pub mod Rows
use verix_dbm.Base.{
  ℕ, zero, suc, ◌+◌, ◌-◌, ◌*◌, ◌≤◌, ◌<◌, String, ◌≡◌, refl, sym, ap, ◌∙◌, subst, ◌≢◌, ◌↔◌, ◌⊎◌, inl,
  inr, Bool, true, false, not, ◌&&◌, ◌||◌, Option, none, some, List, [], ◌∷◌, ◌++◌, map, append-nil,
  append_assoc, arith, ltb, leb, ◌==◌, if◌then◌else◌, ==_iff, Bool-cases, Option-cases, Bool-ext,
  length, length-append, All, OneOf, keep_if, keep_if-nil, keep_if-cons, length-keep_if-le, take,
  some_of, some_of-take, some_of-append, some_of-keep_if, some_of_elim, some_of_intro,
  keep_if-OneOf, OneOf-keep_if, keep_if_laws, Bytes, codes, str_eq, str_eq_iff, str_eq_refl,
  contains, contains_iff, contains-cons, contains-append, format_int, ◌>>=◌, Result-cases, guard-ok,
  Result, ok, err, max_int, wrapped, ℤ, pos, negsuc,
}
use verix_dbm.GoStrings.{to_upper, trim_space}
use verix_dbm.Sql.{given}
use verix_dbm.Sql.Mysql
use verix_dbm.Sql.Sqlite
use verix_dbm.Web.Responses.{Table}

-- The rows of a query: its columns, each row (or why it cannot be scanned; NULL is none), and the
-- error that ends them.
pub record Cursor : Type 0 where
  pub columns : List Bytes
  pub rows : List (Result Bytes (List (Option Bytes)))
  pub failure : Option Bytes

-- `querier`: a pool, a connection or a transaction of database/sql.
pub record Querier : Type 0 where
  pub query : Bytes → Result Bytes Cursor
  pub exec : Bytes → Result Bytes ℤ

unfoldable pub in_cutset : List ℕ → ℕ → Bool
in_cutset [] c = false
in_cutset (d ∷ ds) c = let rest = in_cutset ds c in (d == c) || rest

-- `strings.TrimLeft`
unfoldable pub trim_cutset : List ℕ → Bytes → Bytes
unfolding in_cutset
trim_cutset set [] = []
trim_cutset set (c ∷ s) = let rest = trim_cutset set s in if in_cutset set c then rest else c ∷ s

unfoldable pub until_one_of : List ℕ → Bytes → Bytes
unfolding in_cutset
until_one_of set [] = []
until_one_of set (c ∷ s) = let rest = until_one_of set s in if in_cutset set c then [] else c ∷ rest

abbrev pub blank_bytes : List ℕ
blank_bytes = b' ' ∷ 9 ∷ 13 ∷ 10 ∷ []

unfoldable pub first_word : Bytes → Bytes
unfolding trim_cutset until_one_of
first_word s =
    to_upper (until_one_of (b'(' ∷ b';' ∷ blank_bytes) (trim_cutset (b'(' ∷ blank_bytes) s))

abbrev pub mysql_row_words : List String
mysql_row_words =
    "SELECT" ∷ "SHOW" ∷ "DESC" ∷ "DESCRIBE" ∷ "EXPLAIN" ∷ "WITH" ∷ "TABLE" ∷ "VALUES" ∷ "CALL"
    ∷ "ANALYZE" ∷ "CHECK" ∷ "HELP" ∷ []

abbrev pub sqlite_row_words : List String
sqlite_row_words = "SELECT" ∷ "WITH" ∷ "VALUES" ∷ "PRAGMA" ∷ "EXPLAIN" ∷ []

unfoldable pub mysql_returns_rows : Bytes → Bool
unfolding first_word
mysql_returns_rows sql = contains (map codes mysql_row_words) (first_word sql)

unfoldable pub sqlite_returns_rows : Bytes → Bool
unfolding first_word
sqlite_returns_rows sql = contains (map codes sqlite_row_words) (first_word sql)

unfoldable pub command_tag : Bytes → Bytes
unfolding first_word
command_tag sql = if given (first_word sql) then first_word sql else codes "OK"

-- `trimmed[n:]`
unfoldable pub rest_from : ℕ → Bytes → Bytes
rest_from zero s = s
rest_from (suc n) [] = []
rest_from (suc n) (c ∷ s) = rest_from n s

unfoldable pub with_max_exec_hint : Bytes → Bytes
unfolding first_word trim_cutset rest_from
with_max_exec_hint sql =
    let trimmed = trim_cutset blank_bytes sql in
    if str_eq (first_word trimmed) (codes "SELECT")
    then codes "SELECT /*+ MAX_EXECUTION_TIME(30000) */ " ++ rest_from 6 trimmed
    else sql

abbrev pub max_rows : ℕ
max_rows = 1000

-- The sign that stands for NULL.
unfoldable pub shown_cell : Option Bytes → Bytes
shown_cell none = 226 ∷ 136 ∷ 133 ∷ []
shown_cell (some b) = b

-- The loop over the rows: `room` is what is left of the limit. The Boolean tells whether it was cut
-- short.
unfoldable pub fetched :
    ℕ → List (Result Bytes (List (Option Bytes))) → Result Bytes (List (List Bytes) × Bool)
unfolding shown_cell
fetched room [] = ok ([], false)
fetched zero (r ∷ rs) = ok ([], true)
fetched (suc room) (r ∷ rs) = do
  row ← r
  rest ← fetched room rs
  ok (map shown_cell row ∷ rest.0, rest.1)

row_table : List Bytes → List (List Bytes) × Bool → Table
row_table columns (rows, truncated) = record {
  columns = columns;
  rows = rows;
  is_select = true;
  rows_affected = pos 0;
  command = [];
  truncated = truncated;
}

-- The error that ends the rows comes with those before it; it is not met where they are cut short.
ended : Option Bytes → Table → Result (Bytes × Option Table) Table
ended none t = ok t
ended (some e) t = if t.truncated then ok t else err (e, some t)

unfoldable pub read_rows : Result Bytes Cursor → Result (Bytes × Option Table) Table
unfolding fetched row_table ended
read_rows (err e) = err (e, none)
read_rows (ok c) = elim (fetched max_rows c.rows) [
  | err e ↦ err (e, none)
  | ok found ↦ ended c.failure (row_table c.columns found)
]

unfoldable pub executed : Bytes → Result Bytes ℤ → Result (Bytes × Option Table) Table
unfolding command_tag
executed sql (err e) = err (e, none)
executed sql (ok affected) = ok (record {
  columns = [];
  rows = [];
  is_select = false;
  rows_affected = affected;
  command = command_tag sql;
  truncated = false;
})

unfoldable pub mysql_run_statement : Querier → Bytes → Result (Bytes × Option Table) Table
unfolding read_rows executed mysql_returns_rows with_max_exec_hint
mysql_run_statement q sql =
    if mysql_returns_rows sql
    then read_rows (q.query (with_max_exec_hint sql))
    else executed sql (q.exec sql)

unfoldable pub sqlite_run_statement : Querier → Bytes → Result (Bytes × Option Table) Table
unfolding read_rows executed sqlite_returns_rows
sqlite_run_statement q sql =
    if sqlite_returns_rows sql then read_rows (q.query sql) else executed sql (q.exec sql)

-- The limit in `BrowseWhere`.
unfoldable pub browse_size : ℤ → ℕ
browse_size (negsuc n) = 100
browse_size (pos n) = if (n == 0) || ltb max_rows n then 100 else n

-- The query of `BrowseWhere` at the qualified name of a table.
unfoldable pub browse_sql : Bytes → Bytes → Bytes → ℤ → ℕ → Bytes
unfolding browse_size
browse_sql table filter order limit offset =
    let w = trim_space filter in
    let o = trim_space order in
    codes "SELECT * FROM "
    ++ (table
        ++ ((if given w then codes " WHERE " ++ w else [])
            ++ ((if given o then codes " ORDER BY " ++ o else [])
                ++ (codes " LIMIT "
                    ++ (format_int (browse_size limit)
                        ++ (codes " OFFSET " ++ format_int offset))))))
