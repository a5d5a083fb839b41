-- ===== src/Examples/Sql.antt =====
-- Names and values with marks in them, a role, a form and a script.
use verix_dbm.Base.{
  ℕ, ◌≡◌, refl, inl, inr, Bool, true, false, not, ◌&&◌, some, List, [], ◌∷◌, ◌++◌, map, arith, ◌==◌,
  if◌then◌else◌, Bool-cases, All, keep_if-nil, keep_if-cons, some_of, Bytes, codes, str_eq,
}
use verix_dbm.Sql.{RoleAttrs, FormSpec}
use verix_dbm.Sql.Quoting.{starts_with, read_name, read_quoted}
use verix_dbm.Sql.Mysql
use verix_dbm.Sql.Postgres
use verix_dbm.Sql.Sqlite
use verix_dbm.Sql.Mysql.Reads.{read_literal, schema_part}
use verix_dbm.Sql.Sqlite.Reads.{sqlite_qualified-read_name, sqlite_literal-read_quoted}
use verix_dbm.Sql.Sqlite.Reads
use verix_dbm.Sql.Reads.{qualified-read_name, quote_literal-read_literal}
use verix_dbm.GoMap.{lookup}
use verix_dbm.Sql.Families.{family}
use verix_dbm.Sql.Screens.{server_side, server_side_blocked, server_side_blocked-OneOf}
use verix_dbm.Examples.Auth.{writer}
use verix_dbm.Sql.Confirm.{
  closes, strip_blocks, strip_lines, is_destructive, is_change, has_where, stmt_needs_confirm,
  needs_confirm,
}
use verix_dbm.GoStrings.{
  split, add_head, join, lower, has_prefix, contains_byte, trim_space, trim_left, trim_right,
  is_space,
}
use verix_dbm.Regex.{is_word, is_blank, at_edge, run_many, run_one, run, search, matches, word}
use verix_dbm.Sql.Forms.{form_sql_lem, accepts, is_filled, sqlite_refuses}
use verix_dbm.Sql.Confirm.Comments.{
  Part, text, block, line, code, bare, has_pair, needs_confirm-join,
}
use verix_dbm.Sql.Scripts.{
  Driver, IsTransactional, run_statements, end_transaction, exec_script_lem, exec_script, exec_all,
  all_or_nothing, wanted, postgres_settings,
}

-- A name and a value that try to end their quotes.
abbrev evil : Bytes
evil = codes "t`; DROP"

abbrev evil_value : Bytes
evil_value = codes "\\' OR 1"

abbrev tail : Bytes
tail = codes " LIMIT 1"

-- What a letter after a backslash stands for: line feeds and tabs, and else itself.
abbrev letter : ℕ → ℕ
letter c = if c == b'n' then 10 else if c == b't' then 9 else c

qualified-read_name_example :
    (read_name b'`' (Mysql.qualified (codes "db") evil ++ tail)
      ≡ some (schema_part (codes "db"), evil, tail))
    × (read_name b'"' (Sqlite.qualified (codes "db") evil ++ tail)
        ≡ some (Reads.schema_part (codes "db"), evil, tail))
    × (read_name b'"' (Postgres.qualified (codes "db") evil ++ tail)
        ≡ some (some (codes "db"), evil, tail))
qualified-read_name_example = qualified-read_name (codes "db") evil tail refl refl

ends_value : starts_with b'\'' tail ≡ false
unfolding starts_with
ends_value = refl

quote_literal-read_literal_example :
    (read_literal letter (Mysql.quote_literal evil_value ++ tail) ≡ some (evil_value, tail))
    × (read_quoted b'\'' (Sqlite.quote_literal evil_value ++ tail) ≡ some (evil_value, tail))
    × (read_quoted b'\'' (Postgres.quote_literal evil_value ++ tail) ≡ some (evil_value, tail))
quote_literal-read_literal_example =
    quote_literal-read_literal letter evil_value tail refl ends_value

abbrev reader : RoleAttrs
reader = record {
  login = true;
  super = false;
  create_db = false;
  create_role = true;
  password = codes "pw";
  host = [];
}

abbrev new_user : FormSpec
new_user = record {
  kind = codes "create-user";
  schema = [];
  table = [];
  column = [];
  name = codes "ann";
  type = [];
  fallback = [];
  columns = [];
  nullable = false;
  unique = false;
  owner = [];
  role = reader;
}

form_sql_lem_example :
    (accepts (Mysql.form_sql new_user) ≡ is_filled new_user)
    × (accepts (Postgres.form_sql new_user) ≡ is_filled new_user)
    × (accepts (Sqlite.form_sql new_user)
        ≡ (is_filled new_user && not (sqlite_refuses new_user.kind)))
form_sql_lem_example = form_sql_lem new_user

-- A database that is the list of what was executed, with the list at the begin of a transaction. One
-- statement is refused, and COMMIT ends the transaction, so that a rollback keeps what came before.
abbrev journal : Driver (List Bytes) (List Bytes × List Bytes)
journal = record {
  begin = λ db. some (db, db);
  exec = λ (saved, db) s.
      if str_eq s (codes "BAD")
      then ((saved, db), false)
      else if str_eq s (codes "COMMIT")
      then ((db, db), true)
      else ((saved, db ++ s ∷ []), true);
  commit = λ (saved, db). (db, true);
  rollback = λ (saved, db). saved;
}

abbrev BegunAt : List Bytes → List Bytes × List Bytes → Type 0
BegunAt db t = t.0 ≡ db

abbrev no_commit : Bytes → Bool
no_commit s = not (str_eq s (codes "COMMIT"))

journal-stays :
    (db : List Bytes) (t : List Bytes × List Bytes) (s : Bytes)
    → no_commit s ≡ true
    → BegunAt db t
    → BegunAt db (journal.exec t s).0
journal-stays db t s k o = elim (Bool-cases (str_eq s (codes "BAD"))) [
  | inl e ↦ rw e o
  | inr e ↦ elim (Bool-cases (str_eq s (codes "COMMIT"))) [
    | inl f ↦ ground (arith, k, f)
    | inr f ↦ rw (e, f) o
  ]
]

journal-IsTransactional : IsTransactional journal BegunAt no_commit
journal-IsTransactional = record {
  begins = λ db t k. ground (arith, k);
  goes_on = journal-stays;
  rolls_back = λ db t o. o;
  commits = λ db t o k. ground (arith, k);
}

abbrev script : List Bytes
script = codes " A " ∷ codes " " ∷ codes "BAD" ∷ []

script-stays : All (λ (s : Bytes). no_commit s ≡ true) (postgres_settings ++ wanted journal script)
unfolding wanted str_eq trim_space trim_left trim_right is_space
script-stays =
    (refl, (refl, rw (keep_if-cons, keep_if-cons, keep_if-cons, keep_if-nil) (refl, (refl, tt))))

exec_script_lem_example :
    exec_script journal postgres_settings [] script
    ≡ all_or_nothing journal []
        (exec_all journal ([], []) (postgres_settings ++ wanted journal script))
exec_script_lem_example =
    exec_script_lem journal BegunAt no_commit journal-IsTransactional postgres_settings [] script
      script-stays

-- A script that commits for itself and then fails has changed the database.
committed :
    exec_script journal [] [] (codes "A" ∷ codes "COMMIT" ∷ codes "BAD" ∷ [])
    ≡ (codes "A" ∷ [], false)
unfolding exec_script run_statements end_transaction exec_all str_eq trim_space trim_left trim_right
    is_space
committed = refl

abbrev harmless : List Part
harmless = text (codes "SELECT 1 - 2 / 3 ") ∷ line (codes " ; drop") ∷ []

abbrev drops : List Part
drops = block (codes " one; two *") ∷ text (codes " Drop table t") ∷ []

needs_confirm-join_example :
    needs_confirm (join (codes ";") (code harmless ∷ code drops ∷ []))
    ≡ some_of stmt_needs_confirm (bare harmless ∷ bare drops ∷ [])
unfolding contains_byte has_pair
needs_confirm-join_example =
    needs_confirm-join harmless (drops ∷ [])
      (((refl, refl, refl), ((refl, refl), tt)), ((refl, ((refl, refl, refl), tt)), tt))

-- A comment hides nothing, a condition lifts the confirmation, and a longer word is another one.
confirmations :
    map needs_confirm (
      codes "SELECT 1; /* x */ Drop table t"
      ∷ codes "delete from t where id=1"
      ∷ codes "/*x*/DELETE from t -- where"
      ∷ codes "dropped"
      ∷ [])
    ≡ true ∷ false ∷ true ∷ false ∷ []
unfolding needs_confirm stmt_needs_confirm strip_blocks strip_lines closes is_destructive is_change
    has_where split add_head matches search run run_one run_many is_word is_blank at_edge word
    has_prefix lower some_of
confirmations = refl

-- A filter that reads a file is refused, whatever the order that comes with it.
reads_file : server_side_blocked writer (codes "postgres") (codes "pg_read_file('x')" ∷ []) ≡ true
unfolding server_side_blocked server_side family lookup join str_eq matches search run run_one
    run_many is_word is_blank at_edge word has_prefix lower
reads_file = refl

server_side_blocked-OneOf_example :
    server_side_blocked writer (codes "postgres") (codes "id = 1" ∷ codes "pg_read_file('x')" ∷ [])
    ≡ true
server_side_blocked-OneOf_example =
    server_side_blocked-OneOf writer (codes "postgres") _ (codes "pg_read_file('x')")
      (inr (inl refl)) reads_file
