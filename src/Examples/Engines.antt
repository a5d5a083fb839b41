-- ===== src/Examples/Engines.antt =====
-- A database of one table, and a catalogue of three rows.
use verix_dbm.Base.{
  ◌≡◌, refl, true, Option, none, some, List, [], ◌∷◌, map, Bytes, codes, str_eq, ok, err, pos,
}
use verix_dbm.GoStrings.{upper, to_upper}
use verix_dbm.Engines.{
  Cursor, Querier, in_cutset, trim_cutset, until_one_of, first_word, mysql_returns_rows,
  sqlite_returns_rows, rest_from, with_max_exec_hint, mysql_run_statement, sqlite_run_statement,
}
use verix_dbm.Engines.Rows.{IsCapped, run_statement-IsCapped}
use verix_dbm.Engines.Trees.{Relation, Row, schemas, schema_of, first_seen, schemas_lem}

abbrev cells : List (List (Option Bytes))
cells = (some (codes "1") ∷ none ∷ []) ∷ []

abbrev cursor : Cursor
cursor = record { columns = codes "id" ∷ codes "x" ∷ []; rows = map ok cells; failure = none }

abbrev one_table : Querier
one_table = record { query = λ sql. ok cursor; exec = λ sql. err (codes "denied") }

run_statement-IsCapped_example :
    (mysql_returns_rows (codes "SELECT 1") ≡ true
      → one_table.query (with_max_exec_hint (codes "SELECT 1")) ≡ ok cursor
      → IsCapped cursor cells (mysql_run_statement one_table (codes "SELECT 1")))
    × (sqlite_returns_rows (codes "SELECT 1") ≡ true
        → one_table.query (codes "SELECT 1") ≡ ok cursor
        → IsCapped cursor cells (sqlite_run_statement one_table (codes "SELECT 1")))
run_statement-IsCapped_example =
    run_statement-IsCapped one_table (codes "SELECT 1") cursor cells refl refl

-- A select in parentheses is mangled.
mangled :
    with_max_exec_hint (codes "(SELECT 1)") ≡ codes "SELECT /*+ MAX_EXECUTION_TIME(30000) */ T 1)"
unfolding with_max_exec_hint first_word trim_cutset until_one_of in_cutset rest_from to_upper upper
    str_eq
mangled = refl

abbrev table_in : Bytes → Bytes → Relation
table_in schema name = record {
  schema = schema;
  name = name;
  kind = codes "table";
  est_rows = pos 0;
}

abbrev catalogue : List Row
catalogue =
    (record { schema = codes "a"; table = some (table_in (codes "a") (codes "t")) })
    ∷ (record { schema = codes "b"; table = none })
    ∷ (record { schema = codes "a"; table = some (table_in (codes "a") (codes "u")) })
    ∷ []

schemas_lem_example : schemas catalogue ≡ map (schema_of catalogue) (first_seen [] catalogue)
schemas_lem_example = schemas_lem catalogue
