-- ===== src/Sql/Reads.antt =====
-- Names and values of the statements of all three dialects, as the servers read them back.
use verix_dbm.Base.{ℕ, ◌≡◌, false, some, ◌++◌, Bytes}
use verix_dbm.Sql.Quoting.{goes_on, starts_with, read_name, read_quoted}
use verix_dbm.Sql.Mysql
use verix_dbm.Sql.Sqlite
use verix_dbm.Sql.Postgres
use verix_dbm.Sql.Mysql.Reads.{
  schema_part, read_literal, mysql_qualified-read_name, mysql_literal-read_literal,
}
use verix_dbm.Sql.Sqlite.Reads
use verix_dbm.Sql.Postgres.Reads.{postgres_qualified-read_name, postgres_literal-read_quoted}

-- The server reads a qualified name back as the schema and the table that were given, and stops
-- where the name ends, if a mark or a dot does not follow. In MySQL there is no schema when it is
-- empty, in SQLite when it is empty or `main`.
pub qualified-read_name :
    (schema table rest : Bytes)
    → goes_on b'`' rest ≡ false
    → goes_on b'"' rest ≡ false
    → (read_name b'`' (Mysql.qualified schema table ++ rest)
        ≡ some (schema_part schema, table, rest))
      × (read_name b'"' (Sqlite.qualified schema table ++ rest)
          ≡ some (Reads.schema_part schema, table, rest))
      × (read_name b'"' (Postgres.qualified schema table ++ rest) ≡ some (some schema, table, rest))
qualified-read_name schema table rest h k = (
  mysql_qualified-read_name schema table rest h,
  Reads.sqlite_qualified-read_name schema table rest k,
  postgres_qualified-read_name schema table rest k,
)

-- Where a backslash stands for itself after a backslash in a MySQL literal, and a backslash is a
-- plain byte in those of SQLite and Postgres: the server reads a quoted value back as it was given,
-- and stops where the literal ends, if no mark follows.
pub quote_literal-read_literal :
    (letter : ℕ → ℕ) (s rest : Bytes)
    → letter b'\\' ≡ b'\\'
    → starts_with b'\'' rest ≡ false
    → (read_literal letter (Mysql.quote_literal s ++ rest) ≡ some (s, rest))
      × (read_quoted b'\'' (Sqlite.quote_literal s ++ rest) ≡ some (s, rest))
      × (read_quoted b'\'' (Postgres.quote_literal s ++ rest) ≡ some (s, rest))
quote_literal-read_literal letter s rest l h = (
  mysql_literal-read_literal letter s rest l h,
  Reads.sqlite_literal-read_quoted s rest h,
  postgres_literal-read_quoted s rest h,
)
