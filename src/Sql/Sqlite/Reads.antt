-- ===== src/Sql/Sqlite/Reads.antt =====
-- Names and values of SQLite statements, as the server's lexer reads them.
use verix_dbm.Base.{
  ◌≡◌, refl, inl, inr, false, ◌||◌, Option, none, some, [], ◌++◌, if◌then◌else◌, Bool-cases, Bytes,
  str_eq,
}
use verix_dbm.Sql.Quoting.{
  read_quoted, read_name, goes_on, starts_with, read_quoted-wrap, read_name-wrap,
  read_name-wrap_pair,
}
use verix_dbm.Sql.Sqlite.{quote_ident, qualified, quote_literal, main_schema}

abbrev pub schema_part : Bytes → Option Bytes
schema_part schema = if str_eq schema [] || str_eq schema main_schema then none else some schema

-- The library reads a qualified name back as the schema and the table that were given, with no schema
-- when it is empty or `main`, and stops where the name ends, if a mark or a dot does not follow.
pub sqlite_qualified-read_name :
    (schema table rest : Bytes)
    → goes_on b'"' rest ≡ false
    → read_name b'"' (qualified schema table ++ rest) ≡ some (schema_part schema, table, rest)
unfolding qualified quote_ident
sqlite_qualified-read_name schema table rest h =
    elim (Bool-cases (str_eq schema [] || str_eq schema main_schema)) [
      | inl e ↦ rw e (read_name-wrap b'"' table rest h)
      | inr e ↦ rw e (read_name-wrap_pair b'"' schema table rest refl h)
    ]

-- The value that a literal stands for is read back as it was given, and reading stops where the
-- literal ends, if no mark follows.
pub sqlite_literal-read_quoted :
    (s rest : Bytes)
    → starts_with b'\'' rest ≡ false
    → read_quoted b'\'' (quote_literal s ++ rest) ≡ some (s, rest)
unfolding quote_literal
sqlite_literal-read_quoted s rest h = read_quoted-wrap b'\'' s rest h
