-- ===== src/Sql/Postgres/Reads.antt =====
-- Names and values of Postgres statements, as the server's lexer reads them.
use verix_dbm.Base.{◌≡◌, refl, false, some, ◌++◌, Bytes}
use verix_dbm.Sql.Quoting.{
  read_quoted, read_name, goes_on, starts_with, read_quoted-wrap, read_name-wrap_pair,
}
use verix_dbm.Sql.Postgres.{quote_ident, qualified, quote_literal}

-- The server reads a qualified name back as the schema and the table that were given, also when they
-- are empty, and stops where the name ends, if a mark or a dot does not follow.
pub postgres_qualified-read_name :
    (schema table rest : Bytes)
    → goes_on b'"' rest ≡ false
    → read_name b'"' (qualified schema table ++ rest) ≡ some (some schema, table, rest)
unfolding qualified quote_ident
postgres_qualified-read_name schema table rest h = read_name-wrap_pair b'"' schema table rest refl h

-- The value that a literal stands for is read back as it was given, and reading stops where the
-- literal ends, if no mark follows.
pub postgres_literal-read_quoted :
    (s rest : Bytes)
    → starts_with b'\'' rest ≡ false
    → read_quoted b'\'' (quote_literal s ++ rest) ≡ some (s, rest)
unfolding quote_literal
postgres_literal-read_quoted s rest h = read_quoted-wrap b'\'' s rest h
