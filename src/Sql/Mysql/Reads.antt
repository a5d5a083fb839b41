-- ===== src/Sql/Mysql/Reads.antt =====
-- Names and values of MySQL statements, as the server's lexer reads them.
use verix_dbm.Base.{
  ℕ, ◌≡◌, refl, inl, inr, false, Option, none, some, [], ◌∷◌, ◌++◌, append_assoc, arith, ◌==◌,
  if◌then◌else◌, ==_iff, Bool-cases, Bytes, codes, str_eq,
}
use verix_dbm.GoStrings.{replace_all}
use verix_dbm.Sql.Quoting.{
  read_quoted, read_name, goes_on, starts_with, read_quoted-wrap, read_name-wrap,
  read_name-wrap_pair, push,
}
use verix_dbm.Sql.Mysql.{quote_ident, qualified, quote_literal}

abbrev pub schema_part : Bytes → Option Bytes
schema_part schema = if str_eq schema [] then none else some schema

quote_ident-read_quoted :
    (s rest : Bytes)
    → starts_with b'`' rest ≡ false
    → read_quoted b'`' (quote_ident s ++ rest) ≡ some (s, rest)
unfolding quote_ident
quote_ident-read_quoted s rest h = read_quoted-wrap b'`' s rest h

-- The server reads a qualified name back as the schema and the table that were given, with no schema
-- when it is empty, and stops where the name ends, if a mark or a dot does not follow.
pub mysql_qualified-read_name :
    (schema table rest : Bytes)
    → goes_on b'`' rest ≡ false
    → read_name b'`' (qualified schema table ++ rest) ≡ some (schema_part schema, table, rest)
unfolding qualified quote_ident
mysql_qualified-read_name schema table rest h = elim (Bool-cases (str_eq schema [])) [
  | inl e ↦ rw e (read_name-wrap b'`' table rest h)
  | inr e ↦ rw e (read_name-wrap_pair b'`' schema table rest refl h)
]

-- Where the server is within a literal: after a plain byte, after a mark, after a backslash.
pub data Mode : Type 0 where
  plain : Mode
  marked : Mode
  escaped : Mode

-- A literal after its opening mark. `letter` is what the byte after a backslash stands for.
unfoldable pub unescape : (ℕ → ℕ) → Mode → Bytes → Option (Bytes × Bytes)
unescape letter marked [] = some ([], [])
unescape letter _ [] = none
unescape letter escaped (c ∷ s) = push (letter c) (unescape letter plain s)
unescape letter marked (c ∷ s) =
    let rest = unescape letter plain s in if c == b'\'' then push b'\'' rest else some ([], c ∷ s)
unescape letter plain (c ∷ s) =
    let rest = unescape letter plain s in
    let mark = unescape letter marked s in
    let escape = unescape letter escaped s in
    if c == b'\'' then mark else if c == b'\\' then escape else push c rest

unfoldable pub read_literal : (ℕ → ℕ) → Bytes → Option (Bytes × Bytes)
unfolding unescape
read_literal letter [] = none
read_literal letter (c ∷ s) = if c == b'\'' then unescape letter plain s else none

abbrev doubled : Bytes → Bytes
doubled s = replace_all b'\'' (codes "''") (replace_all b'\\' (codes "\\\\") s)

unescape-end :
    (letter : ℕ → ℕ) (rest : Bytes)
    → starts_with b'\'' rest ≡ false
    → unescape letter plain (b'\'' ∷ rest) ≡ some ([], rest)
unfolding unescape starts_with
unescape-end letter [] h = refl
unescape-end letter (c ∷ rest) h = ground arith

unescape-doubled :
    (letter : ℕ → ℕ) (s rest : Bytes)
    → letter b'\\' ≡ b'\\'
    → starts_with b'\'' rest ≡ false
    → unescape letter plain (doubled s ++ b'\'' ∷ rest) ≡ some (s, rest)
unfolding unescape replace_all
unescape-doubled letter [] rest l h = unescape-end letter rest h
unescape-doubled letter (c ∷ s) rest l h = elim (Bool-cases (c == b'\\')) [
  | inl e ↦ rw (e, l, unescape-doubled letter s rest l h, (==_iff c b'\\').0 e)
  | inr e ↦ elim (Bool-cases (c == b'\'')) [
    | inl e' ↦ rw (e, e', unescape-doubled letter s rest l h, (==_iff c b'\'').0 e')
    | inr e' ↦ rw (e, e', unescape-doubled letter s rest l h) (rw (e', e) refl)
  ]
]

-- Where a backslash stands for itself after a backslash, the server reads a quoted value back as it
-- was given, and stops where the literal ends, if no mark follows.
pub mysql_literal-read_literal :
    (letter : ℕ → ℕ) (s rest : Bytes)
    → letter b'\\' ≡ b'\\'
    → starts_with b'\'' rest ≡ false
    → read_literal letter (quote_literal s ++ rest) ≡ some (s, rest)
unfolding quote_literal read_literal
mysql_literal-read_literal letter s rest l h =
    rw (append_assoc (doubled s) (codes "'") rest) (unescape-doubled letter s rest l h)
