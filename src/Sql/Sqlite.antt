-- ===== src/Sql/Sqlite.antt =====
-- internal/sqlite/ddl.go: the SQLite dialect.
pub mod Reads
use verix_dbm.Base.{
  ℕ, zero, suc, ◌+◌, ◌-◌, ◌*◌, ◌≤◌, ◌<◌, String, ◌≡◌, refl, sym, ap, ◌∙◌, subst, ◌≢◌, ◌↔◌, ◌⊎◌, inl,
  inr, Bool, true, false, not, ◌&&◌, ◌||◌, Option, none, some, List, [], ◌∷◌, ◌++◌, map, append-nil,
  append_assoc, arith, ltb, leb, ◌==◌, if◌then◌else◌, ==_iff, Bool-cases, Option-cases, Bool-ext,
  length, length-append, All, OneOf, keep_if, keep_if-nil, keep_if-cons, length-keep_if-le, take,
  some_of, some_of-take, some_of-append, some_of-keep_if, some_of_elim, some_of_intro,
  keep_if-OneOf, OneOf-keep_if, keep_if_laws, Bytes, codes, str_eq, str_eq_iff, str_eq_refl,
  contains, contains_iff, contains-cons, contains-append, ◌>>=◌, Result-cases, Result, ok, err,
  max_int, ℤ, pos, negsuc,
}
use verix_dbm.GoStrings.{replace_all, join}
use verix_dbm.Sql.{
  Column, RoleAttrs, FormSpec, FormError, Script, required, unsupported, unknown_kind, clause,
  given, requires,
}

unfoldable pub quote_ident : Bytes → Bytes
quote_ident s = codes "\"" ++ (replace_all b'"' (codes "\"\"") s ++ codes "\"")

abbrev pub main_schema : Bytes
main_schema = codes "main"

unfoldable pub qualified : Bytes → Bytes → Bytes
unfolding quote_ident
qualified schema table =
    if str_eq schema [] || str_eq schema main_schema
    then quote_ident table
    else quote_ident schema ++ (codes "." ++ quote_ident table)

unfoldable pub quote_literal : Bytes → Bytes
quote_literal s = codes "'" ++ (replace_all b'\'' (codes "''") s ++ codes "'")

unfoldable pub drop_table_sql : Bytes → Bytes → Bytes
unfolding qualified
drop_table_sql schema table = codes "DROP TABLE " ++ qualified schema table

unfoldable pub truncate_sql : Bytes → Bytes → Bytes
unfolding qualified
truncate_sql schema table = codes "DELETE FROM " ++ qualified schema table

unfoldable pub drop_column_sql : Bytes → Bytes → Bytes → Bytes
unfolding qualified quote_ident
drop_column_sql schema table column =
    codes "ALTER TABLE "
    ++ (qualified schema table ++ (codes " DROP COLUMN " ++ quote_ident column))

unfoldable pub drop_index_sql : Bytes → Bytes → Bytes → Bytes
unfolding qualified
drop_index_sql schema table name = codes "DROP INDEX " ++ qualified schema name

add_column : FormSpec → Script
unfolding qualified quote_ident
add_column f = (
  (codes "ALTER TABLE "
        ++ (qualified f.schema f.table
            ++ (codes " ADD COLUMN "
                ++ (quote_ident f.name
                    ++ (codes " "
                        ++ (f.type
                            ++ (clause (not f.nullable) (codes " NOT NULL")
                                ++ clause (given f.fallback)
                                    (codes " DEFAULT " ++ f.fallback))))))))
      ∷ [],
  codes "sqlite_ddl_add_column",
)

create_table : FormSpec → Script
unfolding qualified
create_table f = (
  (codes "CREATE TABLE "
        ++ (qualified f.schema f.name ++ (codes " (\n" ++ (f.columns ++ codes "\n)"))))
      ∷ [],
  codes "sqlite_ddl_create_table",
)

create_index : FormSpec → Script
unfolding qualified quote_ident
create_index f = (
  (codes "CREATE "
        ++ (clause f.unique (codes "UNIQUE ")
            ++ (codes "INDEX "
                ++ (quote_ident f.name
                    ++ (codes " ON "
                        ++ (qualified f.schema f.table
                            ++ (codes " (" ++ (f.columns ++ codes ")"))))))))
      ∷ [],
  codes "sqlite_ddl_create_index",
)

unfoldable pub form_sql : FormSpec → Result FormError Script
unfolding add_column create_table create_index qualified
form_sql f =
    if str_eq f.kind (codes "add-column")
    then requires (given f.name && given f.type) "column name and type are required" (add_column f)
    else if str_eq f.kind (codes "rename-table")
    then requires (given f.name) "new name is required" (
      (codes "ALTER TABLE "
            ++ (qualified f.schema f.table ++ (codes " RENAME TO " ++ qualified f.schema f.name)))
          ∷ [],
      codes "sqlite_ddl_rename_table",
    )
    else if str_eq f.kind (codes "new-table")
    then requires (given f.name && given f.columns) "table name and column definitions are required"
        (create_table f)
    else if str_eq f.kind (codes "new-index")
    then requires (given f.name && given f.columns) "index name and columns are required"
        (create_index f)
    else if str_eq f.kind (codes "modify-column")
    then err (
        unsupported
          (codes "SQLite cannot modify a column in place; recreate the table to change its type"))
    else if str_eq f.kind (codes "new-schema")
    then err
        (unsupported (codes "SQLite has a single namespace and does not support creating schemas"))
    else if str_eq f.kind (codes "create-user")
    then err (unsupported (codes "SQLite has no users or roles"))
    else err (unknown_kind f.kind)

-- The generators, at the columns that the database reports.
unfoldable pub gen_select : List Column → Bytes → Bytes → Bytes
unfolding qualified quote_ident
gen_select [] schema table =
    codes "SELECT *\nFROM " ++ (qualified schema table ++ codes "\nLIMIT 100;")
gen_select (c ∷ cols) schema table =
    codes "SELECT "
    ++ (join (codes ", ") (map (λ (d : Column). quote_ident d.name) (c ∷ cols))
        ++ (codes "\nFROM " ++ (qualified schema table ++ codes "\nLIMIT 100;")))

unfoldable pub gen_insert : List Column → Bytes → Bytes → Bytes
unfolding qualified quote_ident
gen_insert cols schema table =
    codes "INSERT INTO "
    ++ (qualified schema table
        ++ (codes " ("
            ++ (join (codes ", ") (map (λ (c : Column). quote_ident c.name) cols)
                ++ (codes ")\nVALUES ("
                    ++ (join (codes ", ") (map (λ (c : Column). codes "null") cols)
                        ++ codes ");")))))

unfoldable pub gen_update : List Column → Bytes → Bytes → Bytes
unfolding qualified quote_ident
gen_update cols schema table =
    codes "UPDATE "
    ++ (qualified schema table
        ++ (codes "\nSET "
            ++ (join (codes ",\n    ") (
                  map (λ (c : Column). quote_ident c.name ++ codes " = null")
                    (keep_if (λ (c : Column). not c.pk) cols))
                ++ codes "\nWHERE <condition>;")))
