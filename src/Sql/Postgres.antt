-- ===== src/Sql/Postgres.antt =====
-- internal/postgres/ddl.go and the dialect half of internal/postgres/engine.go.
pub mod Reads
pub mod Roles
use verix_dbm.Base.{
  ℕ, zero, suc, ◌+◌, ◌-◌, ◌*◌, ◌≤◌, ◌<◌, String, ◌≡◌, refl, sym, ap, ◌∙◌, subst, ◌≢◌, ◌↔◌, ◌⊎◌, inl,
  inr, Bool, true, false, not, ◌&&◌, ◌||◌, Option, none, some, List, [], ◌∷◌, ◌++◌, map, append-nil,
  append_assoc, arith, ltb, leb, ◌==◌, if◌then◌else◌, ==_iff, Bool-cases, Option-cases, Bool-ext,
  length, length-append, All, OneOf, keep_if, keep_if-nil, keep_if-cons, length-keep_if-le, take,
  some_of, some_of-take, some_of-append, some_of-keep_if, some_of_elim, some_of_intro,
  keep_if-OneOf, OneOf-keep_if, keep_if_laws, Bytes, codes, str_eq, str_eq_iff, str_eq_refl,
  contains, contains_iff, contains-cons, contains-append, ◌>>=◌, Result-cases, Result, ok, err,
  max_int, ℤ, pos, negsuc,
}
use verix_dbm.GoStrings.{replace_all, join}
use verix_dbm.Sql.{
  Column, Index, TableKey, RoleAttrs, FormSpec, FormError, Script, required, unknown_kind, clause,
  given, requires, statement_if, renames,
}

unfoldable pub quote_ident : Bytes → Bytes
quote_ident s = codes "\"" ++ (replace_all b'"' (codes "\"\"") s ++ codes "\"")

unfoldable pub qualified : Bytes → Bytes → Bytes
unfolding quote_ident
qualified schema table = quote_ident schema ++ (codes "." ++ quote_ident table)

unfoldable pub quote_literal : Bytes → Bytes
quote_literal s = codes "'" ++ (replace_all b'\'' (codes "''") s ++ codes "'")

unfoldable pub drop_table_sql : Bytes → Bytes → Bytes
unfolding qualified
drop_table_sql schema table = codes "DROP TABLE " ++ qualified schema table

unfoldable pub truncate_sql : Bytes → Bytes → Bytes
unfolding qualified
truncate_sql schema table = codes "TRUNCATE TABLE " ++ qualified schema table

unfoldable pub drop_column_sql : Bytes → Bytes → Bytes → Bytes
unfolding qualified quote_ident
drop_column_sql schema table column =
    codes "ALTER TABLE "
    ++ (qualified schema table ++ (codes " DROP COLUMN " ++ quote_ident column))

unfoldable pub drop_index_sql : Bytes → Bytes → Bytes → Bytes
unfolding qualified
drop_index_sql schema table name = codes "DROP INDEX " ++ qualified schema name

unfoldable pub drop_schema_sql : Bytes → Bool → List Bytes
unfolding quote_ident
drop_schema_sql name cascade =
    (codes "DROP SCHEMA " ++ (quote_ident name ++ clause cascade (codes " CASCADE"))) ∷ []

unfoldable pub alter_schema_sql : Bytes → Bytes → Bytes → List Bytes
unfolding quote_ident
alter_schema_sql name new_name owner =
    statement_if (given owner)
      (codes "ALTER SCHEMA " ++ (quote_ident name ++ (codes " OWNER TO " ++ quote_ident owner)))
    ++ statement_if (renames name new_name) (
        codes "ALTER SCHEMA "
        ++ (quote_ident name ++ (codes " RENAME TO " ++ quote_ident new_name)))

-- `flag` of `roleOptions`, as the list of what it adds.
unfoldable pub flag : Bool → Bool → Bytes → Bytes → List Bytes
flag explicit on text negated = if on then text ∷ [] else statement_if explicit negated

unfoldable pub role_options : RoleAttrs → Bool → List Bytes
unfolding flag quote_literal
role_options a explicit =
    flag explicit a.login (codes "LOGIN") (codes "NOLOGIN")
    ++ (flag explicit a.super (codes "SUPERUSER") (codes "NOSUPERUSER")
        ++ (flag explicit a.create_db (codes "CREATEDB") (codes "NOCREATEDB")
            ++ (flag explicit a.create_role (codes "CREATEROLE") (codes "NOCREATEROLE")
                ++ statement_if (given a.password)
                    (codes "PASSWORD " ++ quote_literal a.password))))

with_options : Bytes → List Bytes → Bytes
with_options stmt [] = stmt
with_options stmt (o ∷ opts) = stmt ++ (codes " WITH " ++ join (codes " ") (o ∷ opts))

unfoldable pub create_role_sql : Bytes → RoleAttrs → Bytes
unfolding quote_ident role_options with_options
create_role_sql name a =
    with_options (codes "CREATE ROLE " ++ quote_ident name) (role_options a false)

altered : Bytes → List Bytes → List Bytes
unfolding quote_ident
altered name [] = []
altered name (o ∷ opts) =
    (codes "ALTER ROLE " ++ (quote_ident name ++ (codes " WITH " ++ join (codes " ") (o ∷ opts))))
    ∷ []

unfoldable pub alter_role_sql : Bytes → Bytes → RoleAttrs → List Bytes
unfolding quote_ident role_options altered
alter_role_sql name new_name a =
    altered name (role_options a true)
    ++ statement_if (renames name new_name)
        (codes "ALTER ROLE " ++ (quote_ident name ++ (codes " RENAME TO " ++ quote_ident new_name)))

unfoldable pub drop_role_sql : Bytes → Bytes
unfolding quote_ident
drop_role_sql name = codes "DROP ROLE " ++ quote_ident name

add_column : FormSpec → Script
unfolding qualified quote_ident
add_column f = (
  (codes "ALTER TABLE "
        ++ (qualified f.schema f.table
            ++ (codes " ADD COLUMN "
                ++ (quote_ident f.name
                    ++ (codes " "
                        ++ (f.type
                            ++ (clause (not f.nullable) (codes " NOT NULL")
                                ++ clause (given f.fallback)
                                    (codes " DEFAULT " ++ f.fallback))))))))
      ∷ [],
  codes "pg_ddl_add_column",
)

modify_column : FormSpec → Script
unfolding qualified quote_ident
modify_column f =
    let col = codes "ALTER COLUMN " ++ quote_ident f.column in
    (
      (codes "ALTER TABLE "
            ++ (qualified f.schema f.table
                ++ (codes " "
                    ++ join (codes ", ") (
                        (col ++ (codes " TYPE " ++ f.type))
                        ∷ (col ++ codes (if f.nullable then " DROP NOT NULL" else " SET NOT NULL"))
                        ∷ (if given f.fallback
                            then col ++ (codes " SET DEFAULT " ++ f.fallback)
                            else col ++ codes " DROP DEFAULT")
                        ∷ []))))
          ∷ [],
      codes "pg_ddl_modify_column",
    )

create_table : FormSpec → Script
unfolding qualified
create_table f = (
  (codes "CREATE TABLE "
        ++ (qualified f.schema f.name ++ (codes " (\n" ++ (f.columns ++ codes "\n)"))))
      ∷ [],
  codes "pg_ddl_create_table",
)

create_index : FormSpec → Script
unfolding qualified quote_ident
create_index f = (
  (codes "CREATE "
        ++ (clause f.unique (codes "UNIQUE ")
            ++ (codes "INDEX "
                ++ (quote_ident f.name
                    ++ (codes " ON "
                        ++ (qualified f.schema f.table
                            ++ (codes " (" ++ (f.columns ++ codes ")"))))))))
      ∷ [],
  codes "pg_ddl_create_index",
)

unfoldable pub form_sql : FormSpec → Result FormError Script
unfolding add_column modify_column create_table create_index create_role_sql qualified quote_ident
form_sql f =
    if str_eq f.kind (codes "add-column")
    then requires (given f.name && given f.type) "column name and type are required" (add_column f)
    else if str_eq f.kind (codes "modify-column")
    then requires (given f.type) "type is required" (modify_column f)
    else if str_eq f.kind (codes "rename-table")
    then requires (given f.name) "new name is required" (
      (codes "ALTER TABLE "
            ++ (qualified f.schema f.table ++ (codes " RENAME TO " ++ quote_ident f.name)))
          ∷ [],
      codes "pg_ddl_rename_table",
    )
    else if str_eq f.kind (codes "new-schema")
    then requires (given f.name) "schema name is required" (
      (codes "CREATE SCHEMA "
            ++ (quote_ident f.name
                ++ clause (given f.owner) (codes " AUTHORIZATION " ++ quote_ident f.owner)))
          ∷ [],
      codes "pg_ddl_create_schema",
    )
    else if str_eq f.kind (codes "new-table")
    then requires (given f.name && given f.columns) "table name and column definitions are required"
        (create_table f)
    else if str_eq f.kind (codes "new-index")
    then requires (given f.name && given f.columns) "index name and columns are required"
        (create_index f)
    else if str_eq f.kind (codes "create-user")
    then requires (given f.name) "role name is required"
        (create_role_sql f.name f.role ∷ [], codes "pg_ddl_create_role")
    else err (unknown_kind f.kind)

-- The generators, at the columns that the database reports.
unfoldable pub gen_select : List Column → Bytes → Bytes → Bytes
unfolding qualified quote_ident
gen_select [] schema table =
    codes "SELECT *\nFROM " ++ (qualified schema table ++ codes "\nLIMIT 100;")
gen_select (c ∷ cols) schema table =
    codes "SELECT "
    ++ (join (codes ", ") (map (λ (d : Column). quote_ident d.name) (c ∷ cols))
        ++ (codes "\nFROM " ++ (qualified schema table ++ codes "\nLIMIT 100;")))

unfoldable pub gen_insert : List Column → Bytes → Bytes → Bytes
unfolding qualified quote_ident
gen_insert cols schema table =
    codes "INSERT INTO "
    ++ (qualified schema table
        ++ (codes " ("
            ++ (join (codes ", ") (map (λ (c : Column). quote_ident c.name) cols)
                ++ (codes ")\nVALUES ("
                    ++ (join (codes ", ") (map (λ (c : Column). codes "null") cols)
                        ++ codes ");")))))

unfoldable pub gen_update : List Column → Bytes → Bytes → Bytes
unfolding qualified quote_ident
gen_update cols schema table =
    codes "UPDATE "
    ++ (qualified schema table
        ++ (codes "\nSET "
            ++ (join (codes ",\n    ") (
                  map (λ (c : Column). quote_ident c.name ++ codes " = null")
                    (keep_if (λ (c : Column). not c.pk) cols))
                ++ codes "\nWHERE <condition>;")))

column_line : Column → Bytes
unfolding quote_ident
column_line c =
    codes "    "
    ++ (quote_ident c.name
        ++ (codes " "
            ++ (c.kind
                ++ (clause c.not_null (codes " NOT NULL")
                    ++ clause (given c.fallback) (codes " DEFAULT " ++ c.fallback)))))

key_line : TableKey → Bytes
unfolding quote_ident
key_line k = codes "    CONSTRAINT " ++ (quote_ident k.name ++ (codes " " ++ k.definition))

-- Is the index one that no constraint stands for?
unfoldable pub is_standalone : List TableKey → Index → Bool
is_standalone keys ix = not (contains (map (λ (k : TableKey). k.name) keys) ix.name || ix.primary)

index_lines : List Index → Bytes
index_lines [] = []
index_lines (ix ∷ ixs) = codes "\n\n" ++ (ix.definition ++ (codes ";" ++ index_lines ixs))

unfoldable pub create_table_ddl : List Column → List TableKey → List Index → Bytes → Bytes → Bytes
unfolding qualified column_line key_line is_standalone index_lines
create_table_ddl cols keys idx schema table =
    codes "CREATE TABLE "
    ++ (qualified schema table
        ++ (codes " (\n"
            ++ (join (codes ",\n") (map column_line cols ++ map key_line keys)
                ++ (codes "\n);" ++ index_lines (keep_if (is_standalone keys) idx)))))
