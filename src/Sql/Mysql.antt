-- ===== src/Sql/Mysql.antt =====
-- internal/mysql/ddl.go: the MySQL dialect.
pub mod Reads
use verix_dbm.Base.{
  ℕ, zero, suc, ◌+◌, ◌-◌, ◌*◌, ◌≤◌, ◌<◌, String, ◌≡◌, refl, sym, ap, ◌∙◌, subst, ◌≢◌, ◌↔◌, ◌⊎◌, inl,
  inr, Bool, true, false, not, ◌&&◌, ◌||◌, Option, none, some, List, [], ◌∷◌, ◌++◌, map, append-nil,
  append_assoc, arith, ltb, leb, ◌==◌, if◌then◌else◌, ==_iff, Bool-cases, Option-cases, Bool-ext,
  length, length-append, All, OneOf, keep_if, keep_if-nil, keep_if-cons, length-keep_if-le, take,
  some_of, some_of-take, some_of-append, some_of-keep_if, some_of_elim, some_of_intro,
  keep_if-OneOf, OneOf-keep_if, keep_if_laws, Bytes, codes, str_eq, str_eq_iff, str_eq_refl,
  contains, contains_iff, contains-cons, contains-append, ◌>>=◌, Result-cases, Result, ok, err,
  max_int, ℤ, pos, negsuc,
}
use verix_dbm.GoStrings.{replace_all, join}
use verix_dbm.Sql.{
  Column, RoleAttrs, FormSpec, FormError, Script, unknown_kind, clause, given, requires,
  statement_if, renames,
}

unfoldable pub quote_ident : Bytes → Bytes
quote_ident s = codes "`" ++ (replace_all b'`' (codes "``") s ++ codes "`")

unfoldable pub qualified : Bytes → Bytes → Bytes
unfolding quote_ident
qualified schema table =
    if str_eq schema []
    then quote_ident table
    else quote_ident schema ++ (codes "." ++ quote_ident table)

unfoldable pub quote_literal : Bytes → Bytes
quote_literal s =
    codes "'" ++ (replace_all b'\'' (codes "''") (replace_all b'\\' (codes "\\\\") s) ++ codes "'")

unfoldable pub drop_table_sql : Bytes → Bytes → Bytes
unfolding qualified
drop_table_sql schema table = codes "DROP TABLE " ++ qualified schema table

unfoldable pub truncate_sql : Bytes → Bytes → Bytes
unfolding qualified
truncate_sql schema table = codes "TRUNCATE TABLE " ++ qualified schema table

unfoldable pub drop_column_sql : Bytes → Bytes → Bytes → Bytes
unfolding qualified quote_ident
drop_column_sql schema table column =
    codes "ALTER TABLE "
    ++ (qualified schema table ++ (codes " DROP COLUMN " ++ quote_ident column))

unfoldable pub drop_index_sql : Bytes → Bytes → Bytes → Bytes
unfolding qualified quote_ident
drop_index_sql schema table name =
    codes "ALTER TABLE " ++ (qualified schema table ++ (codes " DROP INDEX " ++ quote_ident name))

unfoldable pub drop_schema_sql : Bytes → Bool → List Bytes
unfolding quote_ident
drop_schema_sql name cascade = (codes "DROP DATABASE " ++ quote_ident name) ∷ []

unfoldable pub alter_schema_sql : Bytes → Bytes → Bytes → List Bytes
alter_schema_sql name new_name owner = []

unfoldable pub user_host : Bytes → Bytes → Bytes
unfolding quote_literal
user_host name host =
    quote_literal name ++ (codes "@" ++ quote_literal (if str_eq host [] then codes "%" else host))

unfoldable pub grants_for : Bytes → RoleAttrs → List Bytes
grants_for uh a =
    statement_if a.super (codes "GRANT SUPER ON *.* TO " ++ uh)
    ++ (statement_if a.create_db (codes "GRANT CREATE ON *.* TO " ++ uh)
        ++ statement_if a.create_role (codes "GRANT CREATE USER ON *.* TO " ++ uh))

unfoldable pub alter_user_sql : Bytes → Bytes → RoleAttrs → List Bytes
unfolding user_host grants_for quote_literal
alter_user_sql name new_name a =
    let old = user_host name a.host in
    let uh = if renames name new_name then user_host new_name a.host else old in
    statement_if (renames name new_name) (codes "RENAME USER " ++ (old ++ (codes " TO " ++ uh)))
    ++ (statement_if (given a.password)
          (codes "ALTER USER " ++ (uh ++ (codes " IDENTIFIED BY " ++ quote_literal a.password)))
        ++ ((codes "ALTER USER "
              ++ (uh ++ codes (if a.login then " ACCOUNT UNLOCK" else " ACCOUNT LOCK")))
            ∷ grants_for uh a))

unfoldable pub drop_user_sql : Bytes → Bytes → List Bytes
unfolding user_host
drop_user_sql name host = (codes "DROP USER " ++ user_host name host) ∷ []

add_column : FormSpec → Script
unfolding qualified quote_ident
add_column f = (
  (codes "ALTER TABLE "
        ++ (qualified f.schema f.table
            ++ (codes " ADD COLUMN "
                ++ (quote_ident f.name
                    ++ (codes " "
                        ++ (f.type
                            ++ (clause (not f.nullable) (codes " NOT NULL")
                                ++ clause (given f.fallback)
                                    (codes " DEFAULT " ++ f.fallback))))))))
      ∷ [],
  codes "mysql_ddl_add_column",
)

modify_column : FormSpec → Script
unfolding qualified quote_ident
modify_column f = (
  (codes "ALTER TABLE "
        ++ (qualified f.schema f.table
            ++ (codes " MODIFY COLUMN "
                ++ (quote_ident f.column
                    ++ (codes " "
                        ++ (f.type
                            ++ (codes (if f.nullable then " NULL" else " NOT NULL")
                                ++ clause (given f.fallback)
                                    (codes " DEFAULT " ++ f.fallback))))))))
      ∷ [],
  codes "mysql_ddl_modify_column",
)

create_table : FormSpec → Script
unfolding qualified
create_table f = (
  (codes "CREATE TABLE "
        ++ (qualified f.schema f.name ++ (codes " (\n" ++ (f.columns ++ codes "\n)"))))
      ∷ [],
  codes "mysql_ddl_create_table",
)

create_index : FormSpec → Script
unfolding qualified quote_ident
create_index f = (
  (codes "CREATE "
        ++ (clause f.unique (codes "UNIQUE ")
            ++ (codes "INDEX "
                ++ (quote_ident f.name
                    ++ (codes " ON "
                        ++ (qualified f.schema f.table
                            ++ (codes " (" ++ (f.columns ++ codes ")"))))))))
      ∷ [],
  codes "mysql_ddl_create_index",
)

create_user : FormSpec → Script
unfolding user_host quote_literal grants_for
create_user f =
    let uh = user_host f.name f.role.host in
    (
      (codes "CREATE USER "
            ++ (uh
                ++ clause (given f.role.password)
                    (codes " IDENTIFIED BY " ++ quote_literal f.role.password)))
          ∷ (statement_if (not f.role.login) (codes "ALTER USER " ++ (uh ++ codes " ACCOUNT LOCK"))
              ++ grants_for uh f.role),
      codes "mysql_ddl_create_user",
    )

unfoldable pub form_sql : FormSpec → Result FormError Script
unfolding add_column modify_column create_table create_index create_user qualified quote_ident
form_sql f =
    if str_eq f.kind (codes "add-column")
    then requires (given f.name && given f.type) "column name and type are required" (add_column f)
    else if str_eq f.kind (codes "modify-column")
    then requires (given f.type) "type is required" (modify_column f)
    else if str_eq f.kind (codes "rename-table")
    then requires (given f.name) "new name is required" (
      (codes "ALTER TABLE "
            ++ (qualified f.schema f.table ++ (codes " RENAME TO " ++ qualified f.schema f.name)))
          ∷ [],
      codes "mysql_ddl_rename_table",
    )
    else if str_eq f.kind (codes "new-schema")
    then requires (given f.name) "database name is required"
        ((codes "CREATE DATABASE " ++ quote_ident f.name) ∷ [], codes "mysql_ddl_create_schema")
    else if str_eq f.kind (codes "new-table")
    then requires (given f.name && given f.columns) "table name and column definitions are required"
        (create_table f)
    else if str_eq f.kind (codes "new-index")
    then requires (given f.name && given f.columns) "index name and columns are required"
        (create_index f)
    else if str_eq f.kind (codes "create-user")
    then requires (given f.name) "user name is required" (create_user f)
    else err (unknown_kind f.kind)

-- The generators, at the columns that the database reports.
unfoldable pub gen_select : List Column → Bytes → Bytes → Bytes
unfolding qualified quote_ident
gen_select [] schema table =
    codes "SELECT *\nFROM " ++ (qualified schema table ++ codes "\nLIMIT 100;")
gen_select (c ∷ cols) schema table =
    codes "SELECT "
    ++ (join (codes ", ") (map (λ (d : Column). quote_ident d.name) (c ∷ cols))
        ++ (codes "\nFROM " ++ (qualified schema table ++ codes "\nLIMIT 100;")))

unfoldable pub gen_insert : List Column → Bytes → Bytes → Bytes
unfolding qualified quote_ident
gen_insert cols schema table =
    codes "INSERT INTO "
    ++ (qualified schema table
        ++ (codes " ("
            ++ (join (codes ", ") (map (λ (c : Column). quote_ident c.name) cols)
                ++ (codes ")\nVALUES ("
                    ++ (join (codes ", ") (map (λ (c : Column). codes "null") cols)
                        ++ codes ");")))))

unfoldable pub gen_update : List Column → Bytes → Bytes → Bytes
unfolding qualified quote_ident
gen_update cols schema table =
    codes "UPDATE "
    ++ (qualified schema table
        ++ (codes "\nSET "
            ++ (join (codes ",\n    ") (
                  map (λ (c : Column). quote_ident c.name ++ codes " = null")
                    (keep_if (λ (c : Column). not c.pk) cols))
                ++ codes "\nWHERE <condition>;")))
