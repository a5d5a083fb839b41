-- ===== src/Sql/Dialects.antt =====
-- `Dialect` of internal/dbsql/dbsql.go, filled by internal/mysql/ddl.go, internal/sqlite/ddl.go and
-- internal/postgres/engine.go: the builders of statements that the handlers call.
use verix_dbm.Base.{Bool, List, [], ◌∷◌, Bytes, Result}
use verix_dbm.Registry.{Family}
use verix_dbm.Sql.{FormSpec, FormError, RoleAttrs, Script}
use verix_dbm.Sql.Mysql
use verix_dbm.Sql.Sqlite
use verix_dbm.Sql.Postgres

pub record Dialect : Type 0 where
  pub drop_table_sql : Bytes → Bytes → Bytes
  pub truncate_sql : Bytes → Bytes → Bytes
  pub drop_column_sql : Bytes → Bytes → Bytes → Bytes
  pub drop_index_sql : Bytes → Bytes → Bytes → Bytes
  pub drop_schema_sql : Bytes → Bool → List Bytes
  pub alter_schema_sql : Bytes → Bytes → Bytes → List Bytes
  pub alter_user_sql : Bytes → Bytes → RoleAttrs → List Bytes
  pub drop_user_sql : Bytes → Bytes → List Bytes
  pub form_sql : FormSpec → Result FormError Script

abbrev pub mysql_dialect : Dialect
mysql_dialect = record {
  drop_table_sql = Mysql.drop_table_sql;
  truncate_sql = Mysql.truncate_sql;
  drop_column_sql = Mysql.drop_column_sql;
  drop_index_sql = Mysql.drop_index_sql;
  drop_schema_sql = Mysql.drop_schema_sql;
  alter_schema_sql = Mysql.alter_schema_sql;
  alter_user_sql = Mysql.alter_user_sql;
  drop_user_sql = Mysql.drop_user_sql;
  form_sql = Mysql.form_sql;
}

-- SQLite has neither schemas nor users.
abbrev pub sqlite_dialect : Dialect
sqlite_dialect = record {
  drop_table_sql = Sqlite.drop_table_sql;
  truncate_sql = Sqlite.truncate_sql;
  drop_column_sql = Sqlite.drop_column_sql;
  drop_index_sql = Sqlite.drop_index_sql;
  drop_schema_sql = λ name cascade. [];
  alter_schema_sql = λ name new_name owner. [];
  alter_user_sql = λ name new_name a. [];
  drop_user_sql = λ name host. [];
  form_sql = Sqlite.form_sql;
}

abbrev pub postgres_dialect : Dialect
postgres_dialect = record {
  drop_table_sql = Postgres.drop_table_sql;
  truncate_sql = Postgres.truncate_sql;
  drop_column_sql = Postgres.drop_column_sql;
  drop_index_sql = Postgres.drop_index_sql;
  drop_schema_sql = Postgres.drop_schema_sql;
  alter_schema_sql = Postgres.alter_schema_sql;
  alter_user_sql = Postgres.alter_role_sql;
  drop_user_sql = λ name host. Postgres.drop_role_sql name ∷ [];
  form_sql = Postgres.form_sql;
}

-- The dialect of the engine that a pool serves.
unfoldable pub dialect : Family → Dialect
dialect Family.mysql = mysql_dialect
dialect Family.sqlite = sqlite_dialect
dialect _ = postgres_dialect
