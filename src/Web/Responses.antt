-- ===== src/Web/Responses.antt =====
-- internal/web: what a handler answers. `writeJSON` sends a status and an object, here the list of
-- its fields; an error of another part stands for its text.
use verix_dbm.Base.{
  ℕ, zero, suc, ◌-◌, String, Bool, true, Option, List, [], ◌∷◌, ◌++◌, map, if◌then◌else◌, length,
  Bytes, codes, ℤ,
}
use verix_dbm.GoStrings.{has_prefix}
use verix_dbm.Crypto.{CryptoError}
use verix_dbm.Store.{Connection, Audit}
use verix_dbm.Registry.{OpenError}
use verix_dbm.Sql.{Column, Index, TableKey, FormError}
use verix_dbm.Sql.Families.{cat}
use verix_dbm.Mongo.{CommandError}
use verix_dbm.Web.Egress.{EgressError}

-- `dbsql.Result`; the duration is left out.
pub record Table : Type 0 where
  pub columns : List Bytes
  pub rows : List (List Bytes)
  pub is_select : Bool
  pub rows_affected : ℤ
  pub command : Bytes
  pub truncated : Bool

-- A connection as the browser sees it.
pub record ConnDto : Type 0 where
  pub id : ℕ
  pub name : Bytes
  pub kind : Bytes
  pub host : Bytes
  pub port : ℤ
  pub db_name : Bytes
  pub username : Bytes
  pub options : Bytes
  pub read_only : Bool

unfoldable pub to_conn_dto : Connection → ConnDto
to_conn_dto c = record {
  id = c.id;
  name = c.name;
  kind = c.kind;
  host = c.host;
  port = c.port;
  db_name = c.db_name;
  username = c.username;
  options = c.options;
  read_only = c.read_only;
}

pub record ColumnDto : Type 0 where
  pub name : Bytes
  pub kind : Bytes
  pub type_text : Bytes
  pub cat : Bytes
  pub not_null : Bool
  pub fallback : Bytes
  pub pk : Bool
  pub auto_inc : Bool

-- `strings.ReplaceAll` of a text by another: `skip` is the number of bytes still to be dropped.
unfoldable pub replaced : Bytes → Bytes → ℕ → Bytes → Bytes
replaced old new skip [] = []
replaced old new (suc skip) (c ∷ s) = replaced old new skip s
replaced old new zero (c ∷ s) =
    let dropped = replaced old new (length old - 1) s in
    let kept = replaced old new 0 s in if has_prefix (c ∷ s) old then new ++ dropped else c ∷ kept

-- `Column.TypeText`
unfoldable pub type_text : Column → Bytes
unfolding replaced
type_text c =
    let t = replaced (codes "character varying") (codes "varchar") 0 c.kind in
    let u = replaced (codes "timestamp without time zone") (codes "timestamp") 0 t in
    let v = replaced (codes "time without time zone") (codes "time") 0 u in
    if c.auto_inc then v ++ codes " (auto increment)" else v

unfoldable pub to_column_dto : Column → ColumnDto
unfolding type_text
to_column_dto c = record {
  name = c.name;
  kind = c.kind;
  type_text = type_text c;
  cat = cat c;
  not_null = c.not_null;
  fallback = c.fallback;
  pk = c.pk;
  auto_inc = c.auto_inc;
}

pub record GrantDto : Type 0 where
  pub id : ℕ
  pub subject : Bytes
  pub level : Bytes

pub data Value : Type 0 where
  flag : Bool → Value
  number : ℕ → Value
  text : Bytes → Value
  one_connection : ConnDto → Value
  all_connections : List ConnDto → Value
  all_grants : List GrantDto → Value
  all_columns : List ColumnDto → Value
  all_indexes : List Index → Value
  all_keys : List TableKey → Value
  all_texts : List Bytes → Value
  one_table : Option Table → Value
  audit_rows : List Audit → Value
  command_error : CommandError → Value
  csv_file : Bytes → List (List Bytes) → Value
  json_file : Bytes → List (List (Bytes × Bytes)) → Value
  connect_error : OpenError → Value
  egress_error : EgressError → Value
  form_error : FormError → Value
  crypto_error : CryptoError → Value

pub record Response : Type 0 where
  pub status : ℕ
  pub body : List (Bytes × Value)

-- `writeJSON(w, http.StatusOK, ...)`
abbrev pub answer : List (String × Value) → Response
answer fields = record { status = 200; body = map (λ f. (codes f.0, f.1)) fields }

-- `apiErr` with the text of an error.
abbrev pub problem : ℕ → Value → Response
problem status v = record { status = status; body = (codes "error", v) ∷ [] }

-- `apiErr`
abbrev pub api_err : ℕ → String → Response
api_err status msg = problem status (text (codes msg))

abbrev pub done : Response
done = answer (("ok", flag true) ∷ [])
