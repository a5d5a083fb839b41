-- ===== src/Web/Explorer.antt =====
-- internal/web/api_sql.go: the explorer tree and the prefilled form of a column.
use verix_dbm.Base.{
  ℕ, String, true, not, Option, none, some, List, [], ◌∷◌, if◌then◌else◌, Bytes, codes, str_eq,
  Result, ok, err,
}
use verix_dbm.Auth.Roles.{User}
use verix_dbm.Store.{Connection}
use verix_dbm.Registry.{Handle, OpenError, mongo}
use verix_dbm.Sql.{Column}
use verix_dbm.Sql.Families.{family, family_redis, family_mongo}
use verix_dbm.Web.Responses.{Response, Value, flag, text, all_texts, connect_error, answer, api_err}
use verix_dbm.Web.Site.{
  Env, Site, Call, Made, lists_databases, lists_schemas, lists_columns, called, open_engine,
  open_pool,
}
use verix_dbm.Web.Gates.{find_conn, may}

error_field : Option Bytes → List (String × Value)
error_field none = []
error_field (some error) = ("error", text error) ∷ []

-- The names that a call lists, under a field, or why no pool opened.
unfoldable pub tree : Env → Bytes → String → Call → Site × Result OpenError Handle → Site × Response
unfolding error_field
tree e kind name call (s, err error) =
    (s, answer (("kind", text kind) ∷ ("error", connect_error error) ∷ []))
tree e kind name call (s, ok h) =
    let made : Made = record { handle = h; call = call } in
    let (names, error) = e.target.texts_of s.calls made in
    (called s made, answer (("kind", text kind) ∷ (name, all_texts names) ∷ error_field error))

-- `Registry.Mongo`
unfoldable pub open_mongo : Env → Site → Connection → Site × Result OpenError Handle
open_mongo e s c = open_pool e mongo s c

unfoldable pub api_explorer : Env → User → ℕ → Site → Site × Response
unfolding tree open_mongo
api_explorer e u id s = elim (find_conn e u id s) [
  | err error ↦ (s, api_err 404 "connection not found")
  | ok c ↦
      (let kind = family c.kind in
        if str_eq kind family_redis
        then (s, answer (("kind", text kind) ∷ []))
        else if str_eq kind family_mongo
        then tree e kind "databases" lists_databases (open_mongo e s c)
        else tree e kind "schemas" lists_schemas (open_engine e s c))
]

pub record FormQuery : Type 0 where
  pub kind : Bytes
  pub schema : Bytes
  pub table : Bytes
  pub column : Bytes

-- The fields of the last column that has the name.
unfoldable pub prefilled : Bytes → List Column → List (String × Value) → List (String × Value)
prefilled name [] fields = fields
prefilled name (col ∷ cols) fields = prefilled name cols (
    if str_eq col.name name
    then ("name", text col.name)
      ∷ ("type", text col.kind)
      ∷ ("nullable", flag (not col.not_null))
      ∷ ("default", text col.fallback)
      ∷ []
    else fields)

-- A failed look-up of the columns leaves the form as it is.
unfoldable pub prefill :
    Env → FormQuery → List (String × Value) → Site × Result OpenError Handle → Site × Response
unfolding prefilled
prefill e q fields (s, err error) = (s, answer fields)
prefill e q fields (s, ok h) =
    let made : Made = record { handle = h; call = lists_columns q.schema q.table } in
    elim (e.target.columns_of s.calls made) [
      | err error ↦ (called s made, answer fields)
      | ok cols ↦ (called s made, answer (prefilled q.column cols fields))
    ]

unfoldable pub api_ddl_form_prefill : Env → User → ℕ → FormQuery → Site → Site × Response
unfolding prefill
api_ddl_form_prefill e u id q s = elim (find_conn e u id s) [
  | err error ↦ (s, api_err 404 "connection not found")
  | ok c ↦
      (let fields = ("nullable", flag true) ∷ [] in
        if not (may e u s c)
        then (s, api_err 403 "write access required")
        else if str_eq q.kind (codes "modify-column")
        then prefill e q fields (open_engine e s c)
        else (s, answer fields))
]
