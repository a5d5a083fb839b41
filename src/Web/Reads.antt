-- ===== src/Web/Reads.antt =====
-- internal/web/api_sql.go and internal/web/handlers_export.go: the handlers that read a target.
pub mod Harmless
use verix_dbm.Base.{
  ℕ, ◌*◌, String, Bool, true, ◌||◌, Option, none, some, List, [], ◌∷◌, ◌++◌, map, ltb, ◌==◌,
  if◌then◌else◌, Bytes, codes, contains, Result, ok, err, wrapped, ℤ, pos, negsuc,
}
use verix_dbm.Auth.Roles.{User}
use verix_dbm.Auth.Sessions.{Request}
use verix_dbm.Store.{Connection}
use verix_dbm.Registry.{Handle}
use verix_dbm.Sql.{Column}
use verix_dbm.Sql.Screens.{server_side_blocked}
use verix_dbm.Web.Responses.{
  Response, Table, Value, flag, number, text, all_texts, all_columns, all_indexes, all_keys,
  one_table, to_column_dto, answer, api_err, problem,
}
use verix_dbm.Web.Site.{
  Env, Site, Made, browses, lists_columns, lists_indexes, lists_keys, lists_roles, generates,
  asks_comment, finds_usages, called, audited,
}
use verix_dbm.Web.Gates.{Passed, csrf_ok, api_sql}
use verix_dbm.Web.Statements.{blocked_message}
use verix_dbm.Web.Console.{went_well, runs_read_only}
use verix_dbm.Web.Export.{export_format, export_file}

-- The default size of a page.
abbrev pub browse_limit : ℕ
browse_limit = 100

unfoldable pub clamped_page : ℤ → ℕ
clamped_page (pos n) = n
clamped_page (negsuc n) = 0

unfoldable pub clamped_size : ℤ → ℕ
clamped_size (negsuc n) = browse_limit
clamped_size (pos n) = if (n == 0) || ltb 1000 n then browse_limit else n

-- The page and the size are the numbers that `strconv.Atoi` returns.
pub record GridQuery : Type 0 where
  pub schema : Bytes
  pub table : Bytes
  pub filter : Bytes
  pub order : Bytes
  pub page : ℤ
  pub size : ℤ
  pub format : Bytes

abbrev pub dotted : GridQuery → Bytes
dotted q = q.schema ++ codes "." ++ q.table

error_fields : Option Bytes → List (String × Value)
error_fields none = []
error_fields (some error) = ("error", text error) ∷ []

grid_fields : Result (Bytes × Option Table) Table → Option Table × List (String × Value)
unfolding error_fields
grid_fields (ok t) = (some t, [])
grid_fields (err (error, t)) = (t, error_fields (some error))

unfoldable pub api_grid : Env → User → GridQuery → Connection → Handle → Site → Site × Response
unfolding grid_fields clamped_page clamped_size runs_read_only
api_grid e u q c h s =
    let page = clamped_page q.page in
    let size = clamped_size q.size in
    let made : Made = record {
      handle = h;
      call = browses q.schema q.table q.filter q.order size (wrapped (page * size));
    } in
    let result = e.target.table_of s.calls made in
    let (t, error) = grid_fields result in
    if server_side_blocked u c.kind (q.filter ∷ q.order ∷ [])
    then (s, api_err 403 blocked_message)
    else (
      audited e u c.id (codes "sql_browse") (dotted q) (went_well result) (called s made),
      answer (
          ("result", one_table t)
          ∷ ("readOnly", flag (runs_read_only e u s c))
          ∷ ("page", number page)
          ∷ error),
    )

-- `exportTable`, behind its gates: 1000 rows at most.
unfoldable pub export_table : Env → User → GridQuery → Connection → Handle → Site → Site × Response
unfolding export_format export_file
export_table e u q c h s =
    let made : Made = record {
      handle = h;
      call = browses q.schema q.table q.filter q.order 1000 (pos 0);
    } in
    let format = export_format q.format in
    if server_side_blocked u c.kind (q.filter ∷ q.order ∷ [])
    then (s, api_err 403 blocked_message)
    else elim (e.target.table_of s.calls made) [
      | err (error, t) ↦ (called s made, problem 400 (text error))
      | ok t ↦ (
        audited e u c.id (codes "pg_export_" ++ format) (dotted q) true (called s made),
        answer (("file", export_file format q.schema q.table t) ∷ []),
      )
    ]

-- The name of a method that generates a statement, or none of these kinds.
unfoldable pub generator : Bytes → Bool
generator kind = contains (map codes ("select" ∷ "insert" ∷ "update" ∷ "create" ∷ [])) kind

shown : {A : Type 0} → (A → Value) → String → Result Bytes A → Response
shown f name (ok a) = answer ((name, f a) ∷ [])
shown f name (err error) = problem 400 (text error)

or_nothing : {A : Type 0} → Result Bytes (List A) → List A
or_nothing (ok xs) = xs
or_nothing (err error) = []

columns_value : List Column → Value
columns_value cols = all_columns (map to_column_dto cols)

-- What a table is documented with, once its columns are known; the other errors are dropped.
unfoldable pub document : Env → Bytes → Bytes → Handle → List Column → Site → Site × Response
unfolding or_nothing columns_value
document e schema table h cols s =
    let made1 : Made = record { handle = h; call = lists_keys schema table } in
    let made2 : Made = record { handle = h; call = lists_indexes schema table } in
    let made3 : Made = record { handle = h; call = asks_comment schema table } in
    let s1 = called s made1 in
    let s2 = called s1 made2 in
    (
      called s2 made3,
      answer (
          ("schema", text schema)
          ∷ ("table", text table)
          ∷ ("columns", columns_value cols)
          ∷ ("keys", all_keys (or_nothing (e.target.keys_of s.calls made1)))
          ∷ ("indexes", all_indexes (or_nothing (e.target.indexes_of s1.calls made2)))
          ∷ ("comment", text (or_nothing (e.target.text_of s2.calls made3)))
          ∷ []),
    )

unfoldable pub api_doc : Env → Bytes → Bytes → Handle → Site → Site × Response
unfolding document
api_doc e schema table h s =
    let made : Made = record { handle = h; call = lists_columns schema table } in
    elim (e.target.columns_of s.calls made) [
      | err error ↦ (called s made, problem 400 (text error))
      | ok cols ↦ document e schema table h cols (called s made)
    ]

-- The requests behind `apiSQL`, by their route.
pub data Read : Type 0 where
  reads_columns : Bytes → Bytes → Read
  reads_indexes : Bytes → Bytes → Read
  reads_keys : Bytes → Bytes → Read
  reads_grid : GridQuery → Read
  reads_export : GridQuery → Read
  reads_statement : Bytes → Bytes → Bytes → Read
  reads_doc : Bytes → Bytes → Read
  reads_usages : Bytes → Bytes → Read
  reads_roles : Read

unfoldable pub api_usages : Env → Bytes → Bytes → Handle → Site → Site × Response
unfolding error_fields
api_usages e schema table h s =
    let made : Made = record { handle = h; call = finds_usages schema table } in
    let (usages, error) = e.target.texts_of s.calls made in
    (
      called s made,
      answer (
          ("schema", text schema)
          ∷ ("table", text table)
          ∷ ("usages", all_texts usages)
          ∷ error_fields error),
    )

roles_response : List Bytes × Option Bytes → Response
roles_response (roles, none) = answer (("roles", all_texts roles) ∷ [])
roles_response (roles, some error) = problem 400 (text error)

unfoldable pub read_target : Env → User → Read → Connection → Handle → Site → Site × Response
unfolding api_grid export_table generator shown columns_value api_doc api_usages roles_response
read_target e u (reads_columns schema table) c h s =
    let made : Made = record { handle = h; call = lists_columns schema table } in
    (called s made, shown columns_value "columns" (e.target.columns_of s.calls made))
read_target e u (reads_indexes schema table) c h s =
    let made : Made = record { handle = h; call = lists_indexes schema table } in
    (called s made, shown all_indexes "indexes" (e.target.indexes_of s.calls made))
read_target e u (reads_keys schema table) c h s =
    let made : Made = record { handle = h; call = lists_keys schema table } in
    (called s made, shown all_keys "keys" (e.target.keys_of s.calls made))
read_target e u (reads_grid q) c h s = api_grid e u q c h s
read_target e u (reads_export q) c h s = export_table e u q c h s
read_target e u (reads_statement kind schema table) c h s =
    let made : Made = record { handle = h; call = generates kind schema table } in
    if generator kind
    then (called s made, shown text "sql" (e.target.text_of s.calls made))
    else (s, api_err 400 "unknown kind")
read_target e u (reads_doc schema table) c h s = api_doc e schema table h s
read_target e u (reads_usages schema table) c h s = api_usages e schema table h s
read_target e u reads_roles c h s =
    let made : Made = record { handle = h; call = lists_roles } in
    (called s made, roles_response (e.target.texts_of s.calls made))

-- The test before `apiSQL`: an export has a CSRF token, and roles are for admins.
unfoldable pub refused_read : Env → User → Request → Read → Option Response
refused_read e u req (reads_export q) =
    if csrf_ok e req then none else some (api_err 403 "bad csrf")
refused_read e u req reads_roles = if u.admin then none else some (api_err 403 "admin required")
refused_read e u req _ = none

unfoldable pub after_sql : Env → User → Read → Site × Passed → Site × Response
unfolding read_target
after_sql e u r (s, err response) = (s, response)
after_sql e u r (s, ok (c, h)) = read_target e u r c h s

unfoldable pub serve_read : Env → User → Request → ℕ → Read → Site → Site × Response
unfolding refused_read after_sql
serve_read e u req id r s = elim (refused_read e u req r) [
  | some response ↦ (s, response)
  | none ↦ after_sql e u r (api_sql e u id s)
]
