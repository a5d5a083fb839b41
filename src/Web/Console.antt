-- ===== src/Web/Console.antt =====
-- internal/web/api_sql.go: the query console, `apiQuery`.
pub mod Checks
use verix_dbm.Base.{
  ℕ, zero, suc, ◌+◌, ◌-◌, ◌*◌, ◌≤◌, ◌<◌, String, ◌≡◌, refl, sym, ap, ◌∙◌, subst, ◌≢◌, ◌↔◌, ◌⊎◌, inl,
  inr, Bool, true, false, not, ◌&&◌, ◌||◌, Option, none, some, List, [], ◌∷◌, ◌++◌, map, append-nil,
  append_assoc, arith, ltb, leb, ◌==◌, if◌then◌else◌, ==_iff, Bool-cases, Option-cases, Bool-ext,
  length, length-append, All, OneOf, keep_if, keep_if-nil, keep_if-cons, length-keep_if-le, take,
  some_of, some_of-take, some_of-append, some_of-keep_if, some_of_elim, some_of_intro,
  keep_if-OneOf, OneOf-keep_if, keep_if_laws, Bytes, codes, str_eq, str_eq_iff, str_eq_refl,
  contains, contains_iff, contains-cons, contains-append, format_int, ◌>>=◌, Result-cases, guard-ok,
  Result, ok, err, max_int, wrapped, ℤ, pos, negsuc,
}
use verix_dbm.GoStrings.{trim_space}
use verix_dbm.Auth.Roles.{User}
use verix_dbm.Auth.Sessions.{Request}
use verix_dbm.Store.{Connection}
use verix_dbm.Registry.{Handle, OpenError}
use verix_dbm.Sql.Screens.{server_side_blocked}
use verix_dbm.Sql.Confirm.{needs_confirm}
use verix_dbm.Web.Responses.{
  Response, Table, Value, flag, text, one_table, connect_error, answer, api_err,
}
use verix_dbm.Web.Site.{Env, Site, Made, queries, called, audited, audit_detail, open_engine}
use verix_dbm.Web.Gates.{csrf_ok, find_conn, may}
use verix_dbm.Web.Statements.{blocked_message}

pub record QueryBody : Type 0 where
  pub sql : Bytes
  pub confirm : Bool
  pub schema : Bytes

-- Does the statement run in a session that cannot write?
unfoldable pub runs_read_only : Env → User → Site → Connection → Bool
runs_read_only e u s c = c.read_only || not (may e u s c)

table_fields : Result (Bytes × Option Table) Table → List (String × Value)
table_fields (ok t) = ("result", one_table (some t)) ∷ []
table_fields (err (error, t)) = ("result", one_table t) ∷ ("error", text error) ∷ []

abbrev pub went_well : {A B : Type 0} → Result A B → Bool
went_well (ok t) = true
went_well (err e) = false

-- The call, its audit entry and the response.
unfoldable pub run_query :
    Env → User → Connection → QueryBody → Bool → Handle → Site → Site × Response
unfolding table_fields
run_query e u c body read_only h s =
    let sql = trim_space body.sql in
    let made : Made = record { handle = h; call = queries sql read_only body.schema } in
    let result = e.target.table_of s.calls made in
    (
      audited e u c.id (codes "sql_query") (audit_detail e sql) (went_well result) (called s made),
      answer (("readOnly", flag read_only) ∷ table_fields result),
    )

unfoldable pub query_with :
    Env → User → Connection → QueryBody → Bool → Site × Result OpenError Handle → Site × Response
unfolding run_query
query_with e u c body read_only (s, err error) =
    (s, answer (("readOnly", flag read_only) ∷ ("error", connect_error error) ∷ []))
query_with e u c body read_only (s, ok h) = run_query e u c body read_only h s

-- The tests of a statement: the response that stops it, if it is stopped.
unfoldable pub screened : User → Connection → QueryBody → Bool → Option Response
screened u c body read_only =
    let sql = trim_space body.sql in
    if str_eq sql []
    then some
        (answer (("readOnly", flag read_only) ∷ ("error", text (codes "empty statement")) ∷ []))
    else if server_side_blocked u c.kind (sql ∷ [])
    then some (answer (("readOnly", flag read_only) ∷ ("error", text (codes blocked_message)) ∷ []))
    else if not read_only && (needs_confirm sql && not body.confirm)
    then some (
        answer (("readOnly", flag read_only) ∷ ("needConfirm", flag true) ∷ ("sql", text sql) ∷ []))
    else none

unfoldable pub query_on : Env → User → Connection → QueryBody → Site → Site × Response
unfolding query_with screened runs_read_only
query_on e u c body s =
    let read_only = runs_read_only e u s c in
    elim (screened u c body read_only) [
      | some r ↦ (s, r)
      | none ↦ query_with e u c body read_only (open_engine e s c)
    ]

-- A body that is no JSON is none.
unfoldable pub api_query : Env → User → Request → ℕ → Option QueryBody → Site → Site × Response
unfolding query_on
api_query e u req id body s =
    if not (csrf_ok e req) then (s, api_err 403 "bad csrf") else elim (find_conn e u id s) [
      | err error ↦ (s, api_err 404 "connection not found")
      | ok c ↦ elim body [ none ↦ (s, api_err 400 "bad json") | some b ↦ query_on e u c b s ]
    ]
