-- ===== src/Web/Statements.antt =====
-- internal/web/api_sql.go: the handlers that change a target. Once the gate is passed each is a plan,
-- a call with its audit entry or a response that refuses the body.
pub mod Outcomes
use verix_dbm.Base.{
  ℕ, zero, suc, ◌+◌, ◌-◌, ◌*◌, ◌≤◌, ◌<◌, String, ◌≡◌, refl, sym, ap, ◌∙◌, subst, ◌≢◌, ◌↔◌, ◌⊎◌, inl,
  inr, Bool, true, false, not, ◌&&◌, ◌||◌, Option, none, some, List, [], ◌∷◌, ◌++◌, map, append-nil,
  append_assoc, arith, ltb, leb, ◌==◌, if◌then◌else◌, ==_iff, Bool-cases, Option-cases, Bool-ext,
  length, length-append, All, OneOf, keep_if, keep_if-nil, keep_if-cons, length-keep_if-le, take,
  some_of, some_of-take, some_of-append, some_of-keep_if, some_of_elim, some_of_intro,
  keep_if-OneOf, OneOf-keep_if, keep_if_laws, Bytes, codes, str_eq, str_eq_iff, str_eq_refl,
  contains, contains_iff, contains-cons, contains-append, format_int, ◌>>=◌, Result-cases, guard-ok,
  Result, ok, err, max_int, wrapped, ℤ, pos, negsuc,
}
use verix_dbm.GoStrings.{trim_space}
use verix_dbm.Auth.Roles.{User}
use verix_dbm.Auth.Sessions.{Request}
use verix_dbm.Store.{Connection}
use verix_dbm.Registry.{Handle}
use verix_dbm.Sql.{FormSpec, FormError, RoleAttrs, Script, given}
use verix_dbm.Sql.Dialects.{Dialect, dialect}
use verix_dbm.Sql.Screens.{server_side_blocked}
use verix_dbm.Sql.Confirm.{needs_confirm}
use verix_dbm.Web.Responses.{
  Response, flag, number, text, answer, api_err, problem, form_error, done,
}
use verix_dbm.Web.Site.{
  Env, Site, Call, Made, executes, runs_script, called, audited, audit_detail, script_text,
  succeeded,
}
use verix_dbm.Web.Gates.{Passed, api_require_write}

-- What a handler does once its checks have passed.
pub record Job : Type 0 where
  pub call : Call
  pub action : Bytes
  pub detail : Bytes
  pub success : Response

abbrev pub Plan : Type 0
Plan = Result Response Job

abbrev pub blocked_message : String
blocked_message =
    "blocked: server-side program execution / file access is restricted to admins see SECURITY.md"

-- `execDDLAudit`: one statement.
abbrev pub one_statement : Bytes → Bytes → Job
one_statement action sql = record {
  call = executes sql;
  action = action;
  detail = sql;
  success = done;
}

-- `execScriptAudit`: a list of statements.
abbrev pub statement_list : Bytes → List Bytes → Job
statement_list action stmts = record {
  call = runs_script stmts;
  action = action;
  detail = script_text stmts;
  success = done;
}

pub record TxBody : Type 0 where
  pub statements : List Bytes
  pub confirm : Bool

-- The statements of the body that are not blank.
unfoldable pub trimmed : List Bytes → List Bytes
trimmed [] = []
trimmed (st ∷ sts) =
    let rest = trimmed sts in if given (trim_space st) then trim_space st ∷ rest else rest

unfoldable pub exec_tx : TxBody → User → Connection → Plan
unfolding trimmed
exec_tx body u c =
    let stmts = trimmed body.statements in
    if length stmts == 0
    then err (api_err 400 "no statements to commit")
    else if server_side_blocked u c.kind stmts
    then err (api_err 403 blocked_message)
    else if not body.confirm && some_of needs_confirm stmts
    then err (answer (("needConfirm", flag true) ∷ []))
    else ok (record {
      call = runs_script stmts;
      action = codes "sql_tx";
      detail = script_text stmts;
      success = answer (("ok", flag true) ∷ ("count", number (length stmts)) ∷ []);
    })

-- The texts of the body, without white space around them; schema, table, column and the password are
-- taken as they are.
unfoldable pub form_spec : FormSpec → FormSpec
form_spec body = record body {
  name = trim_space body.name;
  type = trim_space body.type;
  fallback = trim_space body.fallback;
  columns = trim_space body.columns;
  owner = trim_space body.owner;
  role = record body.role { host = trim_space body.role.host };
}

unfoldable pub form_job : Result FormError Script → Plan
form_job (err error) = err (problem 400 (form_error error))
form_job (ok (stmt ∷ [], action)) = ok (one_statement action stmt)
form_job (ok (stmts, action)) = ok (statement_list action stmts)

unfoldable pub run_form : FormSpec → User → Dialect → Plan
unfolding form_spec form_job
run_form body u d =
    if str_eq body.kind (codes "create-user") && not u.admin
    then err (api_err 403 "admin required")
    else form_job (d.form_sql (form_spec body))

pub record ApplyBody : Type 0 where
  pub action : Bytes
  pub statements : List Bytes

unfoldable pub apply_table : ApplyBody → Plan
apply_table body =
    if length body.statements == 0
    then err (api_err 400 "no statements to run")
    else ok (
        statement_list (if given body.action then body.action else codes "sql_ddl_table")
          body.statements)

pub record DdlBody : Type 0 where
  pub schema : Bytes
  pub table : Bytes
  pub column : Bytes
  pub name : Bytes

pub record SchemaBody : Type 0 where
  pub schema : Bytes
  pub cascade : Bool

unfoldable pub drop_schema : SchemaBody → Dialect → Plan
drop_schema body d =
    if not (given (trim_space body.schema))
    then err (api_err 400 "schema is required")
    else ok
        (statement_list (codes "sql_ddl_drop_schema") (d.drop_schema_sql body.schema body.cascade))

-- `apiAlterSchema` and `apiAlterRole` refuse an edit of no statement.
abbrev pub change : String → List Bytes → Plan
change action stmts =
    if length stmts == 0
    then err (api_err 400 "nothing to change")
    else ok (statement_list (codes action) stmts)

pub record AlterSchemaBody : Type 0 where
  pub schema : Bytes
  pub new_name : Bytes
  pub owner : Bytes

unfoldable pub alter_schema : AlterSchemaBody → Dialect → Plan
alter_schema body d =
    change "sql_ddl_alter_schema" (
      d.alter_schema_sql (trim_space body.schema) (trim_space body.new_name)
        (trim_space body.owner))

pub record RoleBody : Type 0 where
  pub name : Bytes
  pub host : Bytes

unfoldable pub drop_role : RoleBody → Dialect → Plan
drop_role body d =
    if not (given (trim_space body.name))
    then err (api_err 400 "role name is required")
    else ok (
        statement_list (codes "sql_ddl_drop_role")
          (d.drop_user_sql (trim_space body.name) (trim_space body.host)))

pub record AlterRoleBody : Type 0 where
  pub name : Bytes
  pub new_name : Bytes
  pub role : RoleAttrs

unfoldable pub alter_role : AlterRoleBody → Dialect → Plan
alter_role body d =
    if not (given (trim_space body.name))
    then err (api_err 400 "role name is required")
    else change "sql_ddl_alter_role" (
        d.alter_user_sql (trim_space body.name) (trim_space body.new_name)
          (record body.role { host = trim_space body.role.host }))

-- The requests, by their route; `drops_*` and `truncates` are those of `apiDDLMutate`.
pub data Statement : Type 0 where
  runs_tx : TxBody → Statement
  runs_form : FormSpec → Statement
  applies_table : ApplyBody → Statement
  drops_table : DdlBody → Statement
  truncates : DdlBody → Statement
  drops_column : DdlBody → Statement
  drops_index : DdlBody → Statement
  drops_schema : SchemaBody → Statement
  alters_schema : AlterSchemaBody → Statement
  drops_role : RoleBody → Statement
  alters_role : AlterRoleBody → Statement

-- Does the gate ask for an admin?
unfoldable pub for_admins : Statement → Bool
for_admins (runs_tx body) = false
for_admins (runs_form body) = false
for_admins (applies_table body) = false
for_admins (alters_schema body) = false
for_admins _ = true

unfoldable pub plan : Statement → User → Connection → Dialect → Plan
unfolding exec_tx run_form apply_table drop_schema alter_schema drop_role alter_role
plan (runs_tx body) u c d = exec_tx body u c
plan (runs_form body) u c d = run_form body u d
plan (applies_table body) u c d = apply_table body
plan (drops_table b) u c d =
    ok (one_statement (codes "sql_ddl_drop_table") (d.drop_table_sql b.schema b.table))
plan (truncates b) u c d =
    ok (one_statement (codes "sql_ddl_truncate") (d.truncate_sql b.schema b.table))
plan (drops_column b) u c d =
    ok (one_statement (codes "sql_ddl_drop_column") (d.drop_column_sql b.schema b.table b.column))
plan (drops_index b) u c d =
    ok (one_statement (codes "sql_ddl_drop_index") (d.drop_index_sql b.schema b.table b.name))
plan (drops_schema body) u c d = drop_schema body d
plan (alters_schema body) u c d = alter_schema body d
plan (drops_role body) u c d = drop_role body d
plan (alters_role body) u c d = alter_role body d

outcome : Response → Option Bytes → Response
outcome success none = success
outcome success (some error) = problem 400 (text error)

-- The call, its audit entry, and the response.
unfoldable pub run_job : Env → User → Connection → Handle → Job → Site → Site × Response
unfolding outcome
run_job e u c h job s =
    let made : Made = record { handle = h; call = job.call } in
    let error = e.target.error_of s.calls made in
    (
      audited e u c.id job.action (audit_detail e job.detail) (succeeded error) (called s made),
      outcome job.success error,
    )

unfoldable pub run_plan : Env → User → Connection → Handle → Plan → Site → Site × Response
unfolding run_job
run_plan e u c h (err r) s = (s, r)
run_plan e u c h (ok job) s = run_job e u c h job s

-- `decoded` tells whether the body is JSON of the route.
unfoldable pub after_gate : Env → User → Statement → Bool → Site × Passed → Site × Response
unfolding run_plan plan
after_gate e u st decoded (s, err r) = (s, r)
after_gate e u st false (s, ok (c, h)) = (s, api_err 400 "bad json")
after_gate e u st true (s, ok (c, h)) = run_plan e u c h (plan st u c (dialect h.family)) s

-- The handler of a route: its body is decoded behind the gate.
unfoldable pub serve_statement :
    Env → User → Request → ℕ → Statement → Bool → Site → Site × Response
unfolding for_admins after_gate
serve_statement e u req id st decoded s =
    after_gate e u st decoded (api_require_write e u req (for_admins st) id s)
