-- ===== src/Web/Consoles.antt =====
-- internal/web/api_redis.go and internal/web/api_mongo.go: the key-value and the document engines,
-- which are reached through clients of their own.
pub mod Checks
use verix_dbm.Base.{
  ℕ, zero, suc, ◌+◌, ◌-◌, ◌*◌, ◌≤◌, ◌<◌, String, ◌≡◌, refl, sym, ap, ◌∙◌, subst, ◌≢◌, ◌↔◌, ◌⊎◌, inl,
  inr, Bool, true, false, not, ◌&&◌, ◌||◌, Option, none, some, List, [], ◌∷◌, ◌++◌, map, append-nil,
  append_assoc, arith, ltb, leb, ◌==◌, if◌then◌else◌, ==_iff, Bool-cases, Option-cases, Bool-ext,
  length, length-append, All, OneOf, keep_if, keep_if-nil, keep_if-cons, length-keep_if-le, take,
  some_of, some_of-take, some_of-append, some_of-keep_if, some_of_elim, some_of_intro,
  keep_if-OneOf, OneOf-keep_if, keep_if_laws, Bytes, codes, str_eq, str_eq_iff, str_eq_refl,
  contains, contains_iff, contains-cons, contains-append, format_int, ◌>>=◌, Result-cases, guard-ok,
  Result, ok, err, max_int, wrapped, ℤ, pos, negsuc,
}
use verix_dbm.GoStrings.{trim_space, to_lower}
use verix_dbm.Auth.Roles.{User}
use verix_dbm.Auth.Sessions.{Request}
use verix_dbm.Store.{Connection}
use verix_dbm.Registry.{Family, Handle, OpenError, connect, redis, mongo}
use verix_dbm.Redis.{redis_read_allowed, redis_needs_confirm, parse_args, or_star}
use verix_dbm.Mongo.{
  Bson, CommandError, uses_server_js, command_name, mongo_read_allowed, mongo_needs_confirm,
  clamped_limit, clamped_skip, collect,
}
use verix_dbm.Sql.{given}
use verix_dbm.Web.Responses.{
  Response, Value, flag, number, text, all_texts, connect_error, command_error, answer, api_err,
  problem,
}
use verix_dbm.Web.Site.{
  Env, Site, Call, Made, scans, gets_value, redis_command, finds, lists_doc_indexes, mongo_command,
  called, audited, audit_detail, open_pool,
}
use verix_dbm.Web.Gates.{Passed, csrf_ok, find_conn, may, with_handle}
use verix_dbm.Web.Console.{runs_read_only, went_well}

-- `Registry.Redis` and `Registry.Mongo`
abbrev pub open_client : Env → Family → Site → Connection → Site × Result OpenError Handle
open_client e f s c = open_pool e f s c

-- The gate of the browsers: the connection, then its client.
unfoldable pub browse_gate : Env → Family → User → ℕ → Site → Site × Passed
browse_gate e f u id s = elim (find_conn e u id s) [
  | err error ↦ (s, err (api_err 404 "connection not found"))
  | ok c ↦ with_handle c (open_client e f s c)
]

scanned : Result Bytes (List Bytes × ℕ) → Response
scanned (err error) = problem 400 (text error)
scanned (ok (keys, cursor)) = answer (("keys", all_texts keys) ∷ ("cursor", number cursor) ∷ [])

scan_on : Env → Bytes → ℕ → Site × Passed → Site × Response
unfolding scanned
scan_on e pattern cursor (s, err r) = (s, r)
scan_on e pattern cursor (s, ok (c, h)) =
    let made : Made = record { handle = h; call = scans (or_star pattern) cursor } in
    (called s made, scanned (e.target.scan_of s.calls made))

unfoldable pub api_redis_keys : Env → User → ℕ → Bytes → ℕ → Site → Site × Response
unfolding scan_on
api_redis_keys e u id pattern cursor s = scan_on e pattern cursor (browse_gate e redis u id s)

valued : Result Bytes Bytes → Response
valued (err error) = problem 400 (text error)
valued (ok v) = answer (("value", text v) ∷ [])

value_on : Env → Bytes → Site × Passed → Site × Response
unfolding valued
value_on e key (s, err r) = (s, r)
value_on e key (s, ok (c, h)) =
    let made : Made = record { handle = h; call = gets_value key } in
    (called s made, valued (e.target.text_of s.calls made))

unfoldable pub api_redis_value : Env → User → ℕ → Bytes → Site → Site × Response
unfolding value_on
api_redis_value e u id key s = value_on e key (browse_gate e redis u id s)

-- The tests that both consoles make of a command: the response that stops it, if it is stopped.
unfoldable pub stopped :
    (read_only allowed dangerous admin confirm : Bool) → Bytes → Bytes → Option Response
stopped read_only allowed dangerous admin confirm name cmd =
    if read_only && not allowed
    then some (
        answer (
          ("error", text (codes "read-only: command '" ++ name ++ codes "' is not permitted"))
          ∷ []))
    else if dangerous && not admin
    then some (answer (("error", text (codes "admin required for '" ++ name ++ codes "'")) ∷ []))
    else if dangerous && not confirm
    then some (answer (("needConfirm", flag true) ∷ ("cmd", text cmd) ∷ []))
    else none

replied : Result Bytes Bytes → Response
replied (err error) = answer (("error", text error) ∷ [])
replied (ok out) = answer (("out", text out) ∷ [])

-- The command, its audit entry and the response.
unfoldable pub run_command :
    Env
    → User
    → Connection
    → Call
    → Bytes
    → Bytes
    → Site × Result OpenError Handle
    → Site × Response
unfolding replied
run_command e u c call action detail (s, err error) =
    (s, answer (("error", connect_error error) ∷ []))
run_command e u c call action detail (s, ok h) =
    let made : Made = record { handle = h; call = call } in
    let result = e.target.text_of s.calls made in
    (
      audited e u c.id action (audit_detail e detail) (went_well result) (called s made),
      replied result,
    )

pub record RedisBody : Type 0 where
  pub cmd : Bytes
  pub confirm : Bool

unfoldable pub redis_on : Env → User → Connection → RedisBody → List Bytes → Site → Site × Response
unfolding stopped run_command runs_read_only
redis_on e u c body [] s = (s, answer (("error", text (codes "empty command")) ∷ []))
redis_on e u c body (arg ∷ args) s =
    elim (stopped (runs_read_only e u s c) (redis_read_allowed (to_lower arg))
      (redis_needs_confirm (arg ∷ args)) u.admin body.confirm (to_lower arg) body.cmd) [
        | some r ↦ (s, r)
        | none ↦
            run_command e u c (redis_command (arg ∷ args)) (codes "redis_cmd") body.cmd
              (open_client e redis s c)
      ]

-- A body that is no JSON is none.
unfoldable pub api_redis_cmd : Env → User → Request → ℕ → Option RedisBody → Site → Site × Response
unfolding redis_on
api_redis_cmd e u req id body s =
    if not (csrf_ok e req) then (s, api_err 403 "bad csrf") else elim (find_conn e u id s) [
      | err error ↦ (s, api_err 404 "connection not found")
      | ok c ↦ elim body [
        | none ↦ (s, api_err 400 "bad json")
        | some b ↦ redis_on e u c b (parse_args b.cmd) s
      ]
    ]

pub record DocsQuery : Type 0 where
  pub db : Bytes
  pub coll : Bytes
  pub filter : Bytes
  pub sort : Bytes
  pub projection : Bytes
  pub page : ℤ
  pub size : ℤ

-- The size and the page of the request, before `Find` bounds them.
unfoldable pub asked_size : ℤ → ℕ
asked_size (negsuc n) = 50
asked_size (pos n) = if n == 0 then 50 else n

unfoldable pub asked_page : ℤ → ℕ
asked_page (negsuc n) = 0
asked_page (pos n) = n

-- The texts that `Find` parses: the filter, and the sort and the projection where they are given.
unfoldable pub are_documents : Bson → DocsQuery → Bool
are_documents bson q =
    (not (given (trim_space q.filter)) || bson.is_document q.filter)
    && ((not (given (trim_space q.sort)) || bson.is_document (trim_space q.sort))
        && (not (given (trim_space q.projection)) || bson.is_document (trim_space q.projection)))

documents_response : ℕ → ℕ → Result Bytes (List Bytes) → Response
documents_response limit page (err error) = problem 400 (text error)
documents_response limit page (ok docs) =
    let found = collect limit docs in
    answer (
      ("docs", all_texts found.docs)
      ∷ ("hasMore", flag found.has_more)
      ∷ ("page", number page)
      ∷ [])

-- `Find`, at the limit and the number to skip that it is called with.
unfoldable pub docs_on : Env → DocsQuery → Site × Passed → Site × Response
unfolding documents_response are_documents asked_size asked_page clamped_limit clamped_skip
docs_on e q (s, err r) = (s, r)
docs_on e q (s, ok (c, h)) =
    let size = asked_size q.size in
    let page = asked_page q.page in
    let limit = clamped_limit (wrapped size) in
    let skip = clamped_skip (wrapped (page * size)) in
    let made : Made = record {
      handle = h;
      call = finds q.db q.coll (q.filter ∷ q.sort ∷ q.projection ∷ []) (suc limit) skip;
    } in
    if not (are_documents e.bson q)
    then (s, problem 400 (text (codes "filter, sort or projection")))
    else (called s made, documents_response limit page (e.target.docs_of s.calls made))

unfoldable pub api_mongo_docs : Env → User → ℕ → DocsQuery → Site → Site × Response
unfolding docs_on
api_mongo_docs e u id q s = elim (find_conn e u id s) [
  | err error ↦ (s, api_err 404 "connection not found")
  | ok c ↦
      if not (given q.db) || not (given q.coll)
      then (s, api_err 400 "db and coll are required")
      else if not u.admin && uses_server_js e.bson (q.filter ∷ q.sort ∷ q.projection ∷ [])
      then (s, api_err 403 "server-side JavaScript ($where/$function/$accumulator) requires admin")
      else docs_on e q (with_handle c (open_client e mongo s c))
]

indexed : Result Bytes (List Bytes) → Response
indexed (err error) = problem 400 (text error)
indexed (ok ix) = answer (("indexes", all_texts ix) ∷ [])

indexes_on : Env → Bytes → Bytes → Site × Passed → Site × Response
unfolding indexed
indexes_on e db coll (s, err r) = (s, r)
indexes_on e db coll (s, ok (c, h)) =
    let made : Made = record { handle = h; call = lists_doc_indexes db coll } in
    (called s made, indexed (e.target.docs_of s.calls made))

unfoldable pub api_mongo_indexes : Env → User → ℕ → Bytes → Bytes → Site → Site × Response
unfolding indexes_on
api_mongo_indexes e u id db coll s = elim (find_conn e u id s) [
  | err error ↦ (s, api_err 404 "connection not found")
  | ok c ↦
      if not (given db) || not (given coll)
      then (s, api_err 400 "db and coll are required")
      else indexes_on e db coll (with_handle c (open_client e mongo s c))
]

pub record MongoBody : Type 0 where
  pub db : Bytes
  pub cmd : Bytes
  pub confirm : Bool

unfoldable pub mongo_on :
    Env → User → Connection → MongoBody → Result CommandError Bytes → Site → Site × Response
unfolding stopped run_command runs_read_only
mongo_on e u c body (err error) s = (s, answer (("error", command_error error) ∷ []))
mongo_on e u c body (ok name) s =
    elim (stopped (runs_read_only e u s c) (mongo_read_allowed name) (mongo_needs_confirm name)
      u.admin body.confirm name body.cmd) [
        | some r ↦ (s, r)
        | none ↦
            run_command e u c (mongo_command body.db body.cmd) (codes "mongo_cmd")
              (body.db ++ codes ": " ++ body.cmd) (open_client e mongo s c)
      ]

unfoldable pub api_mongo_cmd : Env → User → Request → ℕ → Option MongoBody → Site → Site × Response
unfolding mongo_on
api_mongo_cmd e u req id body s =
    if not (csrf_ok e req) then (s, api_err 403 "bad csrf") else elim (find_conn e u id s) [
      | err error ↦ (s, api_err 404 "connection not found")
      | ok c ↦ elim body [
        | none ↦ (s, api_err 400 "bad json")
        | some b ↦
            if not (given (trim_space b.db))
            then (s, answer (("error", text (codes "a database is required")) ∷ []))
            else mongo_on e u c b (command_name e.bson b.cmd) s
      ]
    ]
