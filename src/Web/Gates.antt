-- ===== src/Web/Gates.antt =====
-- internal/web/api.go: the gates that the handlers pass first.
pub mod Passing
use verix_dbm.Base.{
  ℕ, zero, suc, ◌+◌, ◌-◌, ◌*◌, ◌≤◌, ◌<◌, String, ◌≡◌, refl, sym, ap, ◌∙◌, subst, ◌≢◌, ◌↔◌, ◌⊎◌, inl,
  inr, Bool, true, false, not, ◌&&◌, ◌||◌, Option, none, some, List, [], ◌∷◌, ◌++◌, map, append-nil,
  append_assoc, arith, ltb, leb, ◌==◌, if◌then◌else◌, ==_iff, Bool-cases, Option-cases, Bool-ext,
  length, length-append, All, OneOf, keep_if, keep_if-nil, keep_if-cons, length-keep_if-le, take,
  some_of, some_of-take, some_of-append, some_of-keep_if, some_of_elim, some_of_intro,
  keep_if-OneOf, OneOf-keep_if, keep_if_laws, Bytes, codes, str_eq, str_eq_iff, str_eq_refl,
  contains, contains_iff, contains-cons, contains-append, format_int, ◌>>=◌, Result-cases, guard-ok,
  Result, ok, err, max_int, wrapped, ℤ, pos, negsuc,
}
use verix_dbm.Auth.Roles.{User}
use verix_dbm.Auth.Sessions.{Request, check_csrf}
use verix_dbm.Store.{Connection}
use verix_dbm.Access.{ConnError, conn_for, access}
use verix_dbm.Registry.{Handle, OpenError}
use verix_dbm.Web.Responses.{Response, api_err, problem, connect_error}
use verix_dbm.Web.Site.{Env, Site, open_engine}

-- A connection and the pool of its engine, or the response that refuses the request.
abbrev pub Passed : Type 0
Passed = Result Response (Connection × Handle)

abbrev pub csrf_ok : Env → Request → Bool
csrf_ok e req = check_csrf e.sessions req e.now

-- `apiRequireAdmin`: the response that refuses the request, if it is refused.
unfoldable pub require_admin : Env → User → Request → Option Response
require_admin e u req =
    if not (csrf_ok e req)
    then some (api_err 403 "bad csrf")
    else if not u.admin
    then some (api_err 403 "admin required")
    else none

abbrev pub find_conn : Env → User → ℕ → Site → Result ConnError Connection
find_conn e u id s = conn_for e.cfg s.store e.fetch u id

abbrev pub may : Env → User → Site → Connection → Bool
may e u s c = (access e.cfg s.store e.fetch u c).write

unfoldable pub with_handle : Connection → Site × Result OpenError Handle → Site × Passed
with_handle c (s, ok h) = (s, ok (c, h))
with_handle c (s, err error) = (s, err (problem 502 (connect_error error)))

unfoldable pub api_sql : Env → User → ℕ → Site → Site × Passed
unfolding with_handle
api_sql e u id s = elim (find_conn e u id s) [
  | err error ↦ (s, err (api_err 404 "connection not found"))
  | ok c ↦ with_handle c (open_engine e s c)
]

-- The end of `apiRequireWrite`, at the connection.
unfoldable pub write_on : Env → User → Site → Connection → Site × Passed
unfolding with_handle
write_on e u s c =
    if not (may e u s c)
    then (s, err (api_err 403 "write access required"))
    else if c.read_only
    then (s, err (api_err 409 "connection is read-only"))
    else with_handle c (open_engine e s c)

unfoldable pub api_require_write : Env → User → Request → Bool → ℕ → Site → Site × Passed
unfolding write_on
api_require_write e u req admin id s =
    if not (csrf_ok e req)
    then (s, err (api_err 403 "bad csrf"))
    else if admin && not u.admin
    then (s, err (api_err 403 "admin required"))
    else elim (find_conn e u id s) [
      | err error ↦ (s, err (api_err 404 "connection not found"))
      | ok c ↦ write_on e u s c
    ]
