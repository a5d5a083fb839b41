-- ===== src/Access.antt =====
-- internal/web/access.go, and `connFor` of internal/web/server.go: what a user may do on one
-- connection.
pub mod Policy
pub mod Listing
use verix_dbm.Base.{
  ℕ, zero, suc, ◌+◌, ◌-◌, ◌*◌, ◌≤◌, ◌<◌, String, ◌≡◌, refl, sym, ap, ◌∙◌, subst, ◌≢◌, ◌↔◌, ◌⊎◌, inl,
  inr, Bool, true, false, not, ◌&&◌, ◌||◌, Option, none, some, List, [], ◌∷◌, ◌++◌, map, append-nil,
  append_assoc, arith, ltb, leb, ◌==◌, if◌then◌else◌, ==_iff, Bool-cases, Option-cases, Bool-ext,
  length, length-append, All, OneOf, keep_if, keep_if-nil, keep_if-cons, length-keep_if-le, take,
  some_of, some_of-take, some_of-keep_if, some_of_elim, some_of_intro, keep_if-OneOf, OneOf-keep_if,
  keep_if_laws, Bytes, codes, str_eq, str_eq_iff, str_eq_refl, contains, contains_iff,
  contains-append, ◌>>=◌, Result-cases, Result, ok, err, max_int, ℤ, pos, negsuc,
}
use verix_dbm.Config.{Config}
use verix_dbm.Auth.Roles.{User, subjects}
use verix_dbm.Store.{Store, Connection, Grant, StoreError, get_connection}
use verix_dbm.Store.Grants.{
  Fetch, is_write, grant_for_subjects, list_connections, list_connections_for_subjects,
}

pub record ConnAccess : Type 0 where
  pub read : Bool
  pub write : Bool

unfoldable pub resolve_conn_access : User → Option Grant → Bool → ConnAccess
unfolding is_write
resolve_conn_access u grant scoped =
    if not scoped || u.admin then record { read = u.read; write = u.write } else elim grant [
      | none ↦ record { read = false; write = false }
      | some g ↦ record { read = u.read; write = if is_write g then u.write else false }
    ]

-- The error of the look-up is dropped.
unfoldable pub access : Config → Store → Fetch → User → Connection → ConnAccess
unfolding resolve_conn_access
access cfg s fetch u c =
    let grant =
      if cfg.scoped_access && not u.admin
      then (grant_for_subjects s fetch c.id (subjects u)).0
      else none in
    resolve_conn_access u grant cfg.scoped_access

pub data ConnError : Type 0 where
  not_found : StoreError → ConnError
  no_access : ConnError

-- `Server.connFor`, at the id of the URL.
unfoldable pub conn_for : Config → Store → Fetch → User → ℕ → Result ConnError Connection
conn_for cfg s fetch u id = elim (get_connection s id) [
  | err e ↦ err (not_found e)
  | ok c ↦ if (access cfg s fetch u c).read then ok c else err no_access
]

-- The connections that `apiListConnections` shows.
unfoldable pub listed : Config → Store → User → List Connection
listed cfg s u =
    if cfg.scoped_access && not u.admin
    then list_connections_for_subjects s (subjects u)
    else list_connections s
