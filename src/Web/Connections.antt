-- ===== src/Web/Connections.antt =====
-- internal/web/api_connections.go: the connections and their grants, as admins edit them.
pub mod Passwords
pub mod Secrets
use verix_dbm.Base.{
  ℕ, zero, suc, Bool, true, false, not, Option, none, some, [], ◌∷◌, ◌++◌, map, if◌then◌else◌,
  Bytes, codes, str_eq, format_int, Result, ok, err, ℤ, pos, negsuc,
}
use verix_dbm.GoStrings.{trim_space}
use verix_dbm.Auth.Roles.{User}
use verix_dbm.Auth.Sessions.{Request}
use verix_dbm.Crypto.{encrypt, no_key}
use verix_dbm.Store.{
  Store, Connection, Grant, StoreError, get_connection, create_connection, update_connection,
  delete_connection, edited, set_grant, delete_grant, valid_grant_level,
}
use verix_dbm.Store.Grants.{list_grants}
use verix_dbm.Store.Paths.{resolve_sqlite_path}
use verix_dbm.Access.{listed}
use verix_dbm.Registry.{
  Family, OpenError, forget, bad_file, cannot_open, no_ping, pg, mysql, sqlite, redis, mongo,
}
use verix_dbm.Sql.{given}
use verix_dbm.Sql.Families.{family, family_redis, family_mysql, family_sqlite, family_mongo}
use verix_dbm.Web.Egress.{guard_conn_egress}
use verix_dbm.Web.Responses.{
  Response, GrantDto, flag, number, one_connection, all_connections, all_grants, connect_error,
  egress_error, crypto_error, to_conn_dto, answer, api_err, problem, done,
}
use verix_dbm.Web.Site.{Env, Site, audited}
use verix_dbm.Web.Gates.{require_admin, find_conn}

pub record ConnInput : Type 0 where
  pub name : Bytes
  pub kind : Bytes
  pub host : Bytes
  pub port : ℤ
  pub db_name : Bytes
  pub username : Bytes
  pub password : Bytes
  pub copy_from : ℤ
  pub options : Bytes
  pub read_only : Bool

-- The connection of an input, without its password.
unfoldable pub conn_of : ConnInput → Bytes → Connection
conn_of input created_by = record {
  id = 0;
  name = input.name;
  kind = input.kind;
  host = input.host;
  port = input.port;
  db_name = input.db_name;
  username = input.username;
  password_enc = [];
  options = input.options;
  read_only = input.read_only;
  created_by = created_by;
  created_at = 0;
}

unfoldable pub api_list_connections : Env → User → Site → Site × Response
api_list_connections e u s =
    (s, answer (("connections", all_connections (map to_conn_dto (listed e.cfg s.store u))) ∷ []))

unfoldable pub api_get_connection : Env → User → ℕ → Site → Site × Response
api_get_connection e u id s =
    if not u.admin then (s, api_err 403 "admin required") else elim (find_conn e u id s) [
      | err error ↦ (s, api_err 404 "connection not found")
      | ok c ↦ (s, answer (("connection", one_connection (to_conn_dto c)) ∷ []))
    ]

password_of : Result StoreError Connection → Bytes
password_of (ok c) = c.password_enc
password_of (err error) = []

-- "Save as copy": the stored password of another connection, if it is there.
unfoldable pub copied : Store → ℤ → Bytes
unfolding password_of
copied s (negsuc n) = []
copied s (pos zero) = []
copied s (pos (suc n)) = password_of (get_connection s (suc n))

-- The stored password of a new connection, or none if it cannot be encrypted.
unfoldable pub new_password : Env → ConnInput → Site → Option Bytes
unfolding copied
new_password e input s =
    if given input.password
    then encrypt e.lib e.box (e.nonce 0) input.password
    else some (copied s.store input.copy_from)

abbrev pub encrypt_failed : Env → Response
encrypt_failed e = problem 500 (crypto_error (no_key e.box.primary_id))

unfoldable pub insert_connection : Env → User → Connection → Site → Site × Response
insert_connection e u c s =
    let (store, id) = create_connection s.store c e.now in
    (
      audited e u id (codes "create_connection") c.name true (record s { store = store }),
      answer (("id", number id) ∷ []),
    )

unfoldable pub create_from : Env → User → ConnInput → Site → Site × Response
unfolding conn_of new_password insert_connection
create_from e u input s =
    let c = conn_of input u.email in
    elim (guard_conn_egress e.net e.cfg c) [
      | some error ↦ (s, problem 400 (egress_error error))
      | none ↦ elim (new_password e input s) [
        | none ↦ (s, encrypt_failed e)
        | some enc ↦ insert_connection e u (record c { password_enc = enc }) s
      ]
    ]

-- A body that is no JSON is none.
unfoldable pub api_create_connection :
    Env → User → Request → Option ConnInput → Site → Site × Response
unfolding create_from
api_create_connection e u req body s = elim (require_admin e u req) [
  | some r ↦ (s, r)
  | none ↦ elim body [ none ↦ (s, api_err 400 "bad json") | some input ↦ create_from e u input s ]
]

-- The end of `apiUpdateConnection`: the row, the pools and the audit log.
unfoldable pub save_connection : Env → User → Connection → Bool → Site → Site × Response
save_connection e u c update_pw s = (
  audited e u c.id (codes "update_connection") c.name true (record s {
    store = update_connection s.store c update_pw;
    registry = forget s.registry c.id;
  }),
  done,
)

unfoldable pub update_from : Env → User → Connection → ConnInput → Site → Site × Response
unfolding conn_of save_connection
update_from e u row input s =
    let c = edited (conn_of input u.email) row in
    elim (guard_conn_egress e.net e.cfg c) [
      | some error ↦ (s, problem 400 (egress_error error))
      | none ↦
          if not (given input.password)
          then save_connection e u c false s
          else elim (encrypt e.lib e.box (e.nonce 0) input.password) [
            | none ↦ (s, encrypt_failed e)
            | some enc ↦ save_connection e u (record c { password_enc = enc }) true s
          ]
    ]

unfoldable pub api_update_connection :
    Env → User → Request → ℕ → Option ConnInput → Site → Site × Response
unfolding update_from
api_update_connection e u req id body s = elim (require_admin e u req) [
  | some r ↦ (s, r)
  | none ↦ elim (find_conn e u id s) [
    | err error ↦ (s, api_err 404 "connection not found")
    | ok c ↦ elim body [
      | none ↦ (s, api_err 400 "bad json")
      | some input ↦ update_from e u c input s
    ]
  ]
]

unfoldable pub api_delete_connection : Env → User → Request → ℕ → Site → Site × Response
api_delete_connection e u req id s = elim (require_admin e u req) [
  | some r ↦ (s, r)
  | none ↦ (
    audited e u id (codes "delete_connection") [] true
        (record s { store = delete_connection s.store id; registry = forget s.registry id }),
    done,
  )
]

unfoldable pub to_grant_dto : Grant → GrantDto
to_grant_dto g = record { id = g.id; subject = g.subject; level = g.level }

unfoldable pub api_list_grants : Env → User → ℕ → Site → Site × Response
unfolding to_grant_dto
api_list_grants e u id s =
    if not u.admin
    then (s, api_err 403 "admin required")
    else (s, answer (("grants", all_grants (map to_grant_dto (list_grants s.store id))) ∷ []))

pub record GrantBody : Type 0 where
  pub subject : Bytes
  pub level : Bytes

-- The row, its audit entry and the response; a row that the store refuses is an internal error.
unfoldable pub grant_on : Env → User → ℕ → GrantBody → Site → Site × Response
grant_on e u id body s =
    let subject = trim_space body.subject in
    if not (given subject)
    then (s, api_err 400 "subject required")
    else if not (valid_grant_level body.level)
    then (s, api_err 400 "level must be 'read' or 'write'")
    else elim (set_grant s.store
        (record {
          id = 0;
          conn_id = id;
          subject = subject;
          level = body.level;
          created_by = u.email;
          created_at = 0;
        })
        e.now) [
          | err error ↦ (s, api_err 500 "store")
          | ok store ↦ (
            audited e u id (codes "grant_set") (subject ++ codes "=" ++ body.level) true
                (record s { store = store }),
            done,
          )
        ]

unfoldable pub api_set_grant : Env → User → Request → ℕ → Option GrantBody → Site → Site × Response
unfolding grant_on
api_set_grant e u req id body s = elim (require_admin e u req) [
  | some r ↦ (s, r)
  | none ↦ elim (get_connection s.store id) [
    | err error ↦ (s, api_err 404 "connection not found")
    | ok c ↦ elim body [ none ↦ (s, api_err 400 "bad json") | some b ↦ grant_on e u id b s ]
  ]
]

unfoldable pub api_delete_grant : Env → User → Request → ℕ → ℕ → Site → Site × Response
api_delete_grant e u req id gid s = elim (require_admin e u req) [
  | some r ↦ (s, r)
  | none ↦ (
    audited e u id (codes "grant_delete") (format_int gid) true
        (record s { store = delete_grant s.store id gid }),
    done,
  )
]

abbrev pub probe_family : Bytes → Family
probe_family kind =
    if str_eq (family kind) family_redis
    then redis
    else if str_eq (family kind) family_mysql
    then mysql
    else if str_eq (family kind) family_sqlite
    then sqlite
    else if str_eq (family kind) family_mongo
    then mongo
    else pg

-- A pool of its own is opened with a secret and asked for an answer.
unfoldable pub dial_once : Env → Family → Connection → Bytes → Option OpenError
dial_once e f c secret =
    if not (e.drivers.open_pool f c secret)
    then some cannot_open
    else if e.drivers.ping f c
    then none
    else some no_ping

-- `pingPG`, `pingMySQL`, `pingSQLite`, `pingRedis` and `pingMongo`
unfoldable pub probe : Env → Family → Connection → Bytes → Option OpenError
unfolding dial_once
probe e sqlite c password = elim (resolve_sqlite_path e.files e.cfg.sqlite_dir c.db_name) [
  | err error ↦ some (bad_file error)
  | ok path ↦ dial_once e sqlite c path
]
probe e f c password = dial_once e f c password

unfoldable pub test_target : Env → ConnInput → Response
unfolding probe conn_of
test_target e input =
    let c = record (conn_of input []) { name = []; read_only = false } in
    elim (guard_conn_egress e.net e.cfg c) [
      | some error ↦ answer (("ok", flag false) ∷ ("error", egress_error error) ∷ [])
      | none ↦ elim (probe e (probe_family c.kind) c input.password) [
        | some error ↦ answer (("ok", flag false) ∷ ("error", connect_error error) ∷ [])
        | none ↦ done
      ]
    ]

unfoldable pub api_test_connection :
    Env → User → Request → Option ConnInput → Site → Site × Response
unfolding test_target
api_test_connection e u req body s = elim (require_admin e u req) [
  | some r ↦ (s, r)
  | none ↦ elim body [ none ↦ (s, api_err 400 "bad json") | some input ↦ (s, test_target e input) ]
]
