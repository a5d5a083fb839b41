-- ===== src/Web/Site.antt =====
-- What the handlers of internal/web share: the metadata store, the registry of pools, and the calls
-- that have been made on the engines of the targets, newest first.
use verix_dbm.Base.{
  ℕ, Bool, true, false, not, Option, none, some, List, [], ◌∷◌, ◌++◌, leb, if◌then◌else◌, length,
  take, Bytes, codes, str_eq, Result, ℤ,
}
use verix_dbm.GoStrings.{join}
use verix_dbm.Config.{Config}
use verix_dbm.Auth.Roles.{User}
use verix_dbm.Auth.Sessions.{Sessions}
use verix_dbm.Crypto.{Library, Box}
use verix_dbm.Store.{Store, Connection, add_audit}
use verix_dbm.Store.Grants.{Fetch}
use verix_dbm.Store.Paths.{Files}
use verix_dbm.Registry.{
  Family, Handle, Registry, Drivers, OpenError, connect, uses_credential, pg, mysql, sqlite,
}
use verix_dbm.Sql.{Column, Index, TableKey}
use verix_dbm.Sql.Families.{family, family_mysql, family_sqlite}
use verix_dbm.Mongo.{Bson}
use verix_dbm.Web.Egress.{Net}
use verix_dbm.Web.Responses.{Table}

-- The methods of `dbsql.Engine` that reach a target and the operations of internal/redisdb and
-- internal/mongodb, with their arguments. `finds` has the filter, the sort and the projection, the
-- limit with one more document, and the number to skip.
pub data Call : Type 0 where
  queries : Bytes → Bool → Bytes → Call
  browses : Bytes → Bytes → Bytes → Bytes → ℕ → ℤ → Call
  executes : Bytes → Call
  runs_script : List Bytes → Call
  lists_databases : Call
  lists_schemas : Call
  lists_columns : Bytes → Bytes → Call
  lists_indexes : Bytes → Bytes → Call
  lists_keys : Bytes → Bytes → Call
  lists_roles : Call
  generates : Bytes → Bytes → Bytes → Call
  asks_comment : Bytes → Bytes → Call
  finds_usages : Bytes → Bytes → Call
  scans : Bytes → ℕ → Call
  gets_value : Bytes → Call
  redis_command : List Bytes → Call
  finds : Bytes → Bytes → List Bytes → ℕ → ℕ → Call
  lists_doc_indexes : Bytes → Bytes → Call
  mongo_command : Bytes → Bytes → Call

-- A call, and the pool it was made on.
pub record Made : Type 0 where
  pub handle : Handle
  pub call : Call

-- May the call change its target?
unfoldable pub may_write : Call → Bool
may_write (queries sql read_only schema) = not read_only
may_write (executes sql) = true
may_write (runs_script stmts) = true
may_write (redis_command args) = true
may_write (mongo_command db cmd) = true
may_write _ = false

-- The targets: what a call answers may depend on all the calls before it. A failed query may still
-- bring a result.
pub record Target : Type 0 where
  pub table_of : List Made → Made → Result (Bytes × Option Table) Table
  pub error_of : List Made → Made → Option Bytes
  pub columns_of : List Made → Made → Result Bytes (List Column)
  pub indexes_of : List Made → Made → Result Bytes (List Index)
  pub keys_of : List Made → Made → Result Bytes (List TableKey)
  pub texts_of : List Made → Made → List Bytes × Option Bytes
  pub text_of : List Made → Made → Result Bytes Bytes
  pub scan_of : List Made → Made → Result Bytes (List Bytes × ℕ)
  pub docs_of : List Made → Made → Result Bytes (List Bytes)

pub record Site : Type 0 where
  pub store : Store
  pub registry : Registry
  pub calls : List Made

-- What a request meets: the configuration, the sessions, the libraries and the time. `redact` are
-- the replacements of credentials in `auditDetail`, `timestamp` is RFC 3339, and `nonce n` is that of
-- the n-th encryption.
pub record Env : Type 1 where
  pub cfg : Config
  pub sessions : Sessions
  pub fetch : Fetch
  pub lib : Library
  pub box : Box
  pub nonce : ℕ → Bytes
  pub files : Files
  pub drivers : Drivers
  pub net : Net
  pub target : Target
  pub bson : Bson
  pub redact : Bytes → Bytes
  pub timestamp : ℕ → Bytes
  pub now : ℕ
  pub serial : ℕ

-- The last byte sequence is an ellipsis.
unfoldable pub truncate : Bytes → ℕ → Bytes
truncate s n = if leb (length s) n then s else take n s ++ 226 ∷ 128 ∷ 166 ∷ []

unfoldable pub audit_detail : Env → Bytes → Bytes
unfolding truncate
audit_detail e s = truncate (e.redact s) 500

-- The map that serves a kind: `Registry.Engine`.
unfoldable pub engine_family : Bytes → Family
engine_family kind =
    if str_eq (family kind) family_mysql
    then mysql
    else if str_eq (family kind) family_sqlite
    then sqlite
    else pg

-- The callback of `OnCredentialAccess`, in cmd/server/main.go: an entry of the audit log.
unfoldable pub credential_used : Env → Connection → Store → Store
credential_used e c s =
    (add_audit s
      (record {
        id = 0;
        ts = 0;
        user = [];
        conn_id = c.id;
        action = codes "cred_access";
        detail = c.name;
        success = true;
      })
      e.now).0

-- A pool or client of the registry, with the entry for the use of the stored password.
unfoldable pub open_pool : Env → Family → Site → Connection → Site × Result OpenError Handle
unfolding credential_used
open_pool e f s c =
    let uses = uses_credential e.lib e.files e.drivers e.box e.cfg.sqlite_dir s.registry f c in
    let (r, result) =
      connect e.lib e.files e.drivers e.box e.cfg.sqlite_dir s.registry f c e.serial e.now in
    (
      record s { registry = r; store = if uses then credential_used e c s.store else s.store },
      result,
    )

-- `Registry.Engine`
abbrev pub open_engine : Env → Site → Connection → Site × Result OpenError Handle
open_engine e s c = open_pool e (engine_family c.kind) s c

unfoldable pub called : Site → Made → Site
called s m = record s { calls = m ∷ s.calls }

-- An entry of the audit log, by the user and on the connection.
unfoldable pub audited : Env → User → ℕ → Bytes → Bytes → Bool → Site → Site
audited e u conn_id action detail success s = record s {
  store =
      (add_audit s.store
        (record {
          id = 0;
          ts = 0;
          user = u.email;
          conn_id = conn_id;
          action = action;
          detail = detail;
          success = success;
        })
        e.now).0;
}

abbrev pub succeeded : Option Bytes → Bool
succeeded none = true
succeeded (some error) = false

-- The statements of a script in the audit log.
abbrev pub script_text : List Bytes → Bytes
script_text stmts = join (codes "; ") stmts
