-- ===== src/Examples/Web.antt =====
-- Requests of the writer and of an admin, to a database that answers every call.
use verix_dbm.Base.{
  ◌+◌, ◌*◌, ◌≡◌, refl, ◌≢◌, ◌↔◌, ◌⊎◌, inl, Bool, true, false, not, ◌||◌, none, some, List, [], ◌∷◌,
  arith, ltb, if◌then◌else◌, length, OneOf, take, some_of, Bytes, codes, str_eq, ok, err, pos,
}
use verix_dbm.Auth.Roles.{User}
use verix_dbm.GoStrings.{
  trim_space, trim_left, trim_right, is_space, split, add_head, has_prefix, lower,
}
use verix_dbm.GoMap.{lookup, insert}
use verix_dbm.Regex.{is_word, is_blank, at_edge, run_many, run_one, run, search, matches, word}
use verix_dbm.Sql.Confirm.{
  closes, strip_blocks, strip_lines, is_destructive, is_change, has_where, stmt_needs_confirm,
  needs_confirm,
}
use verix_dbm.Auth.Sessions.{check_csrf, csrf_matches, csrf_for, get, if_live, is_expired}
use verix_dbm.Access.{conn_for, access, resolve_conn_access}
use verix_dbm.Registry.{
  connect, find, go_on, dial, finish_opening, enter, with_pools, same, secret, password, open_with,
  uses_credential,
}
use verix_dbm.Sql.Screens.{server_side_blocked}
use verix_dbm.Registry.{Handle, new_registry, pg}
use verix_dbm.Store.{edited, Connection, find_row, get_connection}
use verix_dbm.Store.Grants.{completes}
use verix_dbm.Sql.{given}
use verix_dbm.Sql.Families.{family, family_sqlite}
use verix_dbm.Sql.Dialects.{dialect}
use verix_dbm.Mongo.{Bson}
use verix_dbm.GoStrings.{to_lower}
use verix_dbm.Mongo.{command_name, mongo_read_allowed, mongo_needs_confirm}
use verix_dbm.Mongo.Pages.{page_at, pages_before, pages_before-take}
use verix_dbm.Redis.{parse_args, redis_read_allowed, redis_needs_confirm}
use verix_dbm.Registry.{redis, mongo}
use verix_dbm.Web.Site.{redis_command, mongo_command}
use verix_dbm.Web.Consoles.{open_client, RedisBody, api_redis_cmd, MongoBody, api_mongo_cmd}
use verix_dbm.Web.Consoles.Checks.{Cleared, command_made, api_redis_cmd_lem, api_mongo_cmd_lem}
use verix_dbm.Web.Egress.{
  Net, guard_egress_host, addresses, check_addresses, blocked_egress_ip, IsReachable,
  guard_conn_egress, guard_conn_egress_iff,
}
use verix_dbm.Web.Site.{
  Target, Site, Env, Made, open_engine, queries, called, audited, open_pool, credential_used,
  engine_family,
}
use verix_dbm.Web.Gates.{csrf_ok, find_conn, may}
use verix_dbm.Web.Gates.Passing.{Permitted, Same}
use verix_dbm.Web.Statements.{TxBody, Job, runs_tx, for_admins, plan, serve_statement}
use verix_dbm.Web.Statements.Outcomes.{Done, serve_statement_lem}
use verix_dbm.Web.Console.{
  QueryBody, api_query, query_on, runs_read_only, screened, query_with, run_query,
}
use verix_dbm.Web.Console.Checks.{Screened, query_made, api_query_lem}
use verix_dbm.Web.Connections.{ConnInput, conn_of, create_from, update_from, api_list_connections}
use verix_dbm.Web.Connections.Passwords.{
  Entered, password_in, create_from-password, update_from-password,
}
use verix_dbm.Web.Connections.Secrets.{repaint, api_list_connections-repaint}
use verix_dbm.Web.Admin.{api_reencrypt}
use verix_dbm.Web.Admin.Rotation.{secret_of, api_reencrypt-secret_of}
use verix_dbm.Web.Safety.{asks, serve, Accounted, serve-Permitted}
use verix_dbm.Web.Editing.{deletes_connection, serve_edit, serve_edit_lem}
use verix_dbm.Examples.Auth.{cfg, writer, sessions, request}
use verix_dbm.Examples.Access.{database, two_grants}
use verix_dbm.Examples.Crypto.{plain, before, before-IsBox, nonce}
use verix_dbm.Examples.Registry.{flat, answering}
use verix_dbm.Examples.Store.{two_grants-IsConsistent}

-- The names that begin with `l` are those of the machine itself.
abbrev names : Net
names = record {
  Address = Bool;
  parse_ip = λ host. none;
  look_up = λ host. some (str_eq host (codes "localhost") ∷ []);
  is_loopback = λ ip. ip;
  is_link_local_unicast = λ ip. false;
  is_link_local_multicast = λ ip. false;
  is_interface_local_multicast = λ ip. false;
  is_multicast = λ ip. false;
  is_unspecified = λ ip. false;
}

guard_conn_egress_iff_example : (guard_conn_egress names cfg database ≡ none) ↔ (
    (str_eq (family database.kind) family_sqlite ≡ true)
    ⊎ (((cfg.allow_local_targets || cfg.dev_mode) ≡ true)
        ⊎ ((trim_space database.host ≢ []) × IsReachable names (trim_space database.host))))
guard_conn_egress_iff_example = guard_conn_egress_iff names cfg database

abbrev answers : Target
answers = record {
  table_of = λ calls m. err (codes "no such table", none);
  error_of = λ calls m. none;
  columns_of = λ calls m. ok [];
  indexes_of = λ calls m. ok [];
  keys_of = λ calls m. ok [];
  texts_of = λ calls m. ([], none);
  text_of = λ calls m. ok [];
  scan_of = λ calls m. ok ([], 0);
  docs_of = λ calls m. ok [];
}

-- A text is the name of its command.
abbrev documents : Bson
documents = record {
  is_document = λ d. true;
  field_names = λ d. some (d ∷ []);
  unmarshal = λ d. none;
}

abbrev env : Env
env = record {
  cfg = cfg;
  sessions = sessions;
  fetch = completes;
  lib = plain;
  box = before;
  nonce = λ n. nonce;
  files = flat;
  drivers = answering;
  net = names;
  target = answers;
  bson = documents;
  redact = λ s. s;
  timestamp = λ t. [];
  now = 50;
  serial = 1;
}

abbrev site : Site
site = record { store = two_grants; registry = new_registry; calls = [] }

abbrev transaction : TxBody
transaction = record { statements = codes "INSERT INTO t VALUES (1)" ∷ []; confirm = false }

serve_statement_lem_example :
    Same env writer 1 site (serve_statement env writer request 1 (runs_tx transaction) true site).0
    ⊎ ((h : Handle) × (job : Job) × (p : Permitted env writer request 1 site h) × (for_admins
              (runs_tx transaction)
            ≡ true
          → writer.admin ≡ true)
        × (plan (runs_tx transaction) writer p.conn (dialect h.family) ≡ ok job)
        × Done env writer 1 p.conn.id h job site
            (serve_statement env writer request 1 (runs_tx transaction) true site).0)
serve_statement_lem_example =
    serve_statement_lem env writer request 1 (runs_tx transaction) true site

abbrev statement : QueryBody
statement = record { sql = codes " SELECT 1"; confirm = false; schema = [] }

api_query_lem_example :
    Same env writer 1 site (api_query env writer request 1 (some statement) site).0
    ⊎ ((c : Connection) × (b : QueryBody) × (h : Handle) × (csrf_ok env request ≡ true)
        × (find_conn env writer 1 site ≡ ok c)
        × (some statement ≡ some b)
        × Screened writer c b (c.read_only || not (may env writer site c))
        × ((open_engine env site c).1 ≡ ok h)
        × ((api_query env writer request 1 (some statement) site).0.calls
            ≡ query_made h b (c.read_only || not (may env writer site c)) ∷ []))
api_query_lem_example = api_query_lem env writer request 1 (some statement) site

abbrev boss : User
boss = record writer { admin = true }

-- The call that the statement makes.
abbrev asked : Made
asked = record {
  handle = record { family = pg; conn_id = 1; serial = 1 };
  call = queries (codes "SELECT 1") false [];
}

asked-OneOf : OneOf asked (serve env boss request 1 (asks (some statement)) site).0.calls
unfolding serve api_query query_on runs_read_only screened query_with run_query called audited
    open_pool credential_used uses_credential engine_family connect find go_on dial finish_opening
    enter with_pools same secret password open_with lookup insert new_registry check_csrf
    csrf_matches csrf_for get if_live is_expired conn_for get_connection find_row access
    resolve_conn_access trim_space trim_left trim_right is_space str_eq server_side_blocked
    needs_confirm stmt_needs_confirm strip_blocks strip_lines closes is_destructive is_change
    has_where split add_head matches search run run_one run_many is_word is_blank at_edge word
    has_prefix lower some_of family
asked-OneOf = inl refl

serve-Permitted_example : Accounted env boss request 1 site asked
serve-Permitted_example =
    serve-Permitted env boss request 1 (asks (some statement)) site asked asked-OneOf

abbrev entered : ConnInput
entered = record {
  name = codes "new";
  kind = codes "mysql";
  host = codes "db.example";
  port = pos 3306;
  db_name = codes "d";
  username = codes "u";
  password = codes "secret";
  copy_from = pos 0;
  options = [];
  read_only = false;
}

serve_edit_lem_example :
    ((csrf_ok env request ≡ true) × (writer.admin ≡ true))
    ⊎ (((serve_edit env writer request (deletes_connection 1) site).0 ≡ site)
        × ((serve_edit env writer request (deletes_connection 1) site).1.status ≡ 403))
serve_edit_lem_example = serve_edit_lem env writer request (deletes_connection 1) site

reachable : guard_conn_egress names cfg (conn_of entered (codes "e")) ≡ none
unfolding guard_conn_egress guard_egress_host addresses check_addresses blocked_egress_ip family
    trim_space trim_left trim_right is_space str_eq conn_of lookup some_of
reachable = refl

reachable_again : guard_conn_egress names cfg (edited (conn_of entered (codes "e")) database) ≡ none
unfolding edited conn_of guard_conn_egress
reachable_again = reachable

is_given : given entered.password ≡ true
unfolding str_eq
is_given = refl

database_found : find_row 1 two_grants.connections ≡ some database
unfolding find_row
database_found = refl

create_from-password_example :
    (c : Connection) × (find_row 2 (create_from env boss entered site).0.store.connections ≡ some c)
    × Entered entered 2 c
    × (password_in env c ≡ (ok (codes "secret"), true))
create_from-password_example =
    create_from-password env boss entered site before-IsBox refl two_grants-IsConsistent is_given
      reachable

update_from-password_example :
    (c : Connection) × (find_row 1 (update_from env boss database entered site).0.store.connections
      ≡ some c)
    × Entered entered 1 c
    × (password_in env c ≡ (
        if given entered.password then (ok (codes "secret"), true) else password_in env database))
update_from-password_example =
    update_from-password env boss database entered site before-IsBox refl database_found
      reachable_again

api_reencrypt-secret_of_example :
    secret_of env (find_row 1 (api_reencrypt env boss request site).0.store.connections)
    ≡ secret_of env (find_row 1 two_grants.connections)
api_reencrypt-secret_of_example =
    api_reencrypt-secret_of env boss request site 1 before-IsBox (λ n. refl) two_grants-IsConsistent

api_list_connections-repaint_example :
    (api_list_connections env writer (repaint (λ c. codes "x") site)).1
    ≡ (api_list_connections env writer site).1
api_list_connections-repaint_example = api_list_connections-repaint env writer (λ c. codes "x") site

abbrev redis_body : RedisBody
redis_body = record { cmd = codes " GET k"; confirm = false }

api_redis_cmd_lem_example :
    Same env writer 1 site (api_redis_cmd env writer request 1 (some redis_body) site).0
    ⊎ ((c : Connection) × (b : RedisBody) × (arg : Bytes) × (rest : List Bytes) × (h : Handle)
        × (csrf_ok env request ≡ true)
        × (find_conn env writer 1 site ≡ ok c)
        × (some redis_body ≡ some b)
        × (parse_args b.cmd ≡ arg ∷ rest)
        × Cleared
            (c.read_only || not (may env writer site c))
            (redis_read_allowed (to_lower arg))
            (redis_needs_confirm (parse_args b.cmd))
            writer.admin
            b.confirm
        × ((open_client env redis site c).1 ≡ ok h)
        × ((api_redis_cmd env writer request 1 (some redis_body) site).0.calls
            ≡ command_made h (redis_command (parse_args b.cmd)) ∷ []))
api_redis_cmd_lem_example = api_redis_cmd_lem env writer request 1 (some redis_body) site

abbrev mongo_body : MongoBody
mongo_body = record { db = codes "d"; cmd = codes "ping"; confirm = false }

api_mongo_cmd_lem_example :
    Same env writer 1 site (api_mongo_cmd env writer request 1 (some mongo_body) site).0
    ⊎ ((c : Connection) × (b : MongoBody) × (name : Bytes) × (h : Handle) × (csrf_ok env request
          ≡ true)
        × (find_conn env writer 1 site ≡ ok c)
        × (some mongo_body ≡ some b)
        × (command_name documents b.cmd ≡ ok name)
        × Cleared
            (c.read_only || not (may env writer site c))
            (mongo_read_allowed name)
            (mongo_needs_confirm name)
            writer.admin
            b.confirm
        × ((open_client env mongo site c).1 ≡ ok h)
        × ((api_mongo_cmd env writer request 1 (some mongo_body) site).0.calls
            ≡ command_made h (mongo_command b.db b.cmd) ∷ []))
api_mongo_cmd_lem_example = api_mongo_cmd_lem env writer request 1 (some mongo_body) site

-- Two pages of two documents each.
abbrev five : List Bytes
five = codes "a" ∷ codes "b" ∷ codes "c" ∷ codes "d" ∷ codes "e" ∷ []

pages_before-take_example :
    (pages_before 2 2 five ≡ take (2 * 2) five)
    × ((page_at 2 2 five).has_more ≡ ltb (2 * 2 + 2) (length five))
pages_before-take_example = pages_before-take 2 2 five (omega arith) (omega arith) (omega arith)
