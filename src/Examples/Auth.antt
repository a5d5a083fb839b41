-- ===== src/Examples/Auth.antt =====
-- A login from start to end, and what is refused on the way.
use verix_dbm.Base.{
  ◌≡◌, refl, ◌↔◌, ◌⊎◌, Bool, true, false, not, ◌&&◌, ◌||◌, none, some, List, [], ◌∷◌, if◌then◌else◌,
  Bytes, codes, str_eq, contains,
}
use verix_dbm.GoMap.{bytes_key, lookup, insert}
use verix_dbm.Config.{Config}
use verix_dbm.Auth.Roles.{
  User, apply_caps, apply_roles, apply_role, merge_roles, merge_list, merge_lists,
}
use verix_dbm.Auth.Roles.Caps.{apply_caps_lem}
use verix_dbm.Auth.Roles.Merge.{NoRepeats, in_some, merge_roles_lem}
use verix_dbm.Auth.Sessions.{
  Session, Sessions, Request, get, put, remove, current, put_user, csrf_for, check_csrf,
}
use verix_dbm.Auth.Sessions.Tokens.{Passes, check_csrf_iff}
use verix_dbm.Auth.Flow.{
  Provider, CallbackRequest, nobody, state_key, login_entry, login, after_check, callback,
  check_state, redeem, user_of, middleware, logout, fails, sets, keeps, clears,
}
use verix_dbm.Auth.Flow.Gate.{middleware-serves, logout-current}
use verix_dbm.Auth.Flow.Replay.{LoggedIn, callback-LoggedIn, callback_once}

-- The default configuration, as the empty environment gives it.
abbrev pub cfg : Config
cfg = record {
  addr = [];
  sqlite_path = [];
  sqlite_dir = [];
  enc_key = [];
  enc_keys = [];
  base_url = codes "http://h";
  oidc_issuer = codes "i";
  oidc_client_id = codes "c";
  oidc_client_secret = [];
  oidc_redirect_url = codes "r";
  oidc_admin_role = codes "dbm-admin";
  oidc_write_role = codes "dbm-write";
  oidc_read_role = codes "dbm-read";
  open_read = false;
  scoped_access = true;
  trust_proxy = false;
  allow_local_targets = false;
  session_backend = codes "memory";
  session_redis_url = [];
  store_driver = codes "sqlite";
  store_dsn = [];
  pg_pool_max_conns = 4;
  log_level = [];
  log_format = [];
  metrics_token = [];
  audit_retention_days = 0;
  dev_mode = false;
}

-- A provider that grants the write role to whoever comes with the code "code".
abbrev provider : Provider
provider = record {
  auth_code_url = λ state nonce verifier. codes "https://idp/";
  exchange = λ code verifier.
      if str_eq code (codes "code")
      then some (record { id_token = some (codes "raw"); access_token = [] })
      else none;
  verify = λ raw. some (
    codes "n",
    some (record {
      sub = codes "s";
      name = codes "N";
      email = codes "e";
      groups = codes "/ops" ∷ [];
      roles = codes "dbm-write" ∷ [];
    }),
  );
  verify_access = λ t. none;
  end_session = [];
  end_session_url = λ hint. [];
}

abbrev pending : Sessions
pending = (state_key (codes "st"), login_entry 0 (codes "st") (codes "n") (codes "v")) ∷ []

abbrev back : CallbackRequest
back = record { state = codes "st"; state_cookie = some (codes "st"); code = codes "code" }

abbrev pub writer : User
writer = record nobody {
  subject = codes "s";
  name = codes "N";
  email = codes "e";
  groups = codes "/ops" ∷ [];
  roles = codes "dbm-write" ∷ [];
  write = true;
  read = true;
}

login-pending : (login cfg provider [] 0 (codes "st") (codes "n") (codes "v")).0.sessions ≡ pending
unfolding login put insert
login-pending = refl

callback-sets :
    (callback cfg provider pending back 5 (codes "tok") (codes "x")).cookie ≡ sets (codes "tok")
unfolding callback check_state redeem get lookup str_eq
callback-sets = refl

user_of-writer :
    (callback cfg provider pending back 5 (codes "tok") (codes "x")).sessions
    ≡ put_user
        (remove pending (state_key (codes "st")))
        writer
        (codes "raw")
        5
        (codes "tok")
        (codes "x")
unfolding callback check_state redeem get lookup str_eq user_of apply_caps apply_roles apply_role
user_of-writer = refl

callback-LoggedIn_example :
    LoggedIn cfg provider pending back 5 (codes "tok") (codes "x")
    × ◌≡◌ {A = Bytes} (codes "tok") (codes "tok")
callback-LoggedIn_example =
    callback-LoggedIn cfg provider pending back 5 (codes "tok") (codes "x") (codes "tok")
      callback-sets

-- Two callbacks with one state that have both looked it up before either deletes it: the second, in
-- the sessions of the first, logs in as well.
overlapping :
    let ss' = (callback cfg provider pending back 5 (codes "tok") (codes "x")).sessions in
    (after_check cfg provider ss' back
      (check_state pending back 5)
      6
      (codes "t2")
      (codes "y")).cookie
    ≡ sets (codes "t2")
unfolding after_check check_state redeem get lookup str_eq
overlapping = refl

callback_once_example :
    let ss' = (callback cfg provider pending back 5 (codes "tok") (codes "x")).sessions in
    ((callback cfg provider ss' back 6 (codes "t2") (codes "y")).reply
      ≡ fails 400 (codes "invalid state"))
    × ((callback cfg provider ss' back 6 (codes "t2") (codes "y")).cookie ≡ keeps)
unfolding check_state get lookup str_eq
callback_once_example =
    callback_once cfg provider pending back back 5 6 (codes "tok") (codes "x") (codes "t2")
      (codes "y") (login_entry 0 (codes "st") (codes "n") (codes "v")) (refl, tt) (λ e. cc) refl
      refl

-- A session of the writer.
abbrev session : Session
session = record {
  user = writer;
  expires = 100;
  csrf = codes "x";
  id_token = [];
  oauth_state = [];
  nonce = [];
  pkce_verifier = [];
}

abbrev pub sessions : Sessions
sessions = (codes "tok", session) ∷ []

abbrev pub request : Request
request = record { cookie = some (codes "tok"); csrf_header = codes "x"; csrf_field = [] }

middleware-serves_example :
    ((current sessions request 50 ≡ some (record writer { csrf = codes "x" }))
      × ◌≡◌ {A = Bool} true true)
    ⊎ ((current sessions request 50 ≡ none)
        × (cfg.dev_mode ≡ true)
        × (writer.email ≡ codes "dev@localhost"))
unfolding middleware current get lookup str_eq
middleware-serves_example =
    middleware-serves cfg sessions request 50 [] [] (record writer { csrf = codes "x" }) refl

logout-current_example :
    let o = logout cfg provider sessions request 50 in
    ((check_csrf sessions request 50 ≡ true)
      × (current o.sessions request 60 ≡ none)
      × (o.cookie ≡ clears))
    ⊎ ((check_csrf sessions request 50 ≡ false)
        × (o.sessions ≡ sessions)
        × (o.reply ≡ fails 403 (codes "bad csrf")))
unfolding lookup
logout-current_example = logout-current cfg provider sessions request 50 60 (refl, tt)

check_csrf_iff_example :
    (check_csrf sessions request 50 ≡ true)
    ↔ ((key : Bytes) × (s : Session) × Passes sessions request 50 key s)
check_csrf_iff_example = check_csrf_iff sessions request 50

check_csrf-request : check_csrf sessions request 50 ≡ true
unfolding check_csrf csrf_for get lookup str_eq
check_csrf-request = refl

abbrev fresh_writer : User
fresh_writer = record writer { write = false; read = false }

apply_caps_lem_example :
    let v = apply_caps cfg fresh_writer in
    (v.admin ≡ contains fresh_writer.roles cfg.oidc_admin_role)
    × (v.write ≡ (
        contains fresh_writer.roles cfg.oidc_admin_role
        || contains fresh_writer.roles cfg.oidc_write_role))
    × (v.read ≡ (
        cfg.open_read
        || (contains fresh_writer.roles cfg.oidc_admin_role
            || (contains fresh_writer.roles cfg.oidc_write_role
                || contains fresh_writer.roles cfg.oidc_read_role))))
apply_caps_lem_example = apply_caps_lem cfg fresh_writer (refl, refl, refl)

abbrev lists : List (List Bytes)
lists = (codes "a" ∷ [] ∷ codes "b" ∷ []) ∷ (codes "b" ∷ codes "c" ∷ []) ∷ []

merge_roles-lists : merge_roles lists ≡ codes "a" ∷ codes "b" ∷ codes "c" ∷ []
unfolding merge_roles merge_lists merge_list contains str_eq
merge_roles-lists = refl

merge_roles_lem_example :
    NoRepeats (merge_roles lists)
    × ((s : Bytes) → contains (merge_roles lists) s ≡ (in_some lists s && not (str_eq s [])))
merge_roles_lem_example = merge_roles_lem lists
