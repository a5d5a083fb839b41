-- ===== src/Config.antt =====
-- internal/config/config.go: the configuration, read from the environment. `os.Getenv` is a
-- function from names to values, with "" for a variable that is not set. Log lines are left out.
pub mod Checks
use verix_dbm.Base.{
  ℕ, zero, suc, ◌+◌, ◌-◌, ◌*◌, ◌≤◌, ◌<◌, String, ◌≡◌, refl, sym, ap, ◌∙◌, subst, ◌≢◌, ◌↔◌, ◌⊎◌, inl,
  inr, Bool, true, false, not, ◌&&◌, ◌||◌, Option, none, some, List, [], ◌∷◌, ◌++◌, map, append-nil,
  append_assoc, arith, ltb, leb, ◌==◌, if◌then◌else◌, ==_iff, Bool-cases, Option-cases, Bool-ext,
  length, length-append, All, OneOf, keep_if, keep_if-nil, keep_if-cons, length-keep_if-le, take,
  some_of, some_of-take, some_of-append, some_of-keep_if, some_of_elim, some_of_intro,
  keep_if-OneOf, OneOf-keep_if, keep_if_laws, Bytes, codes, str_eq, str_eq_iff, str_eq_refl,
  contains, contains_iff, contains-cons, contains-append, ◌>>=◌, Result-cases, Result, ok, err,
  max_int, ℤ, pos, negsuc,
}

-- The environment.
abbrev pub Env : Type 0
Env = Bytes → Bytes

is_digit : ℕ → Bool
is_digit c = leb b'0' c && leb c b'9'

-- The digits of a decimal number, to a value.
unfoldable pub decimal : ℕ → Bytes → Option ℕ
unfolding is_digit
decimal n [] = some n
decimal n (c ∷ s) = elim (is_digit c) [ true ↦ decimal (n * 10 + (c - b'0')) s | false ↦ none ]

-- A text with no digit is refused.
unfoldable pub number : Bytes → Option ℕ
unfolding decimal
number [] = none
number (c ∷ s) = decimal 0 (c ∷ s)

signed_pos : Option ℕ → Option ℤ
signed_pos none = none
signed_pos (some n) = if leb n max_int then some (pos n) else none

signed_neg : Option ℕ → Option ℤ
signed_neg none = none
signed_neg (some zero) = some (pos 0)
signed_neg (some (suc n)) = if leb n max_int then some (negsuc n) else none

-- `strconv.Atoi`: an optional sign, then digits, within 64 bits.
unfoldable pub atoi : Bytes → Option ℤ
unfolding number signed_pos signed_neg
atoi [] = none
atoi (c ∷ s) =
    if c == b'-'
    then signed_neg (number s)
    else if c == b'+'
    then signed_pos (number s)
    else signed_pos (number (c ∷ s))

unfoldable pub env : Env → Bytes → Bytes → Bytes
env getenv key def = let v = getenv key in if str_eq v [] then def else v

non_negative : ℕ → Option ℤ → ℕ
non_negative def none = def
non_negative def (some (negsuc n)) = def
non_negative def (some (pos n)) = n

unfoldable pub int_env : Env → Bytes → ℕ → ℕ
unfolding non_negative
int_env getenv key def =
    let v = getenv key in if str_eq v [] then def else non_negative def (atoi v)

pub record Config : Type 0 where
  pub addr : Bytes
  pub sqlite_path : Bytes
  pub sqlite_dir : Bytes
  pub enc_key : Bytes
  pub enc_keys : Bytes
  pub base_url : Bytes
  pub oidc_issuer : Bytes
  pub oidc_client_id : Bytes
  pub oidc_client_secret : Bytes
  pub oidc_redirect_url : Bytes
  pub oidc_admin_role : Bytes
  pub oidc_write_role : Bytes
  pub oidc_read_role : Bytes
  pub open_read : Bool
  pub scoped_access : Bool
  pub trust_proxy : Bool
  pub allow_local_targets : Bool
  pub session_backend : Bytes
  pub session_redis_url : Bytes
  pub store_driver : Bytes
  pub store_dsn : Bytes
  pub pg_pool_max_conns : ℕ
  pub log_level : Bytes
  pub log_format : Bytes
  pub metrics_token : Bytes
  pub audit_retention_days : ℕ
  pub dev_mode : Bool

pub data ConfigError : Type 0 where
  auth_not_configured : ConfigError
  key_not_configured : ConfigError

pub data Loaded : Type 0 where
  loaded : Config → Loaded
  refused : ConfigError → Loaded

-- The literal that `Load` starts from.
unfoldable pub from_env : Env → Config
from_env getenv = record {
  addr = env getenv (codes "DBM_ADDR") (codes ":8080");
  sqlite_path = env getenv (codes "DBM_SQLITE_PATH") (codes "./data/verix-dbm.db");
  sqlite_dir = getenv (codes "DBM_SQLITE_DIR");
  enc_key = getenv (codes "DBM_ENC_KEY");
  enc_keys = getenv (codes "DBM_ENC_KEYS");
  base_url = env getenv (codes "DBM_BASE_URL") (codes "http://localhost:8080");
  oidc_issuer = getenv (codes "OIDC_ISSUER");
  oidc_client_id = getenv (codes "OIDC_CLIENT_ID");
  oidc_client_secret = getenv (codes "OIDC_CLIENT_SECRET");
  oidc_redirect_url = getenv (codes "OIDC_REDIRECT_URL");
  oidc_admin_role = env getenv (codes "OIDC_ADMIN_ROLE") (codes "dbm-admin");
  oidc_write_role = env getenv (codes "OIDC_WRITE_ROLE") (codes "dbm-write");
  oidc_read_role = env getenv (codes "OIDC_READ_ROLE") (codes "dbm-read");
  open_read = str_eq (getenv (codes "DBM_OPEN_READ")) (codes "true");
  scoped_access = str_eq (getenv (codes "DBM_SCOPED_ACCESS")) (codes "true");
  trust_proxy = str_eq (getenv (codes "DBM_TRUST_PROXY")) (codes "true");
  allow_local_targets = str_eq (getenv (codes "DBM_ALLOW_LOCAL_TARGETS")) (codes "true");
  session_backend = env getenv (codes "DBM_SESSION_BACKEND") (codes "memory");
  session_redis_url = getenv (codes "DBM_SESSION_REDIS_URL");
  store_driver = env getenv (codes "DBM_STORE_DRIVER") (codes "sqlite");
  store_dsn = getenv (codes "DBM_STORE_DSN");
  pg_pool_max_conns = int_env getenv (codes "DBM_PG_POOL_MAX_CONNS") 4;
  log_level = env getenv (codes "DBM_LOG_LEVEL") (codes "info");
  log_format = env getenv (codes "DBM_LOG_FORMAT") (codes "json");
  metrics_token = getenv (codes "DBM_METRICS_TOKEN");
  audit_retention_days = int_env getenv (codes "DBM_AUDIT_RETENTION_DAYS") 0;
  dev_mode = str_eq (getenv (codes "DBM_DEV_MODE")) (codes "true");
}

unfoldable pub with_redirect : Config → Config
with_redirect c =
    if str_eq c.oidc_redirect_url []
    then record c { oidc_redirect_url = c.base_url ++ codes "/auth/callback" }
    else c

-- The guards of `Load`, once the fields are read.
unfoldable pub validate : Config → Loaded
validate c =
    if c.dev_mode
    then loaded c
    else if str_eq c.oidc_issuer [] || str_eq c.oidc_client_id []
    then refused auth_not_configured
    else if str_eq c.enc_key [] && str_eq c.enc_keys []
    then refused key_not_configured
    else loaded c

unfoldable pub load : Env → Loaded
unfolding with_redirect validate
load getenv = validate (with_redirect (from_env getenv))
