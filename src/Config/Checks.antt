-- ===== src/Config/Checks.antt =====
-- When `Load` accepts a configuration, and what an accepted one has.
use verix_dbm.Base.{
  ◌≡◌, sym, subst, ◌≢◌, ◌↔◌, ◌⊎◌, true, [], ◌∷◌, ◌++◌, arith, Bytes, codes, str_eq_iff,
}
use verix_dbm.Config.{Env, Config, loaded, from_env, load, env, with_redirect, validate}

-- Dev mode, or an issuer, a client and one of the two forms of the encryption key.
abbrev pub CanStart : Config → Type 0
CanStart c =
    (c.dev_mode ≡ true)
    ⊎ ((c.oidc_issuer ≢ []) × (c.oidc_client_id ≢ []) × ((c.enc_key ≢ []) ⊎ (c.enc_keys ≢ [])))

validate-loaded : (c d : Config) → validate c ≡ loaded d → CanStart c × (d ≡ c)
unfolding validate
validate-loaded c d h = ground (
  arith,
  str_eq_iff c.oidc_issuer [],
  str_eq_iff c.oidc_client_id [],
  str_eq_iff c.enc_key [],
  str_eq_iff c.enc_keys [],
)

validate-CanStart : (c : Config) → CanStart c → validate c ≡ loaded c
unfolding validate
validate-CanStart c h = ground (
  arith,
  str_eq_iff c.oidc_issuer [],
  str_eq_iff c.oidc_client_id [],
  str_eq_iff c.enc_key [],
  str_eq_iff c.enc_keys [],
)

CanStart-with_redirect : (c : Config) → CanStart c ↔ CanStart (with_redirect c)
unfolding with_redirect
CanStart-with_redirect c = ground arith

-- `Load` returns a configuration exactly when dev mode is on, or the issuer, the client id and one
-- of the two key variables are set; else it refuses to start.
pub load_iff :
    (getenv : Env) → ((c : Config) × (load getenv ≡ loaded c)) ↔ CanStart (from_env getenv)
unfolding load
load_iff getenv =
    let c = from_env getenv in
    (
      (λ (d, h). (CanStart-with_redirect c).1 (validate-loaded (with_redirect c) d h).0),
      (λ h.
          (with_redirect c, validate-CanStart (with_redirect c) ((CanStart-with_redirect c).0 h))),
    )

env-ne-nil : (getenv : Env) (key def : Bytes) → def ≢ [] → env getenv key def ≢ []
unfolding env
env-ne-nil getenv key def h = ground (arith, str_eq_iff (getenv key) [])

append-ne-nil : (s t : Bytes) → t ≢ [] → s ++ t ≢ []
append-ne-nil [] t h = h
append-ne-nil (c ∷ s) t h = λ e. cc

-- What every accepted configuration has.
abbrev pub Configured : Env → Config → Type 0
Configured getenv c =
    (c.oidc_admin_role ≢ [])
    × (c.oidc_write_role ≢ [])
    × (c.oidc_read_role ≢ [])
    × (c.oidc_redirect_url ≢ [])
    × ((c.dev_mode ≡ true) ↔ (getenv (codes "DBM_DEV_MODE") ≡ codes "true"))

redirect-ne-nil : (c : Config) → (with_redirect c).oidc_redirect_url ≢ []
unfolding with_redirect
redirect-ne-nil c = ground (
  arith,
  str_eq_iff c.oidc_redirect_url [],
  append-ne-nil c.base_url (codes "/auth/callback") (λ e. cc),
)

from_env-Configured : (getenv : Env) → Configured getenv (with_redirect (from_env getenv))
unfolding with_redirect from_env
from_env-Configured getenv = (
  ground (arith, env-ne-nil getenv (codes "OIDC_ADMIN_ROLE") (codes "dbm-admin") (λ e. cc)),
  ground (arith, env-ne-nil getenv (codes "OIDC_WRITE_ROLE") (codes "dbm-write") (λ e. cc)),
  ground (arith, env-ne-nil getenv (codes "OIDC_READ_ROLE") (codes "dbm-read") (λ e. cc)),
  redirect-ne-nil (from_env getenv),
  ground (arith, str_eq_iff (getenv (codes "DBM_DEV_MODE")) (codes "true")),
)

-- An accepted configuration names a role for each capability and a redirect address, whatever the
-- environment holds, and is in dev mode only if `DBM_DEV_MODE` is exactly `true`.
pub loaded-Configured : (getenv : Env) (c : Config) → load getenv ≡ loaded c → Configured getenv c
unfolding load
loaded-Configured getenv c h =
    subst (Configured getenv) (sym (validate-loaded (with_redirect (from_env getenv)) c h).1)
      (from_env-Configured getenv)
