-- ===== src/Examples/Config.antt =====
-- Environments that `Load` accepts and refuses.
use verix_dbm.Base.{◌≡◌, refl, ◌↔◌, none, some, [], if◌then◌else◌, codes, str_eq, pos, negsuc}
use verix_dbm.Config.{
  Config, with_redirect, env, Env, load, loaded, refused, auth_not_configured, from_env, atoi,
  int_env,
}
use verix_dbm.Config.Checks.{CanStart, load_iff}

-- Dev mode and nothing else.
abbrev dev_env : Env
dev_env key = if str_eq key (codes "DBM_DEV_MODE") then codes "true" else []

abbrev empty_env : Env
empty_env key = []

load-empty : load empty_env ≡ refused auth_not_configured
unfolding load from_env env int_env str_eq
load-empty = refl

atoi_examples :
    (atoi (codes "-12") ≡ some (negsuc 11))
    × (atoi (codes "+7") ≡ some (pos 7))
    × (atoi (codes "9223372036854775808") ≡ none)
    × (atoi (codes "1x") ≡ none)
unfolding atoi
atoi_examples = (refl, refl, refl, refl)

load_iff_example : ((c : Config) × (load dev_env ≡ loaded c)) ↔ CanStart (from_env dev_env)
load_iff_example = load_iff dev_env

abbrev dev_config : Config
dev_config = with_redirect (from_env dev_env)
