-- ===== src/Auth/Roles/Caps.antt =====
-- What `applyCaps` grants, against a description that does not follow the loop.
use verix_dbm.Base.{◌≡◌, true, false, ◌||◌, List, [], ◌∷◌, arith, Bytes, str_eq_iff, contains}
use verix_dbm.Config.{Config}
use verix_dbm.Auth.Roles.{User, apply_role, apply_roles, apply_caps}

abbrev pub IsOrdered : User → Type 0
IsOrdered u = (u.admin ≡ true → u.write ≡ true) × (u.write ≡ true → u.read ≡ true)

-- A user as `Callback` makes it: with no capability yet.
abbrev pub IsFresh : User → Type 0
IsFresh u = (u.admin ≡ false) × (u.write ≡ false) × (u.read ≡ false)

-- Every capability of the result, for any role names, also where two of them are one text.
abbrev Granted : Config → User → List Bytes → User → Type 0
Granted cfg u roles v =
    (v.admin ≡ (u.admin || contains roles cfg.oidc_admin_role))
    × (v.write
        ≡ (u.write || (contains roles cfg.oidc_admin_role || contains roles cfg.oidc_write_role)))
    × (v.read ≡ (
        u.read
        || (contains roles cfg.oidc_admin_role
            || (contains roles cfg.oidc_write_role || contains roles cfg.oidc_read_role))))

apply_roles-Granted :
    (cfg : Config) (u : User) (roles : List Bytes) → Granted cfg u roles (apply_roles cfg u roles)
unfolding apply_roles contains apply_role
apply_roles-Granted cfg u [] = ground arith
apply_roles-Granted cfg u (r ∷ rs) = ground (
  arith,
  apply_roles-Granted cfg (apply_role cfg u r) rs,
  str_eq_iff r cfg.oidc_admin_role,
  str_eq_iff r cfg.oidc_write_role,
  str_eq_iff r cfg.oidc_read_role,
)

-- Of a new user: admin goes with the admin role alone, write with the admin or the write role, and
-- read with any of the three or with the open-read setting.
pub apply_caps_lem :
    (cfg : Config) (u : User)
    → IsFresh u
    → let v = apply_caps cfg u in
      (v.admin ≡ contains u.roles cfg.oidc_admin_role)
      × (v.write ≡ (contains u.roles cfg.oidc_admin_role || contains u.roles cfg.oidc_write_role))
      × (v.read ≡ (
          cfg.open_read
          || (contains u.roles cfg.oidc_admin_role
              || (contains u.roles cfg.oidc_write_role || contains u.roles cfg.oidc_read_role))))
unfolding apply_caps
apply_caps_lem cfg u fresh = ground (arith, apply_roles-Granted cfg u u.roles)

-- Admin implies write and write implies read, for whatever the roles are called.
pub apply_caps-IsOrdered : (cfg : Config) (u : User) → IsFresh u → IsOrdered (apply_caps cfg u)
apply_caps-IsOrdered cfg u fresh = ground (arith, apply_caps_lem cfg u fresh)
