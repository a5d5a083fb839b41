-- ===== src/Sql/Postgres/Roles.antt =====
-- The option list of `CREATE ROLE` and `ALTER ROLE`.
use verix_dbm.Base.{String, ◌≡◌, Bool, not, ◌&&◌, List, arith, Bytes, codes, str_eq, contains}
use verix_dbm.Sql.{RoleAttrs}
use verix_dbm.Sql.Postgres.{role_options, flag, quote_literal}

-- Do the options set the attribute, and do they take it away?
abbrev pub sets : List Bytes → String → String → Bool × Bool
sets opts text negated = (contains opts (codes text), contains opts (codes negated))

-- An altered role gets each of the four attributes exactly as the form has it, stated or taken away;
-- a new role gets the attributes that the form has, and none is taken away.
pub role_options_lem :
    (a : RoleAttrs) (explicit : Bool)
    → (sets (role_options a explicit) "LOGIN" "NOLOGIN" ≡ (a.login, explicit && not a.login))
      × (sets (role_options a explicit) "SUPERUSER" "NOSUPERUSER"
          ≡ (a.super, explicit && not a.super))
      × (sets (role_options a explicit) "CREATEDB" "NOCREATEDB"
          ≡ (a.create_db, explicit && not a.create_db))
      × (sets (role_options a explicit) "CREATEROLE" "NOCREATEROLE"
          ≡ (a.create_role, explicit && not a.create_role))
unfolding role_options contains str_eq flag quote_literal
role_options_lem a explicit = ground arith
