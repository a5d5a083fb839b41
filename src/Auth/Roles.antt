-- ===== src/Auth/Roles.antt =====
-- internal/auth/auth.go: the user, the map from realm roles to capabilities, and merged role lists.
pub mod Caps
pub mod Merge
use verix_dbm.Base.{
  ℕ, zero, suc, ◌+◌, ◌-◌, ◌*◌, ◌≤◌, ◌<◌, String, ◌≡◌, refl, sym, ap, ◌∙◌, subst, ◌≢◌, ◌↔◌, ◌⊎◌, inl,
  inr, Bool, true, false, not, ◌&&◌, ◌||◌, Option, none, some, List, [], ◌∷◌, ◌++◌, map, append-nil,
  append_assoc, arith, ltb, leb, ◌==◌, if◌then◌else◌, ==_iff, Bool-cases, Option-cases, Bool-ext,
  length, length-append, All, OneOf, keep_if, keep_if-nil, keep_if-cons, length-keep_if-le, take,
  some_of, some_of-take, some_of-append, some_of-keep_if, some_of_elim, some_of_intro,
  keep_if-OneOf, OneOf-keep_if, keep_if_laws, Bytes, codes, str_eq, str_eq_iff, str_eq_refl,
  contains, contains_iff, contains-cons, contains-append, ◌>>=◌, Result-cases, Result, ok, err,
  max_int, ℤ, pos, negsuc,
}
use verix_dbm.Config.{Config}

pub record User : Type 0 where
  pub subject : Bytes
  pub name : Bytes
  pub email : Bytes
  pub roles : List Bytes
  pub groups : List Bytes
  pub admin : Bool
  pub write : Bool
  pub read : Bool
  pub csrf : Bytes

-- One round of the loop in `applyCaps`: the cases are tried from the top.
unfoldable pub apply_role : Config → User → Bytes → User
apply_role cfg u role =
    if str_eq role cfg.oidc_admin_role
    then record u { admin = true; write = true; read = true }
    else if str_eq role cfg.oidc_write_role
    then record u { write = true; read = true }
    else if str_eq role cfg.oidc_read_role
    then record u { read = true }
    else u

unfoldable pub apply_roles : Config → User → List Bytes → User
apply_roles cfg u [] = u
apply_roles cfg u (role ∷ roles) = apply_roles cfg (apply_role cfg u role) roles

unfoldable pub apply_caps : Config → User → User
apply_caps cfg u =
    let v = apply_roles cfg u u.roles in if cfg.open_read then record v { read = true } else v

-- `seen` holds the keys of the map, and `out` the result so far.
unfoldable pub merge_list : List Bytes → List Bytes → List Bytes → List Bytes × List Bytes
merge_list [] seen out = (seen, out)
merge_list (r ∷ rs) seen out = elim (str_eq r [] || contains seen r) [
  | true ↦ merge_list rs seen out
  | false ↦ merge_list rs (r ∷ seen) (out ++ r ∷ [])
]

unfoldable pub merge_lists : List (List Bytes) → List Bytes → List Bytes → List Bytes
merge_lists [] seen out = out
merge_lists (l ∷ ls) seen out =
    let (seen', out') = merge_list l seen out in merge_lists ls seen' out'

unfoldable pub merge_roles : List (List Bytes) → List Bytes
merge_roles lists = merge_lists lists [] []

pub subjects : User → List Bytes
unfolding merge_roles
subjects u = merge_roles (u.roles ∷ u.groups ∷ [])
