-- ===== src/Sql.antt =====
-- internal/dbsql/dbsql.go: what the SQL engines share, with one child per dialect.
pub mod Quoting
pub mod Mysql
pub mod Sqlite
pub mod Postgres
pub mod Families
pub mod Screens
pub mod Confirm
pub mod Forms
pub mod Scripts
pub mod Dialects
pub mod Reads
use verix_dbm.Base.{
  ℕ, zero, suc, ◌+◌, ◌-◌, ◌*◌, ◌≤◌, ◌<◌, String, ◌≡◌, refl, sym, ap, ◌∙◌, subst, ◌≢◌, ◌↔◌, ◌⊎◌, inl,
  inr, Bool, true, false, not, ◌&&◌, ◌||◌, Option, none, some, List, [], ◌∷◌, ◌++◌, map, append-nil,
  append_assoc, arith, ltb, leb, ◌==◌, if◌then◌else◌, ==_iff, Bool-cases, Option-cases, Bool-ext,
  length, length-append, All, OneOf, keep_if, keep_if-nil, keep_if-cons, length-keep_if-le, take,
  some_of, some_of-take, some_of-append, some_of-keep_if, some_of_elim, some_of_intro,
  keep_if-OneOf, OneOf-keep_if, keep_if_laws, Bytes, codes, str_eq, str_eq_iff, str_eq_refl,
  contains, contains_iff, contains-cons, contains-append, ◌>>=◌, Result-cases, Result, ok, err,
  max_int, ℤ, pos, negsuc,
}

pub record Column : Type 0 where
  pub name : Bytes
  pub kind : Bytes
  pub not_null : Bool
  pub fallback : Bytes
  pub pk : Bool
  pub auto_inc : Bool

pub record Index : Type 0 where
  pub name : Bytes
  pub unique : Bool
  pub primary : Bool
  pub definition : Bytes
  pub cols : Bytes

-- A constraint of a table.
pub record TableKey : Type 0 where
  pub name : Bytes
  pub kind : Bytes
  pub definition : Bytes
  pub cols : Bytes

pub record RoleAttrs : Type 0 where
  pub login : Bool
  pub super : Bool
  pub create_db : Bool
  pub create_role : Bool
  pub password : Bytes
  pub host : Bytes

pub record FormSpec : Type 0 where
  pub kind : Bytes
  pub schema : Bytes
  pub table : Bytes
  pub column : Bytes
  pub name : Bytes
  pub type : Bytes
  pub fallback : Bytes
  pub columns : Bytes
  pub nullable : Bool
  pub unique : Bool
  pub owner : Bytes
  pub role : RoleAttrs

-- Statements, and the label of the audit entry.
abbrev pub Script : Type 0
Script = List Bytes × Bytes

pub data FormError : Type 0 where
  required : Bytes → FormError
  unsupported : Bytes → FormError
  unknown_kind : Bytes → FormError

-- An optional clause of a statement.
abbrev pub clause : Bool → Bytes → Bytes
clause on text = if on then text else []

-- Is the field filled in?
abbrev pub given : Bytes → Bool
given s = not (str_eq s [])

abbrev pub requires : Bool → String → Script → Result FormError Script
requires filled text script = if filled then ok script else err (required (codes text))

-- A statement that is left out unless it is wanted.
abbrev pub statement_if : Bool → Bytes → List Bytes
statement_if on text = if on then text ∷ [] else []

-- Does an edit change the name?
abbrev pub renames : Bytes → Bytes → Bool
renames name new_name = given new_name && not (str_eq new_name name)
