-- ===== src/Sql/Forms.antt =====
-- The forms of the three dialects against each other.
use verix_dbm.Base.{
  String, ◌≡◌, refl, sym, subst, Bool, true, false, not, ◌&&◌, ◌||◌, arith, if◌then◌else◌, Bytes,
  codes, str_eq, str_eq_iff, Result, ok, err,
}
use verix_dbm.Sql.{FormSpec, FormError, Script, given, requires}
use verix_dbm.Sql.Mysql
use verix_dbm.Sql.Postgres
use verix_dbm.Sql.Sqlite

-- Does a form come to a script?
abbrev pub accepts : Result FormError Script → Bool
accepts (ok s) = true
accepts (err e) = false

accepts-if :
    (k b : Bool) (text : String) (s : Script) (r : Result FormError Script)
    → accepts (if k then requires b text s else r) ≡ (if k then b else accepts r)
accepts-if true true text s r = refl
accepts-if true false text s r = refl
accepts-if false b text s r = refl

-- Are the fields filled in that a form of this kind needs?
abbrev pub is_filled : FormSpec → Bool
is_filled f =
    if str_eq f.kind (codes "add-column")
    then given f.name && given f.type
    else if str_eq f.kind (codes "modify-column")
    then given f.type
    else if str_eq f.kind (codes "rename-table")
    then given f.name
    else if str_eq f.kind (codes "new-schema")
    then given f.name
    else if str_eq f.kind (codes "new-table")
    then given f.name && given f.columns
    else if str_eq f.kind (codes "new-index")
    then given f.name && given f.columns
    else if str_eq f.kind (codes "create-user")
    then given f.name
    else false

mysql_accepts : (f : FormSpec) → accepts (Mysql.form_sql f) ≡ is_filled f
unfolding Mysql.form_sql
mysql_accepts f =
    rw (accepts-if, accepts-if, accepts-if, accepts-if, accepts-if, accepts-if, accepts-if)

postgres_accepts : (f : FormSpec) → accepts (Postgres.form_sql f) ≡ is_filled f
unfolding Postgres.form_sql
postgres_accepts f =
    rw (accepts-if, accepts-if, accepts-if, accepts-if, accepts-if, accepts-if, accepts-if)

-- The kinds of forms that SQLite refuses whatever they hold.
abbrev pub sqlite_refuses : Bytes → Bool
sqlite_refuses kind =
    str_eq kind (codes "modify-column")
    || (str_eq kind (codes "new-schema") || str_eq kind (codes "create-user"))

taken :
    (sqlite_refuses (codes "add-column") ≡ false)
    × (sqlite_refuses (codes "rename-table") ≡ false)
    × (sqlite_refuses (codes "new-table") ≡ false)
    × (sqlite_refuses (codes "new-index") ≡ false)
unfolding str_eq
taken = (refl, refl, refl, refl)

supported : (k a : Bytes) → sqlite_refuses a ≡ false → str_eq k a ≡ true → sqlite_refuses k ≡ false
supported k a d h = subst (λ (s : Bytes). sqlite_refuses s ≡ false) (sym ((str_eq_iff k a).0 h)) d

accepts-err :
    (k : Bool) (e : FormError) (r : Result FormError Script)
    → accepts (if k then err e else r) ≡ (if k then false else accepts r)
accepts-err true e r = refl
accepts-err false e r = refl

-- Cases that are all refused may be tested last.
refused_last :
    (a m r s t i u fa fm fr fs ft fi fu : Bool)
    → (a ≡ true → (m || (s || u)) ≡ false)
    → (r ≡ true → (m || (s || u)) ≡ false)
    → (t ≡ true → (m || (s || u)) ≡ false)
    → (i ≡ true → (m || (s || u)) ≡ false)
    → (if a
        then fa
        else if r
        then fr
        else if t
        then ft
        else if i
        then fi
        else if m
        then false
        else if s
        then false
        else if u
        then false
        else false)
      ≡ ((if a
            then fa
            else if m
            then fm
            else if r
            then fr
            else if s
            then fs
            else if t
            then ft
            else if i
            then fi
            else if u
            then fu
            else false)
          && not (m || (s || u)))
refused_last a m r s t i u fa fm fr fs ft fi fu ha hr ht hi = ground arith

sqlite_accepts :
    (f : FormSpec) → accepts (Sqlite.form_sql f) ≡ (is_filled f && not (sqlite_refuses f.kind))
unfolding Sqlite.form_sql
sqlite_accepts f =
    let is = λ (k : String). str_eq f.kind (codes k) in
    rw (accepts-if, accepts-if, accepts-if, accepts-if, accepts-err, accepts-err, accepts-err)
      (refused_last (is "add-column") (is "modify-column") (is "rename-table") (is "new-schema")
        (is "new-table") (is "new-index") (is "create-user") _ (given f.type) _ (given f.name) _ _
        (given f.name) (supported f.kind (codes "add-column") taken.0)
        (supported f.kind (codes "rename-table") taken.1)
        (supported f.kind (codes "new-table") taken.2)
        (supported f.kind (codes "new-index") taken.3))

-- MySQL and Postgres take a form exactly when the fields of its kind are filled in, and SQLite when it
-- is besides of a kind other than changing a column, a new schema and a new user.
pub form_sql_lem :
    (f : FormSpec)
    → (accepts (Mysql.form_sql f) ≡ is_filled f)
      × (accepts (Postgres.form_sql f) ≡ is_filled f)
      × (accepts (Sqlite.form_sql f) ≡ (is_filled f && not (sqlite_refuses f.kind)))
form_sql_lem f = (mysql_accepts f, postgres_accepts f, sqlite_accepts f)
