-- ===== src/Sql/Screens.antt =====
-- The screens for server-side execution and file access: `IsServerSideExec` of internal/postgres,
-- internal/mysql/ddl.go and internal/sqlite/ddl.go, and `serverSideBlocked` of
-- internal/web/security.go.
use verix_dbm.Base.{
  String, ◌≡◌, refl, subst, inl, inr, Bool, true, false, not, List, [], ◌∷◌, ◌++◌, arith, ◌==◌,
  if◌then◌else◌, OneOf, Bytes, codes, str_eq,
}
use verix_dbm.GoStrings.{join}
use verix_dbm.Regex.{
  Re, one, many, edge, chain, either, word, blanks, blanks_if_any, whole, matches, is_word,
}
use verix_dbm.Regex.Context.{matches-before, matches-behind}
use verix_dbm.Auth.Roles.{User}
use verix_dbm.Sql.Families.{family, family_mysql, family_sqlite}

-- `[^;]*`
abbrev pub in_statement : Re
in_statement = many (λ c. not (c == b';'))

-- A name, and the parenthesis that opens its arguments: `\bname\s*\(`.
abbrev pub call_of : String → Re
call_of name = chain edge (chain (word (codes name)) (chain blanks_if_any (one (λ c. c == b'('))))

-- `\bfirst\s+second\b`
abbrev pub pair_of : String → String → Re
pair_of first second =
    chain edge (chain (word (codes first)) (chain blanks (chain (word (codes second)) edge)))

abbrev pub any_of : List String → Re → Re
any_of [] re = re
any_of (name ∷ names) re = either (whole name) (any_of names re)

abbrev pub mysql_server_side : Re
mysql_server_side =
    either (chain (pair_of "load" "data") (chain in_statement (whole "infile")))
      (either (pair_of "into" "outfile") (either (pair_of "into" "dumpfile") (call_of "load_file")))

abbrev pub sqlite_server_side : Re
sqlite_server_side = either (whole "attach") (
    either (call_of "load_extension") (
      either (chain (whole "vacuum") (chain in_statement (whole "into")))
        (either (call_of "writefile") (call_of "readfile"))))

abbrev pub postgres_server_side : Re
postgres_server_side = either (chain (whole "copy") (chain in_statement (whole "program"))) (
    any_of
      ("pg_read_file" ∷ "pg_read_binary_file" ∷ "pg_ls_dir" ∷ "pg_stat_file" ∷ "pg_ls_logdir"
        ∷ "pg_ls_waldir" ∷ "lo_import" ∷ "lo_export" ∷ "pg_execute_server_program"
        ∷ "pg_read_server_files" ∷ [])
      (whole "pg_write_server_files"))

-- The screen of the dialect that serves a kind.
unfoldable pub server_side : Bytes → Re
server_side kind =
    if str_eq (family kind) family_mysql
    then mysql_server_side
    else if str_eq (family kind) family_sqlite
    then sqlite_server_side
    else postgres_server_side

unfoldable pub server_side_blocked : User → Bytes → List Bytes → Bool
unfolding server_side
server_side_blocked u kind fragments =
    if u.admin then false else matches (server_side kind) (join (codes "\n") fragments)

-- The line feed between two fragments is of no word.
joined-matches :
    (re : Re) (fragments : List Bytes) (f : Bytes)
    → OneOf f fragments
    → matches re f ≡ true
    → matches re (join (codes "\n") fragments) ≡ true
unfolding join is_word
joined-matches re [] f m h = absurd m
joined-matches re (g ∷ []) f (inl q) h = subst (λ t. matches re t ≡ true) q h
joined-matches re (g ∷ []) f (inr m) h = absurd m
joined-matches re (g ∷ t ∷ ts) f (inl q) h =
    matches-before re g (codes "\n" ++ join (codes "\n") (t ∷ ts)) refl
      (subst (λ t'. matches re t' ≡ true) q h)
joined-matches re (g ∷ t ∷ ts) f (inr m) h =
    matches-behind re g 10 (join (codes "\n") (t ∷ ts)) refl (joined-matches re (t ∷ ts) f m h)

unless_admin :
    (admin a b : Bool)
    → (if admin then false else a) ≡ true
    → (a ≡ true → b ≡ true)
    → (if admin then false else b) ≡ true
unless_admin admin a b h k = ground (arith, k)

-- A fragment that is refused to a user by itself is refused among any others.
pub server_side_blocked-OneOf :
    (u : User) (kind : Bytes) (fragments : List Bytes) (f : Bytes)
    → OneOf f fragments
    → server_side_blocked u kind (f ∷ []) ≡ true
    → server_side_blocked u kind fragments ≡ true
unfolding server_side_blocked join
server_side_blocked-OneOf u kind fragments f m h =
    unless_admin u.admin _ _ h (joined-matches (server_side kind) fragments f m)
