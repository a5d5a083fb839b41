-- ===== src/Sql/Confirm.antt =====
-- internal/dbsql/dbsql.go: `NeedsConfirm`.
pub mod Comments
use verix_dbm.Base.{
  ℕ, zero, suc, ◌+◌, ◌-◌, ◌*◌, ◌≤◌, ◌<◌, String, ◌≡◌, refl, sym, ap, ◌∙◌, subst, ◌≢◌, ◌↔◌, ◌⊎◌, inl,
  inr, Bool, true, false, not, ◌&&◌, ◌||◌, Option, none, some, List, [], ◌∷◌, ◌++◌, map, append-nil,
  append_assoc, arith, ltb, leb, ◌==◌, if◌then◌else◌, ==_iff, Bool-cases, Option-cases, Bool-ext,
  length, length-append, All, OneOf, keep_if, keep_if-nil, keep_if-cons, length-keep_if-le, take,
  some_of, some_of-take, some_of-append, some_of-keep_if, some_of_elim, some_of_intro,
  keep_if-OneOf, OneOf-keep_if, keep_if_laws, Bytes, codes, str_eq, str_eq_iff, str_eq_refl,
  contains, contains_iff, contains-cons, contains-append, format_int, ◌>>=◌, Result-cases, guard-ok,
  Result, ok, err, max_int, wrapped, ℤ, pos, negsuc,
}
use verix_dbm.GoStrings.{split, join, contains_byte, add_head}
use verix_dbm.Regex.{Re, chain, either, edge, word, whole, blanks_if_any, run, done, matches}

-- Is the end of a block comment ahead?
unfoldable pub closes : Bytes → Bool
closes [] = false
closes (c ∷ []) = false
closes (c ∷ d ∷ s) = let later = closes (d ∷ s) in (c == b'*' && d == b'/') || later

-- Block comments, replaced by a space; `inside` says that one is open.
unfoldable pub strip_blocks : Bool → Bytes → Bytes
unfolding closes
strip_blocks inside [] = []
strip_blocks true (c ∷ []) = []
strip_blocks false (c ∷ []) = c ∷ []
strip_blocks true (c ∷ d ∷ s) =
    let ended = strip_blocks false s in
    let more = strip_blocks true (d ∷ s) in if c == b'*' && d == b'/' then ended else more
strip_blocks false (c ∷ d ∷ s) =
    let comment = strip_blocks true s in
    let more = strip_blocks false (d ∷ s) in
    if c == b'/' && (d == b'*' && closes s) then b' ' ∷ comment else c ∷ more

-- Line comments are dropped, up to the end of their lines.
unfoldable pub strip_lines : Bool → Bytes → Bytes
strip_lines inside [] = []
strip_lines true (c ∷ s) =
    let ended = strip_lines false s in
    let more = strip_lines true s in if c == 10 then c ∷ ended else more
strip_lines false (c ∷ []) = c ∷ []
strip_lines false (c ∷ d ∷ s) =
    let comment = strip_lines true s in
    let more = strip_lines false (d ∷ s) in if c == b'-' && d == b'-' then comment else c ∷ more

-- `^\s*(first|second)\b`
abbrev pub begins : String → String → Re
begins first second =
    chain blanks_if_any (chain (either (word (codes first)) (word (codes second))) edge)

unfoldable pub is_destructive : Bytes → Bool
unfolding run
is_destructive stmt = run (begins "drop" "truncate") done none stmt

unfoldable pub is_change : Bytes → Bool
unfolding run
is_change stmt = run (begins "delete" "update") done none stmt

unfoldable pub has_where : Bytes → Bool
unfolding matches
has_where stmt = matches (whole "where") stmt

-- One round of the loop over the statements.
unfoldable pub stmt_needs_confirm : Bytes → Bool
unfolding is_destructive is_change has_where
stmt_needs_confirm stmt = is_destructive stmt || (is_change stmt && not (has_where stmt))

unfoldable pub needs_confirm : Bytes → Bool
unfolding strip_blocks strip_lines stmt_needs_confirm
needs_confirm sql =
    some_of stmt_needs_confirm (split b';' (strip_lines false (strip_blocks false sql)))
