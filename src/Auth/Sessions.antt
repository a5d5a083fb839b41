-- ===== src/Auth/Sessions.antt =====
-- internal/auth/sessions.go, the in-memory store, and the session helpers of internal/auth/auth.go.
-- A time is a number of nanoseconds. Random tokens are arguments.
pub mod Store
pub mod Tokens
use verix_dbm.Base.{
  ℕ, zero, suc, ◌+◌, ◌-◌, ◌*◌, ◌≤◌, ◌<◌, String, ◌≡◌, refl, sym, ap, ◌∙◌, subst, ◌≢◌, ◌↔◌, ◌⊎◌, inl,
  inr, Bool, true, false, not, ◌&&◌, ◌||◌, Option, none, some, List, [], ◌∷◌, ◌++◌, map, append-nil,
  append_assoc, arith, ltb, leb, ◌==◌, if◌then◌else◌, ==_iff, Bool-cases, Option-cases, Bool-ext,
  length, length-append, All, OneOf, keep_if, keep_if-nil, keep_if-cons, length-keep_if-le, take,
  some_of, some_of-take, some_of-append, some_of-keep_if, some_of_elim, some_of_intro,
  keep_if-OneOf, OneOf-keep_if, keep_if_laws, Bytes, codes, str_eq, str_eq_iff, str_eq_refl,
  contains, contains_iff, contains-append, ◌>>=◌, Result-cases, Result, ok, err, max_int, ℤ, pos,
  negsuc,
}
use verix_dbm.GoMap.{bytes_key, lookup, insert, delete, sweep}
use verix_dbm.Auth.Roles.{User}

pub record Session : Type 0 where
  pub user : User
  pub expires : ℕ
  pub csrf : Bytes
  pub id_token : Bytes
  pub oauth_state : Bytes
  pub nonce : Bytes
  pub pkce_verifier : Bytes

abbrev pub Sessions : Type 0
Sessions = List (Bytes × Session)

-- 12 hours.
abbrev pub session_ttl : ℕ
session_ttl = 43200000000000

-- `now.After(s.expires)`
unfoldable pub is_expired : ℕ → Session → Bool
is_expired now s = ltb s.expires now

-- `time.Now().After(sess.expires)` after a look-up.
unfoldable pub if_live : ℕ → Option Session → Option Session
unfolding is_expired
if_live now none = none
if_live now (some s) = if is_expired now s then none else some s

-- `memSessionStore.Get`
unfoldable pub get : Sessions → Bytes → ℕ → Option Session
unfolding if_live
get ss key now = if_live now (lookup key ss)

-- `memSessionStore.Put`; the time to live is not used.
unfoldable pub put : Sessions → Bytes → Session → Sessions
put ss key s = insert key s ss

-- `memSessionStore.Delete`
unfoldable pub remove : Sessions → Bytes → Sessions
remove ss key = delete key ss

-- One round of `memSessionStore.reap`.
unfoldable pub reap : Sessions → ℕ → Sessions
reap ss now = sweep (is_expired now) ss

-- What a request carries of a session: the cookie, the header and the form field.
pub record Request : Type 0 where
  pub cookie : Option Bytes
  pub csrf_header : Bytes
  pub csrf_field : Bytes

session_user : Option Session → Option User
session_user none = none
session_user (some s) = some (record s.user { csrf = s.csrf })

-- `Authenticator.current`
unfoldable pub current : Sessions → Request → ℕ → Option User
unfolding session_user
current ss r now = elim r.cookie [ none ↦ none | some key ↦ session_user (get ss key now) ]

-- `Authenticator.put`, with the token of the session and that of its CSRF check.
unfoldable pub put_user : Sessions → User → Bytes → ℕ → Bytes → Bytes → Sessions
put_user ss u id_token now tok csrf_tok = put ss tok (record {
  user = u;
  expires = now + session_ttl;
  csrf = csrf_tok;
  id_token = id_token;
  oauth_state = [];
  nonce = [];
  pkce_verifier = [];
})

session_csrf : Option Session → Bytes
session_csrf none = []
session_csrf (some s) = s.csrf

unfoldable pub csrf_for : Sessions → Bytes → ℕ → Bytes
unfolding session_csrf
csrf_for ss key now = session_csrf (get ss key now)

-- The tests of `CheckCSRF`, once the session's own token is known.
unfoldable pub csrf_matches : Bytes → Request → Bool
csrf_matches want r =
    if str_eq want []
    then false
    else let got = if str_eq r.csrf_header [] then r.csrf_field else r.csrf_header in
      not (str_eq got []) && str_eq got want

-- `Authenticator.CheckCSRF`
unfoldable pub check_csrf : Sessions → Request → ℕ → Bool
unfolding csrf_matches
check_csrf ss r now = elim r.cookie [
  | none ↦ false
  | some key ↦ csrf_matches (csrf_for ss key now) r
]
