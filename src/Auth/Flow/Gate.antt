-- ===== src/Auth/Flow/Gate.antt =====
-- The gate: the middleware, logging out, and the entries of logins under way.
use verix_dbm.Base.{
  ℕ, ◌+◌, ◌≤◌, ◌≡◌, refl, ◌⊎◌, inl, inr, true, false, none, some, arith, Bool-cases, Option-cases,
  Bytes, codes, str_eq, str_eq_refl,
}
use verix_dbm.GoMap.{bytes_key, Distinct}
use verix_dbm.Config.{Config}
use verix_dbm.Auth.Roles.{User}
use verix_dbm.Auth.Sessions.{
  Sessions, Request, get, current, csrf_for, check_csrf, csrf_matches, if_live, is_expired,
}
use verix_dbm.Auth.Sessions.Store.{get-put, get-remove}
use verix_dbm.Auth.Flow.{
  state_ttl, Provider, middleware, login, logout, end_local, serves, fails, state_key, login_entry,
  clears,
}

-- A request reaches the handlers only with a session that has not run out and whose user may read,
-- or in dev mode without a session; then the user is the session's, or the local admin.
pub middleware-serves :
    (cfg : Config) (ss : Sessions) (r : Request) (now : ℕ) (tok csrf_tok : Bytes) (u : User)
    → (middleware cfg ss r now tok csrf_tok).reply ≡ serves u
    → ((current ss r now ≡ some u) × (u.read ≡ true))
      ⊎ ((current ss r now ≡ none) × (cfg.dev_mode ≡ true) × (u.email ≡ codes "dev@localhost"))
unfolding middleware
middleware-serves cfg ss r now tok csrf_tok u h = elim (Option-cases (current ss r now)) [
  | inl e ↦ inr (e, ground arith, ground arith)
  | inr (v, e) ↦ inl (ground arith, ground arith)
]

login-get :
    (cfg : Config) (p : Provider) (ss : Sessions) (now later : ℕ) (state nonce verifier : Bytes)
    → cfg.dev_mode ≡ false
    → later ≤ now + state_ttl
    → get (login cfg p ss now state nonce verifier).0.sessions (state_key state) later
      ≡ some (login_entry now state nonce verifier)
unfolding login if_live is_expired
login-get cfg p ss now later state nonce verifier prod inside = ground (
  arith,
  get-put ss (state_key state) (state_key state) (login_entry now state nonce verifier) later,
  str_eq_refl (state_key state),
)

-- Outside dev mode, and while the entry that `Login` stores lasts, the entry is not a session that
-- one could use: a request that names it as its session cookie is refused with 403, and passes no
-- CSRF check, whatever tokens it presents.
pub login_entry_refused :
    (cfg : Config) (p : Provider) (ss : Sessions) (now later : ℕ) (state nonce verifier : Bytes)
    (r : Request) (tok csrf_tok : Bytes)
    → cfg.dev_mode ≡ false
    → later ≤ now + state_ttl
    → let ss' = (login cfg p ss now state nonce verifier).0.sessions in
      let r' = record r { cookie = some (state_key state) } in
      ((middleware cfg ss' r' later tok csrf_tok).reply ≡ fails 403 (codes "Access denied"))
      × (check_csrf ss' r' later ≡ false)
unfolding middleware current check_csrf csrf_for csrf_matches str_eq
login_entry_refused cfg p ss now later state nonce verifier r tok csrf_tok prod inside =
    let e = login-get cfg p ss now later state nonce verifier prod inside in
    (rw (middleware, current, e) refl, rw (check_csrf, csrf_for, e) refl)

-- Where no key stands twice among the sessions: after a logout that passes the CSRF check, the
-- cookie names no session at any later time; one that does not pass it changes nothing.
pub logout-current :
    (cfg : Config) (p : Provider) (ss : Sessions) (r : Request) (now later : ℕ)
    → Distinct ss
    → let o = logout cfg p ss r now in
      ((check_csrf ss r now ≡ true) × (current o.sessions r later ≡ none) × (o.cookie ≡ clears))
      ⊎ ((check_csrf ss r now ≡ false)
          × (o.sessions ≡ ss)
          × (o.reply ≡ fails 403 (codes "bad csrf")))
unfolding logout current end_local
logout-current cfg p ss r now later d = elim (Bool-cases (check_csrf ss r now)) [
  | inr e ↦ inr (e, rw (e, logout) refl, rw (e, logout) refl)
  | inl e ↦ elim (Option-cases r.cookie) [
    | inl n ↦ inl (e, rw (e, logout) (ground arith), rw (e, logout) refl)
    | inr (key, n) ↦ inl (
      e,
      rw (e, logout) (ground (arith, get-remove ss key key later d, str_eq_refl key)),
      rw (e, logout) refl,
    )
  ]
]
