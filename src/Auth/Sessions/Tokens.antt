-- ===== src/Auth/Sessions/Tokens.antt =====
-- The CSRF check against a description by the session that the cookie names.
use verix_dbm.Base.{
  ℕ, ◌≡◌, refl, ◌≢◌, ◌↔◌, ◌⊎◌, inl, inr, true, Option, none, some, [], arith, Option-cases, Bytes,
  str_eq_iff,
}
use verix_dbm.Auth.Sessions.{Session, Sessions, Request, get, csrf_for, csrf_matches, check_csrf}

-- The token that a request presents: the header goes before the form field.
abbrev pub Presents : Request → Bytes → Type 0
Presents r tok = (r.csrf_header ≡ tok) ⊎ ((r.csrf_header ≡ []) × (r.csrf_field ≡ tok))

pub csrf_matches_iff :
    (want : Bytes) (r : Request) → (csrf_matches want r ≡ true) ↔ ((want ≢ []) × Presents r want)
unfolding csrf_matches
csrf_matches_iff want r = ground (
  arith,
  str_eq_iff want [],
  str_eq_iff r.csrf_header [],
  str_eq_iff r.csrf_field [],
  str_eq_iff r.csrf_header want,
  str_eq_iff r.csrf_field want,
)

-- A session that the request's cookie names, with a token that the request presents.
pub record Passes (ss : Sessions) (r : Request) (now : ℕ) (key : Bytes) (s : Session) : Type 0 where
  pub by_cookie : r.cookie ≡ some key
  pub live : get ss key now ≡ some s
  pub has_token : s.csrf ≢ []
  pub presented : Presents r s.csrf

module _ (ss : Sessions) (r : Request) (now : ℕ) where
  check_csrf-Passes :
      (c : Option Bytes)
      → r.cookie ≡ c
      → check_csrf ss r now ≡ true
      → (key : Bytes) × (s : Session) × Passes ss r now key s
  unfolding check_csrf csrf_for
  check_csrf-Passes none e h = absurd (ground arith)
  check_csrf-Passes (some key) e h = elim (Option-cases (get ss key now)) [
    | inl m ↦ absurd (ground (arith, csrf_matches_iff [] r))
    | inr (s, m) ↦
        (let v : (s.csrf ≢ []) × Presents r s.csrf = ground (arith, csrf_matches_iff s.csrf r) in
          (key, s, record { by_cookie = e; live = m; has_token = v.0; presented = v.1 }))
  ]

  Passes-check_csrf :
      (key : Bytes) (s : Session) → Passes ss r now key s → check_csrf ss r now ≡ true
  unfolding check_csrf csrf_for
  Passes-check_csrf key s v =
      ground (arith, v.by_cookie, v.live, v.has_token, v.presented, csrf_matches_iff s.csrf r)

  -- The check passes exactly if the cookie names a session that has not run out, whose token is not
  -- empty, and the request presents that token, in the header or, without one, in the form.
  pub check_csrf_iff :
      (check_csrf ss r now ≡ true) ↔ ((key : Bytes) × (s : Session) × Passes ss r now key s)
  check_csrf_iff = (check_csrf-Passes r.cookie refl, (λ (key, s, v). Passes-check_csrf key s v))
