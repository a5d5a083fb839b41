-- ===== src/Auth/Flow/Replay.antt =====
-- The checks of the callback, and the life of its state.
use verix_dbm.Base.{
  ℕ, ◌≡◌, ◌≢◌, inl, inr, none, some, [], arith, Option-cases, Bytes, codes, str_eq_iff, str_eq_refl,
  Result-cases, ok,
}
use verix_dbm.GoMap.{bytes_key, Distinct}
use verix_dbm.Config.{Config}
use verix_dbm.Auth.Roles.{User}
use verix_dbm.Auth.Flow.{
  Provider, Claims, Tokens, CallbackRequest, check_state, redeem, user_of, state_key, after_check,
  callback, fails, sets, keeps,
}
use verix_dbm.Auth.Sessions.{Session, Sessions, get, put_user, remove}
use verix_dbm.Auth.Sessions.Store.{get-put, get-remove}

-- The state was stored by this server, has not run out, and came back in the query and the cookie.
pub record StateChecked (ss : Sessions) (r : CallbackRequest) (now : ℕ) (st : Session)
    : Type 0 where
  pub stored : get ss (state_key r.state) now ≡ some st
  pub own : st.oauth_state ≡ r.state
  pub by_cookie : r.state_cookie ≡ some r.state
  pub not_empty : r.state ≢ []

check_state-ok :
    (ss : Sessions) (r : CallbackRequest) (now : ℕ) (st : Session)
    → check_state ss r now ≡ ok st
    → StateChecked ss r now st
unfolding check_state
check_state-ok ss r now st h = elim (Option-cases r.state_cookie) [
  | inl e ↦ absurd (ground arith)
  | inr (c, e) ↦ elim (Option-cases (get ss (state_key r.state) now)) [
    | inl m ↦ absurd (ground arith)
    | inr (x, m) ↦ record {
      stored = ground arith;
      own = ground (arith, str_eq_iff x.oauth_state r.state);
      by_cookie = ground (arith, str_eq_iff r.state c);
      not_empty = ground (arith, str_eq_iff r.state []);
    }
  ]
]

-- The code was exchanged with the verifier of the entry, and the ID token verified and bound to its
-- nonce.
pub record Redeemed (cfg : Config) (p : Provider) (st : Session) (code : Bytes) (u : User)
    (raw : Bytes) : Type 0 where
  pub tokens : Tokens
  pub claims : Claims
  pub exchanged : p.exchange code st.pkce_verifier ≡ some tokens
  pub id_token : tokens.id_token ≡ some raw
  pub verified : p.verify raw ≡ some (st.nonce, some claims)
  pub user : u ≡ user_of cfg p claims tokens.access_token

redeem-ok :
    (cfg : Config) (p : Provider) (st : Session) (code : Bytes) (u : User) (raw : Bytes)
    → redeem cfg p st code ≡ ok (u, raw)
    → Redeemed cfg p st code u raw
unfolding redeem
redeem-ok cfg p st code u raw h = elim (Option-cases (p.exchange code st.pkce_verifier)) [
  | inl e ↦ absurd (ground arith)
  | inr (tokens, e) ↦ elim (Option-cases tokens.id_token) [
    | inl m ↦ absurd (ground arith)
    | inr (raw', m) ↦ elim (Option-cases (p.verify raw')) [
      | inl n ↦ absurd (ground arith)
      | inr ((nonce, c), n) ↦ elim (Option-cases c) [
        | inl q ↦ absurd (ground (arith, str_eq_iff nonce st.nonce))
        | inr (claims, q) ↦ record {
          tokens = tokens;
          claims = claims;
          exchanged = e;
          id_token = ground arith;
          verified = ground (arith, str_eq_iff nonce st.nonce);
          user = ground arith;
        }
      ]
    ]
  ]
]

-- What stands behind a callback that sets a session cookie.
pub record LoggedIn (cfg : Config) (p : Provider) (ss : Sessions) (r : CallbackRequest) (now : ℕ)
    (tok csrf_tok : Bytes) : Type 0 where
  pub st : Session
  pub user : User
  pub raw : Bytes
  pub state : StateChecked ss r now st
  pub redeemed : Redeemed cfg p st r.code user raw
  pub sessions :
      (callback cfg p ss r now tok csrf_tok).sessions
      ≡ put_user (remove ss (state_key r.state)) user raw now tok csrf_tok

-- A callback sets a session cookie only if its state was stored here, is live, and came back in the
-- query and in the cookie; the code was exchanged with that entry's PKCE verifier; and the ID token
-- verified and carries that entry's nonce. The new session is then the token's user with the
-- capabilities of its roles, and the entry is gone.
pub callback-LoggedIn :
    (cfg : Config) (p : Provider) (ss : Sessions) (r : CallbackRequest) (now : ℕ)
    (tok csrf_tok t : Bytes)
    → (callback cfg p ss r now tok csrf_tok).cookie ≡ sets t
    → LoggedIn cfg p ss r now tok csrf_tok × (t ≡ tok)
unfolding callback after_check
callback-LoggedIn cfg p ss r now tok csrf_tok t h = elim (Result-cases (check_state ss r now)) [
  | inr (f, e) ↦ absurd (ground arith)
  | inl (st, e) ↦ elim (Result-cases (redeem cfg p st r.code)) [
    | inr (f, m) ↦ absurd (ground arith)
    | inl ((u, raw), m) ↦ (
      record {
        st = st;
        user = u;
        raw = raw;
        state = check_state-ok ss r now st e;
        redeemed = redeem-ok cfg p st r.code u raw m;
        sessions = ground arith;
      },
      ground arith,
    )
  ]
]

-- The entry of a state that passed the checks is gone, whatever the provider answered.
callback-get :
    (cfg : Config) (p : Provider) (ss : Sessions) (r : CallbackRequest) (now later : ℕ)
    (tok csrf_tok : Bytes) (st : Session)
    → Distinct ss
    → tok ≢ state_key r.state
    → check_state ss r now ≡ ok st
    → get (callback cfg p ss r now tok csrf_tok).sessions (state_key r.state) later ≡ none
unfolding callback after_check put_user
callback-get cfg p ss r now later tok csrf_tok st d fresh e =
    elim (Result-cases (redeem cfg p st r.code)) [
      | inr (f, m) ↦ rw (callback, e, after_check, m) (ground (arith, gone))
      | inl ((u, raw), m) ↦
          rw (callback, e, after_check, m)
            (rw get-put (ground (arith, gone, str_eq_iff tok (state_key r.state))))
    ]
  where
    gone : get (remove ss (state_key r.state)) (state_key r.state) later ≡ none
    gone = ground (
      arith,
      get-remove ss (state_key r.state) (state_key r.state) later d,
      str_eq_refl (state_key r.state),
    )

no_entry :
    (cfg : Config) (p : Provider) (ss : Sessions) (r : CallbackRequest) (now : ℕ)
    (tok csrf_tok : Bytes)
    → get ss (state_key r.state) now ≡ none
    → let o = callback cfg p ss r now tok csrf_tok in
      (o.reply ≡ fails 400 (codes "invalid state")) × (o.cookie ≡ keeps)
unfolding callback after_check check_state
no_entry cfg p ss r now tok csrf_tok h = elim (Option-cases r.state_cookie) [
  | inl e ↦ ground arith
  | inr (c, e) ↦ ground arith
]

-- A state serves once: after a callback whose state passed the checks, whether the login then
-- succeeded or not, any later callback with that state is refused with 400 and logs nobody in.
pub callback_once :
    (cfg : Config) (p : Provider) (ss : Sessions) (r again : CallbackRequest) (now later : ℕ)
    (tok csrf_tok tok' csrf_tok' : Bytes) (st : Session)
    → Distinct ss
    → tok ≢ state_key r.state
    → check_state ss r now ≡ ok st
    → again.state ≡ r.state
    → let ss' = (callback cfg p ss r now tok csrf_tok).sessions in
      ((callback cfg p ss' again later tok' csrf_tok').reply ≡ fails 400 (codes "invalid state"))
      × ((callback cfg p ss' again later tok' csrf_tok').cookie ≡ keeps)
callback_once cfg p ss r again now later tok csrf_tok tok' csrf_tok' st d fresh e same =
    let ss' = (callback cfg p ss r now tok csrf_tok).sessions in
    no_entry cfg p ss' again later tok' csrf_tok'
      (rw same (callback-get cfg p ss r now later tok csrf_tok st d fresh e))
