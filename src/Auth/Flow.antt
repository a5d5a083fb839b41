-- ===== src/Auth/Flow.antt =====
-- internal/auth/auth.go: `Middleware`, `Login`, `Callback` and `Logout`. The identity provider is
-- the parameter `Provider`; random tokens and the time are arguments. Of a response the model keeps
-- the status or target and the session cookie.
pub mod Gate
pub mod Replay
use verix_dbm.Base.{
  ℕ, zero, suc, ◌+◌, ◌-◌, ◌*◌, ◌≤◌, ◌<◌, String, ◌≡◌, refl, sym, ap, ◌∙◌, subst, ◌≢◌, ◌↔◌, ◌⊎◌, inl,
  inr, Bool, true, false, not, ◌&&◌, ◌||◌, Option, none, some, List, [], ◌∷◌, ◌++◌, map, append-nil,
  append_assoc, arith, ltb, leb, ◌==◌, if◌then◌else◌, ==_iff, Bool-cases, Option-cases, Bool-ext,
  length, length-append, All, OneOf, keep_if, keep_if-nil, keep_if-cons, length-keep_if-le, take,
  some_of, some_of-take, some_of-append, some_of-keep_if, some_of_elim, some_of_intro,
  keep_if-OneOf, OneOf-keep_if, keep_if_laws, Bytes, codes, str_eq, str_eq_iff, str_eq_refl,
  contains, contains_iff, contains-cons, contains-append, format_int, ◌>>=◌, Result-cases, guard-ok,
  Result, ok, err, max_int, wrapped, ℤ, pos, negsuc,
}
use verix_dbm.Config.{Config}
use verix_dbm.Auth.Roles.{User, apply_caps, merge_roles}
use verix_dbm.Auth.Sessions.{
  Session, Sessions, Request, get, put, remove, current, put_user, csrf_for, check_csrf,
}

pub data Reply : Type 0 where
  redirect : Bytes → Reply
  fails : ℕ → Bytes → Reply
  serves : User → Reply

-- The session cookie of a response: left alone, set to a token, or cleared.
pub data CookieChange : Type 0 where
  keeps : CookieChange
  sets : Bytes → CookieChange
  clears : CookieChange

-- The arguments of `audit`.
pub record AuthEvent : Type 0 where
  pub action : Bytes
  pub detail : Bytes
  pub success : Bool

pub record Outcome : Type 0 where
  pub sessions : Sessions
  pub reply : Reply
  pub cookie : CookieChange
  pub events : List AuthEvent

abbrev dev_admin : User
dev_admin = record {
  subject = codes "dev";
  name = codes "Dev Admin";
  email = codes "dev@localhost";
  roles = codes "dev" ∷ [];
  groups = [];
  admin = true;
  write = true;
  read = true;
  csrf = [];
}

-- `serves u` calls the next handler with the user `u`.
unfoldable pub middleware : Config → Sessions → Request → ℕ → Bytes → Bytes → Outcome
middleware cfg ss r now tok csrf_tok = elim (current ss r now) [
  | some u ↦
      if u.read
      then record { sessions = ss; reply = serves u; cookie = keeps; events = [] }
      else record {
        sessions = ss;
        reply = fails 403 (codes "Access denied");
        cookie = keeps;
        events = [];
      }
  | none ↦
      if cfg.dev_mode
      then (let ss' = put_user ss dev_admin [] now tok csrf_tok in
          record {
            sessions = ss';
            reply = serves (record dev_admin { csrf = csrf_for ss' tok now });
            cookie = sets tok;
            events = [];
          })
      else record {
        sessions = ss;
        reply = redirect (codes "/auth/login");
        cookie = keeps;
        events = [];
      }
]

abbrev pub state_key : Bytes → Bytes
state_key state = codes "state:" ++ state

-- 10 minutes.
abbrev pub state_ttl : ℕ
state_ttl = 600000000000

abbrev pub nobody : User
nobody = record {
  subject = [];
  name = [];
  email = [];
  roles = [];
  groups = [];
  admin = false;
  write = false;
  read = false;
  csrf = [];
}

-- The entry that `Login` leaves for `Callback`.
abbrev pub login_entry : ℕ → Bytes → Bytes → Bytes → Session
login_entry now state nonce verifier = record {
  user = nobody;
  expires = now + state_ttl;
  csrf = [];
  id_token = [];
  oauth_state = state;
  nonce = nonce;
  pkce_verifier = verifier;
}

-- The claims of an ID token.
pub record Claims : Type 0 where
  pub sub : Bytes
  pub name : Bytes
  pub email : Bytes
  pub groups : List Bytes
  pub roles : List Bytes

-- The claims that are read from an access token.
pub record AccessClaims : Type 0 where
  pub groups : List Bytes
  pub roles : List Bytes

pub record Tokens : Type 0 where
  pub id_token : Option Bytes
  pub access_token : Bytes

-- The OIDC libraries and the provider behind them. `verify` gives the nonce of a verified ID token
-- and its claims, if they can be read; `verify_access` the claims of a verified access token.
pub record Provider : Type 0 where
  pub auth_code_url : Bytes → Bytes → Bytes → Bytes
  pub exchange : Bytes → Bytes → Option Tokens
  pub verify : Bytes → Option (Bytes × Option Claims)
  pub verify_access : Bytes → Option (Option AccessClaims)
  pub end_session : Bytes
  pub end_session_url : Bytes → Bytes

-- Also the value of the state cookie comes back.
unfoldable pub login :
    Config → Provider → Sessions → ℕ → Bytes → Bytes → Bytes → Outcome × Option Bytes
login cfg p ss now state nonce verifier =
    if cfg.dev_mode
    then (record { sessions = ss; reply = redirect (codes "/"); cookie = keeps; events = [] }, none)
    else (
      record {
        sessions = put ss (state_key state) (login_entry now state nonce verifier);
        reply = redirect (p.auth_code_url state nonce verifier);
        cookie = keeps;
        events = [];
      },
      some state,
    )

-- What the callback's request carries.
pub record CallbackRequest : Type 0 where
  pub state : Bytes
  pub state_cookie : Option Bytes
  pub code : Bytes

-- A callback that fails: the status and the body of the reply, and the detail of the event.
pub record Failure : Type 0 where
  pub status : ℕ
  pub detail : Bytes
  pub body : Bytes

failure : ℕ → String → String → Failure
failure status detail body = record { status = status; detail = codes detail; body = codes body }

or_fail : {A : Type 0} → Option A → Failure → Result Failure A
or_fail none f = err f
or_fail (some a) f = ok a

guard : Bool → Failure → Result Failure (Unit {0})
guard true f = ok tt
guard false f = err f

cookie_matches : CallbackRequest → Bool
cookie_matches r = elim r.state_cookie [
  | none ↦ false
  | some c ↦ not (str_eq r.state []) && str_eq r.state c
]

-- The checks before the entry is consumed.
unfoldable pub check_state : Sessions → CallbackRequest → ℕ → Result Failure Session
unfolding failure or_fail guard cookie_matches
check_state ss r now = do
  _ ← guard (cookie_matches r) (failure 400 "invalid state" "invalid state")
  st ←
      or_fail (get ss (state_key r.state) now)
        (failure 400 "unknown or expired state" "invalid state")
  _ ← guard (str_eq st.oauth_state r.state) (failure 400 "unknown or expired state" "invalid state")
  ok st

merge_access : Option (Option AccessClaims) → List Bytes → List Bytes → List Bytes × List Bytes
merge_access (some (some ac)) roles groups =
    (merge_roles (roles ∷ ac.roles ∷ []), merge_roles (groups ∷ ac.groups ∷ []))
merge_access _ roles groups = (roles, groups)

-- The user of an ID token's claims, with what a verified access token adds.
unfoldable pub user_of : Config → Provider → Claims → Bytes → User
unfolding merge_access
user_of cfg p claims access_token =
    let (roles, groups) = merge_access (p.verify_access access_token) claims.roles claims.groups in
    apply_caps cfg (record nobody {
      subject = claims.sub;
      name = claims.name;
      email = claims.email;
      roles = roles;
      groups = groups;
    })

-- The code exchange and the checks of the tokens; the user and the raw ID token come back.
unfoldable pub redeem : Config → Provider → Session → Bytes → Result Failure (User × Bytes)
unfolding failure or_fail guard
redeem cfg p st code = do
  tokens ←
      or_fail (p.exchange code st.pkce_verifier)
        (failure 502 "token exchange failed" "token exchange failed")
  raw ← or_fail tokens.id_token (failure 502 "no id_token" "no id_token")
  verified ← or_fail (p.verify raw) (failure 401 "id_token verify failed" "id_token verify failed")
  _ ← guard (str_eq verified.0 st.nonce) (failure 401 "nonce mismatch" "invalid nonce")
  claims ← or_fail verified.1 (failure 502 "claims parse failed" "claims parse failed")
  ok (user_of cfg p claims tokens.access_token, raw)

refuse : Sessions → Failure → Outcome
refuse ss f = record {
  sessions = ss;
  reply = fails f.status f.body;
  cookie = keeps;
  events = (record { action = codes "auth_login_failed"; detail = f.detail; success = false }) ∷ [];
}

accept : Sessions → User × Bytes → ℕ → Bytes → Bytes → Outcome
accept ss (u, raw) now tok csrf_tok = record {
  sessions = put_user ss u raw now tok csrf_tok;
  reply = redirect (codes "/");
  cookie = sets tok;
  events = (record { action = codes "auth_login"; detail = u.email; success = true }) ∷ [];
}

-- What `Callback` does once the state has been looked up: it is deleted under a lock of its own, so
-- `ss` may be later sessions than those of the look-up.
unfoldable pub after_check :
    Config
    → Provider
    → Sessions
    → CallbackRequest
    → Result Failure Session
    → ℕ
    → Bytes
    → Bytes
    → Outcome
unfolding refuse accept
after_check cfg p ss r (err f) now tok csrf_tok = refuse ss f
after_check cfg p ss r (ok st) now tok csrf_tok =
    let ss' = remove ss (state_key r.state) in
    elim (redeem cfg p st r.code) [
      | err f ↦ refuse ss' f
      | ok found ↦ accept ss' found now tok csrf_tok
    ]

-- A callback that no other call on the sessions comes in between.
unfoldable pub callback :
    Config → Provider → Sessions → CallbackRequest → ℕ → Bytes → Bytes → Outcome
unfolding after_check
callback cfg p ss r now tok csrf_tok =
    after_check cfg p ss r (check_state ss r now) now tok csrf_tok

session_id_token : Option Session → Bytes
session_id_token none = []
session_id_token (some s) = s.id_token

-- The sessions after a logout, and the ID token for the provider.
unfoldable pub end_local : Sessions → Request → ℕ → Sessions × Bytes
unfolding session_id_token
end_local ss r now = elim r.cookie [
  | none ↦ (ss, [])
  | some key ↦ (remove ss key, session_id_token (get ss key now))
]

unfoldable pub logout : Config → Provider → Sessions → Request → ℕ → Outcome
unfolding end_local
logout cfg p ss r now =
    if check_csrf ss r now
    then (let (ss', hint) = end_local ss r now in
        record {
          sessions = ss';
          reply =
              if cfg.dev_mode || str_eq p.end_session []
              then redirect (codes "/")
              else redirect (p.end_session_url hint);
          cookie = clears;
          events = [];
        })
    else record { sessions = ss; reply = fails 403 (codes "bad csrf"); cookie = keeps; events = [] }
