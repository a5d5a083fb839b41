-- ===== src/Web/Gates/Passing.antt =====
-- What has been checked once a gate is passed. The gates make no call, and change no table but
-- for the use of a stored password in the audit log.
use verix_dbm.Base.{
  ℕ, ◌≡◌, refl, sym, ap, subst, ◌≢◌, ◌⊎◌, inl, inr, Bool, true, false, not, ◌&&◌, some, [], arith,
  if◌then◌else◌, Bool-cases, Option-cases, str_eq_iff, Result-cases, Result, ok, err,
}
use verix_dbm.GoMap.{lookup, nat_key}
use verix_dbm.Auth.Roles.{User}
use verix_dbm.Auth.Sessions.{Request}
use verix_dbm.Store.{Connection}
use verix_dbm.Registry.{Family, Handle, OpenError, uses_credential, password}
use verix_dbm.Web.Responses.{Response, api_err}
use verix_dbm.Web.Site.{Env, Site, credential_used, engine_family, open_pool, open_engine}
use verix_dbm.Web.Gates.{
  csrf_ok, find_conn, may, require_admin, with_handle, api_sql, write_on, api_require_write,
}

-- The user may write on the connection of the request, and the handle is that of its pool.
pub record Permitted (e : Env) (u : User) (req : Request) (id : ℕ) (s : Site) (h : Handle)
    : Type 0 where
  pub csrf : csrf_ok e req ≡ true
  pub conn : Connection
  pub found : find_conn e u id s ≡ ok conn
  pub writes : may e u s conn ≡ true
  pub not_read_only : conn.read_only ≡ false
  pub opened : (open_engine e s conn).1 ≡ ok h

-- The calls are as they were, and so are the tables, but for the entry `cred_access` of the audit log
-- where the stored password of the connection of the request has been used.
abbrev pub Same : Env → User → ℕ → Site → Site → Type 0
Same e u id s t =
    (t.calls ≡ s.calls)
    × ((t.store ≡ s.store)
        ⊎ ((c : Connection) × (find_conn e u id s ≡ ok c)
            × (c.password_enc ≢ [])
            × (t.store ≡ credential_used e c s.store)))

pub with_handle-ok :
    (c c' : Connection) (h : Handle) (p : Site × Result OpenError Handle)
    → (with_handle c p).1 ≡ ok (c', h)
    → (c ≡ c') × (p.1 ≡ ok h)
unfolding with_handle
with_handle-ok c c' h (s, ok g) k = ground (arith, k)
with_handle-ok c c' h (s, err error) k = ground (arith, k)

with_handle-site : (c : Connection) (p : Site × Result OpenError Handle) → (with_handle c p).0 ≡ p.0
unfolding with_handle
with_handle-site c (t, ok h) = refl
with_handle-site c (t, err error) = refl

uses_credential-given :
    (e : Env) (s : Site) (f : Family) (c : Connection)
    → uses_credential e.lib e.files e.drivers e.box e.cfg.sqlite_dir s.registry f c ≡ true
    → c.password_enc ≢ []
unfolding uses_credential password
uses_credential-given e s f c h k =
    let unused : (password e.lib e.files e.drivers e.box e.cfg.sqlite_dir c).1 ≡ false =
      rw (password, (str_eq_iff c.password_enc []).1 k) refl in
    elim (Option-cases (lookup c.id (s.registry.pools f))) [
      | inl n ↦ (let h' = rw (uses_credential, n, unused) at h in ground (arith, h'))
      | inr (x, n) ↦ (let h' = rw (uses_credential, n) at h in cc)
    ]

pub open_pool-Same :
    (e : Env) (u : User) (id : ℕ) (f : Family) (s : Site) (c : Connection)
    → find_conn e u id s ≡ ok c
    → Same e u id s (open_pool e f s c).0
unfolding open_pool
open_pool-Same e u id f s c k =
    elim (Bool-cases
      (uses_credential e.lib e.files e.drivers e.box e.cfg.sqlite_dir s.registry f c)) [
        | inl t ↦ rw (open_pool, t) (refl, inr (c, k, uses_credential-given e s f c t, refl))
        | inr t ↦ rw (open_pool, t) (refl, inl refl)
      ]

pub api_sql-calls : (e : Env) (u : User) (id : ℕ) (s : Site) → (api_sql e u id s).0.calls ≡ s.calls
unfolding api_sql open_pool
api_sql-calls e u id s = elim (Result-cases (find_conn e u id s)) [
  | inl (c, f) ↦
      rw (api_sql, f) (ap (λ (t : Site). t.calls) (with_handle-site c (open_engine e s c)))
  | inr (x, f) ↦ rw (api_sql, f) refl
]

-- A test that a request has passed.
pub unless-ok {ℓ} :
    {A : Type ℓ} (refused : Bool) (s : Site) (r : Response) (m : Site × Result Response A) (a : A)
    → (if refused then (s, err r) else m).1 ≡ ok a
    → (refused ≡ false) × (m.1 ≡ ok a)
unless-ok true s r m a k = cc
unless-ok false s r m a k = (refl, k)

pub unless-Same {ℓ} :
    {A : Type ℓ} (P : Site → Type 0) (refused : Bool) (t : Site) (r : A) (m : Site × A)
    → P t
    → P m.0
    → P (if refused then (t, r) else m).0
unless-Same P true t r m p k = p
unless-Same P false t r m p k = k

not-false : (b : Bool) → not b ≡ false → b ≡ true
not-false b h = ground arith

implied : (a b : Bool) → a && not b ≡ false → a ≡ true → b ≡ true
implied a b h = ground arith

write_on-ok :
    (e : Env) (u : User) (s : Site) (c c' : Connection) (h : Handle)
    → (write_on e u s c).1 ≡ ok (c', h)
    → (may e u s c ≡ true) × (c.read_only ≡ false) × (c ≡ c') × ((open_engine e s c).1 ≡ ok h)
unfolding write_on
write_on-ok e u s c c' h k =
    let (w, k1) = unless-ok (not (may e u s c)) s _ _ (c', h) k in
    let (ro, k2) = unless-ok c.read_only s _ _ (c', h) k1 in
    let (same, opened) = with_handle-ok c c' h (open_engine e s c) k2 in
    (not-false (may e u s c) w, ro, same, opened)

write_on-Same :
    (e : Env) (u : User) (id : ℕ) (s : Site) (c : Connection)
    → find_conn e u id s ≡ ok c
    → Same e u id s (write_on e u s c).0
unfolding write_on
write_on-Same e u id s c k =
    let P = λ (t : Site). Same e u id s t in
    unless-Same P (not (may e u s c)) s _ _ (refl, inl refl)
      (unless-Same P c.read_only s _ _ (refl, inl refl)
        (subst P (sym (with_handle-site c (open_engine e s c)))
          (open_pool-Same e u id (engine_family c.kind) s c k)))

-- Behind the gate of the writing handlers, everything has been checked.
pub api_require_write-Permitted :
    (e : Env) (u : User) (req : Request) (admin : Bool) (id : ℕ) (s : Site) (c : Connection)
    (h : Handle)
    → (api_require_write e u req admin id s).1 ≡ ok (c, h)
    → (p : Permitted e u req id s h) × (p.conn ≡ c) × (admin ≡ true → u.admin ≡ true)
unfolding api_require_write
api_require_write-Permitted e u req admin id s c h k =
    let (t, k1) = unless-ok (not (csrf_ok e req)) s _ _ (c, h) k in
    let (ad, k2) = unless-ok (admin && not u.admin) s _ _ (c, h) k1 in
    elim (Result-cases (find_conn e u id s)) [
      | inr (x, f) ↦ absurd (let k3 = rw f at k2 in cc)
      | inl (c', f) ↦
          (let k3 = rw f at k2 in
            let (w, ro, same, opened) = write_on-ok e u s c' c h k3 in
            (
              record {
                csrf = not-false (csrf_ok e req) t;
                conn = c';
                found = f;
                writes = w;
                not_read_only = ro;
                opened = opened;
              },
              same,
              implied admin u.admin ad,
            ))
    ]

pub api_require_write-Same :
    (e : Env) (u : User) (req : Request) (admin : Bool) (id : ℕ) (s : Site)
    → Same e u id s (api_require_write e u req admin id s).0
unfolding api_require_write
api_require_write-Same e u req admin id s =
    let P = λ (t : Site). Same e u id s t in
    unless-Same P (not (csrf_ok e req)) s _ _ (refl, inl refl)
      (unless-Same P (admin && not u.admin) s _ _ (refl, inl refl)
        (elim (Result-cases (find_conn e u id s)) [
          | inl (c, f) ↦
              (let same = write_on-Same e u id s c f in let same' = rw f at same in rw f same')
          | inr (x, f) ↦ rw f (refl, inl refl)
        ]))

-- A request that the gate of the admins refuses is forbidden.
pub require_admin-cases :
    (e : Env) (u : User) (req : Request)
    → ((csrf_ok e req ≡ true) × (u.admin ≡ true))
      ⊎ ((r : Response) × (require_admin e u req ≡ some r) × (r.status ≡ 403))
unfolding require_admin
require_admin-cases e u req = elim (Bool-cases (csrf_ok e req)) [
  | inr t ↦ inr (api_err 403 "bad csrf", rw (require_admin, t) refl, refl)
  | inl t ↦ elim (Bool-cases u.admin) [
    | inl a ↦ inl (t, a)
    | inr a ↦ inr (api_err 403 "admin required", rw (require_admin, t, a) refl, refl)
  ]
]
