-- ===== src/Web/Console/Checks.antt =====
-- What has been checked of a statement of the query console before it reaches its target.
use verix_dbm.Base.{
  ℕ, ◌≡◌, refl, ap, ◌≢◌, ◌⊎◌, inl, inr, Bool, true, false, not, ◌&&◌, ◌||◌, Option, none, some, [],
  ◌∷◌, arith, Bool-cases, Option-cases, str_eq, str_eq_iff, Result-cases, Result, ok, err,
}
use verix_dbm.GoStrings.{trim_space}
use verix_dbm.Auth.Roles.{User}
use verix_dbm.Auth.Sessions.{Request}
use verix_dbm.Store.{Connection}
use verix_dbm.Registry.{Handle, OpenError}
use verix_dbm.Sql.Screens.{server_side_blocked}
use verix_dbm.Sql.Confirm.{needs_confirm}
use verix_dbm.Web.Site.{Env, Site, Made, queries, called, audited, open_engine, engine_family}
use verix_dbm.Web.Gates.{csrf_ok, find_conn, may}
use verix_dbm.Web.Gates.Passing.{Same, open_pool-Same}
use verix_dbm.Web.Console.{
  QueryBody, runs_read_only, run_query, query_with, screened, query_on, api_query,
}

-- A statement that nothing stops: it is not empty, it is not refused to the user, and where it may
-- write it needs no confirmation or has it.
pub record Screened (u : User) (c : Connection) (body : QueryBody) (read_only : Bool) : Type 0 where
  pub not_empty : trim_space body.sql ≢ []
  pub not_blocked : server_side_blocked u c.kind (trim_space body.sql ∷ []) ≡ false
  pub confirmed :
      read_only ≡ false → needs_confirm (trim_space body.sql) ≡ true → body.confirm ≡ true

screened-Screened :
    (u : User) (c : Connection) (body : QueryBody) (read_only : Bool)
    → screened u c body read_only ≡ none
    → Screened u c body read_only
unfolding screened
screened-Screened u c body read_only h =
    let tests : (str_eq (trim_space body.sql) [] ≡ false)
        × (server_side_blocked u c.kind (trim_space body.sql ∷ []) ≡ false)
        × (not read_only && (needs_confirm (trim_space body.sql) && not body.confirm) ≡ false) =
      ground (arith, h) in
    record {
      not_empty = λ e. ground (arith, tests.0, (str_eq_iff (trim_space body.sql) []).1 e);
      not_blocked = tests.1;
      confirmed = λ r n. ground (arith, tests.2, r, n);
    }

abbrev pub query_made : Handle → QueryBody → Bool → Made
query_made h body read_only = record {
  handle = h;
  call = queries (trim_space body.sql) read_only body.schema;
}

query_with-called :
    (e : Env) (u : User) (id : ℕ) (c : Connection) (body : QueryBody) (read_only : Bool) (s : Site)
    (p : Site × Result OpenError Handle)
    → Same e u id s p.0
    → Same e u id s (query_with e u c body read_only p).0
      ⊎ ((h : Handle) × (p.1 ≡ ok h)
          × ((query_with e u c body read_only p).0.calls ≡ query_made h body read_only ∷ s.calls))
unfolding query_with run_query audited called
query_with-called e u id c body read_only s (t, err error) k = inl k
query_with-called e u id c body read_only s (t, ok h) k =
    inr (h, refl, ap (λ calls. query_made h body read_only ∷ calls) k.0)

-- A statement of the console reaches its target at most once, trimmed, and marked read-only exactly
-- if the connection is or the user may not write on it. It does only with the CSRF token of the
-- session, on a connection the user may read, on the pool of that connection, and once it has been
-- screened; otherwise the calls are as they were, and so are the tables but for the entry
-- `cred_access` of the audit log where the stored password of the connection has been used.
pub api_query_lem :
    (e : Env) (u : User) (req : Request) (id : ℕ) (body : Option QueryBody) (s : Site)
    → Same e u id s (api_query e u req id body s).0
      ⊎ ((c : Connection) × (b : QueryBody) × (h : Handle) × (csrf_ok e req ≡ true)
          × (find_conn e u id s ≡ ok c)
          × (body ≡ some b)
          × Screened u c b (c.read_only || not (may e u s c))
          × ((open_engine e s c).1 ≡ ok h)
          × ((api_query e u req id body s).0.calls
              ≡ query_made h b (c.read_only || not (may e u s c)) ∷ s.calls))
unfolding api_query query_on runs_read_only
api_query_lem e u req id body s = elim (Bool-cases (csrf_ok e req)) [
  | inr t ↦ inl (rw t (refl, inl refl))
  | inl t ↦ elim (Result-cases (find_conn e u id s)) [
    | inr (x, f) ↦ inl (rw (t, f) (refl, inl refl))
    | inl (c, f) ↦ elim (Option-cases body) [
      | inl b ↦ inl (rw (t, f, b) (refl, inl refl))
      | inr (b, g) ↦
          (let ro = c.read_only || not (may e u s c) in
            elim (Option-cases (screened u c b ro)) [
              | inr (r, n) ↦ inl (rw (t, f, g, query_on, n) (refl, inl refl))
              | inl n ↦
                  elim (query_with-called e u id c b ro s (open_engine e s c)
                    (open_pool-Same e u id (engine_family c.kind) s c f)) [
                      | inl same ↦ inl (let same' = rw f at same in rw (t, f, g, query_on, n) same')
                      | inr (h, o, calls) ↦ inr (
                        c,
                        b,
                        h,
                        t,
                        f,
                        g,
                        screened-Screened u c b ro n,
                        o,
                        rw (t, f, g, query_on, n) calls,
                      )
                    ]
            ])
    ]
  ]
]
