-- ===== src/Web/Safety.antt =====
-- The routes of internal/web/api.go that reach a SQL target, as one request.
use verix_dbm.Base.{
  ℕ, ◌≡◌, sym, ap, subst, ◌⊎◌, inl, inr, Bool, false, not, ◌||◌, Option, List, [], ◌∷◌, ◌++◌, arith,
  Bool-cases, All, OneOf,
}
use verix_dbm.Auth.Roles.{User}
use verix_dbm.Auth.Sessions.{Request}
use verix_dbm.Web.Responses.{Response}
use verix_dbm.Web.Site.{Env, Site, Made, may_write}
use verix_dbm.Web.Gates.{may}
use verix_dbm.Web.Gates.Passing.{Permitted}
use verix_dbm.Web.Statements.{Statement, serve_statement}
use verix_dbm.Web.Statements.Outcomes.{serve_statement_lem}
use verix_dbm.Web.Console.{QueryBody, api_query}
use verix_dbm.Web.Console.Checks.{api_query_lem}
use verix_dbm.Web.Reads.{Read, serve_read}
use verix_dbm.Web.Explorer.{FormQuery, api_explorer, api_ddl_form_prefill}
use verix_dbm.Web.Reads.Harmless.{
  Harmless, serve_read-Harmless, explorer-Harmless, form_prefill-Harmless,
}

pub data SqlRequest : Type 0 where
  changes : Statement → Bool → SqlRequest
  asks : Option QueryBody → SqlRequest
  reads : Read → SqlRequest
  explores : SqlRequest
  prefills : FormQuery → SqlRequest

unfoldable pub serve : Env → User → Request → ℕ → SqlRequest → Site → Site × Response
serve e u req id (changes st decoded) s = serve_statement e u req id st decoded s
serve e u req id (asks body) s = api_query e u req id body s
serve e u req id (reads r) s = serve_read e u req id r s
serve e u req id explores s = api_explorer e u id s
serve e u req id (prefills q) s = api_ddl_form_prefill e u id q s

-- A call that was made before, one that cannot write, or one that is permitted.
abbrev pub Accounted : Env → User → Request → ℕ → Site → Made → Type 0
Accounted e u req id s m =
    OneOf m s.calls ⊎ ((may_write m.call ≡ false) ⊎ Permitted e u req id s m.handle)

same_calls :
    (e : Env) (u : User) (req : Request) (id : ℕ) (s : Site) (calls : List Made) (m : Made)
    → calls ≡ s.calls
    → OneOf m calls
    → Accounted e u req id s m
same_calls e u req id s calls m k o = inl (subst (λ cs. OneOf m cs) k o)

one_call :
    (e : Env) (u : User) (req : Request) (id : ℕ) (s : Site) (calls : List Made) (m new : Made)
    → calls ≡ new ∷ s.calls
    → Accounted e u req id s new
    → OneOf m calls
    → Accounted e u req id s m
one_call e u req id s calls m new k a o = elim (subst (λ cs. OneOf m cs) k o) [
  | inl q ↦ subst (λ x. Accounted e u req id s x) (sym q) a
  | inr old ↦ inl old
]

calls-Accounted :
    (e : Env) (u : User) (req : Request) (id : ℕ) (s : Site) (new : List Made) (m : Made)
    → All (λ (n : Made). may_write n.call ≡ false) new
    → OneOf m (new ++ s.calls)
    → Accounted e u req id s m
calls-Accounted e u req id s [] m w o = inl o
calls-Accounted e u req id s (n ∷ new) m w (inl q) =
    inr (inl (subst (λ x. may_write x.call ≡ false) (sym q) w.0))
calls-Accounted e u req id s (n ∷ new) m w (inr o) = calls-Accounted e u req id s new m w.1 o

Harmless-Accounted :
    (e : Env) (u : User) (req : Request) (id : ℕ) (s : Site) (calls : List Made) (m : Made)
    → Harmless s.calls calls
    → OneOf m calls
    → Accounted e u req id s m
Harmless-Accounted e u req id s calls m (new, w, k) o =
    calls-Accounted e u req id s new m w (subst (λ cs. OneOf m cs) k o)

-- Whatever the request to a SQL target: a call that may write is made only with the CSRF token of
-- the session, by a user who may write on the connection, where the connection is not read-only, and
-- on the pool that has been opened for this connection.
pub serve-Permitted :
    (e : Env) (u : User) (req : Request) (id : ℕ) (r : SqlRequest) (s : Site) (m : Made)
    → OneOf m (serve e u req id r s).0.calls
    → Accounted e u req id s m
unfolding serve may_write
serve-Permitted e u req id (changes st decoded) s m o =
    elim (serve_statement_lem e u req id st decoded s) [
      | inl k ↦ same_calls e u req id s _ m k.0 o
      | inr (h, job, p, admin, f, d) ↦ one_call e u req id s _ m _ d.0 (inr (inr p)) o
    ]
serve-Permitted e u req id (asks body) s m o = elim (api_query_lem e u req id body s) [
  | inl k ↦ same_calls e u req id s _ m k.0 o
  | inr (c, b, h, t, f, g, sc, opened, calls) ↦
      one_call e u req id s _ m _ calls
        (elim (Bool-cases (c.read_only || not (may e u s c))) [
          | inl ro ↦ inr (inl (ap not ro))
          | inr ro ↦ inr (
              inr (record {
                csrf = t;
                conn = c;
                found = f;
                writes = ground (arith, ro);
                not_read_only = ground (arith, ro);
                opened = opened;
              }))
        ])
        o
]
serve-Permitted e u req id (reads r) s m o =
    Harmless-Accounted e u req id s _ m (serve_read-Harmless e u req id r s) o
serve-Permitted e u req id explores s m o =
    Harmless-Accounted e u req id s _ m (explorer-Harmless e u id s) o
serve-Permitted e u req id (prefills q) s m o =
    Harmless-Accounted e u req id s _ m (form_prefill-Harmless e u id q s) o
