-- ===== src/Web/Statements/Outcomes.antt =====
-- What a handler that changes a target does: nothing, or one call with one entry of the audit log.
use verix_dbm.Base.{
  ℕ, ◌≡◌, refl, sym, subst, ◌⊎◌, inl, inr, Bool, true, false, ◌∷◌, Result-cases, ok, err,
}
use verix_dbm.Auth.Roles.{User}
use verix_dbm.Auth.Sessions.{Request}
use verix_dbm.Store.{Connection}
use verix_dbm.Registry.{Handle}
use verix_dbm.Sql.Dialects.{dialect}
use verix_dbm.Web.Site.{Env, Site, Made, called, audited, audit_detail, succeeded}
use verix_dbm.Web.Gates.{Passed, api_require_write}
use verix_dbm.Web.Gates.Passing.{
  Permitted, Same, api_require_write-Permitted, api_require_write-Same,
}
use verix_dbm.Web.Statements.{
  Statement, Job, for_admins, plan, run_job, run_plan, after_gate, serve_statement,
}

abbrev pub made_by : Handle → Job → Made
made_by h job = record { handle = h; call = job.call }

-- The job has been done at `t`: its call is the last one, and the audit log has its entry, which
-- says whether the call succeeded, after the one for the use of the stored password, if any.
abbrev pub Done : Env → User → ℕ → ℕ → Handle → Job → Site → Site → Type 0
Done e u id conn_id h job s t =
    (t.calls ≡ made_by h job ∷ s.calls)
    × (m : Site) × Same e u id s m
    × (t.store
        ≡ (audited e u conn_id job.action (audit_detail e job.detail)
            (succeeded (e.target.error_of s.calls (made_by h job))) m).store)

after_gate-Done :
    (e : Env) (u : User) (id : ℕ) (st : Statement) (decoded : Bool) (s : Site)
    (gate : Site × Passed)
    → Same e u id s gate.0
    → Same e u id s (after_gate e u st decoded gate).0
      ⊎ ((c : Connection) × (h : Handle) × (job : Job) × (gate.1 ≡ ok (c, h))
          × (plan st u c (dialect h.family) ≡ ok job)
          × Done e u id c.id h job s (after_gate e u st decoded gate).0)
unfolding after_gate run_plan run_job audited called
after_gate-Done e u id st decoded s (t, err r) p = inl p
after_gate-Done e u id st false s (t, ok (c, h)) p = inl p
after_gate-Done e u id st true s (t, ok (c, h)) p =
    elim (Result-cases (plan st u c (dialect h.family))) [
      | inr (r, f) ↦ inl (rw f p)
      | inl (job, f) ↦ inr (c, h, job, refl, f, rw f (rw p.0 (refl, t, p, refl)))
    ]

-- A handler that changes a target leaves the calls as they were, and the tables too but for the entry
-- `cred_access` of the audit log where the stored password of the connection has been used; or it has
-- made exactly the one call of its plan and then added one entry to the audit log, which tells the
-- outcome, to tables that were left so. Then the request had the CSRF token of the session, the user
-- may write on the connection, which is not read-only, the user is an admin if the route is for
-- admins, and the call was made on the pool of this connection.
pub serve_statement_lem :
    (e : Env) (u : User) (req : Request) (id : ℕ) (st : Statement) (decoded : Bool) (s : Site)
    → Same e u id s (serve_statement e u req id st decoded s).0
      ⊎ ((h : Handle) × (job : Job) × (p : Permitted e u req id s h) × (for_admins st ≡ true
            → u.admin ≡ true)
          × (plan st u p.conn (dialect h.family) ≡ ok job)
          × Done e u id p.conn.id h job s (serve_statement e u req id st decoded s).0)
unfolding serve_statement
serve_statement_lem e u req id st decoded s =
    let gate = api_require_write e u req (for_admins st) id s in
    elim (after_gate-Done e u id st decoded s gate
      (api_require_write-Same e u req (for_admins st) id s)) [
        | inl p ↦ inl p
        | inr (c, h, job, g, f, d) ↦
            (let (p, same, admin) =
                api_require_write-Permitted e u req (for_admins st) id s c h g in
              inr (
                h,
                job,
                p,
                admin,
                subst (λ x. plan st u x (dialect h.family) ≡ ok job) (sym same) f,
                subst (λ x. Done e u id x.id h job s (after_gate e u st decoded gate).0) (sym same)
                    d,
              ))
      ]
