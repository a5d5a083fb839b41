-- ===== src/Web/Editing.antt =====
-- The routes of internal/web/api.go that edit the metadata store, as one request.
use verix_dbm.Base.{ℕ, ◌≡◌, refl, ap, ◌∙◌, ◌⊎◌, inl, inr, true, Option, some}
use verix_dbm.Auth.Roles.{User}
use verix_dbm.Auth.Sessions.{Request}
use verix_dbm.Web.Responses.{Response}
use verix_dbm.Web.Site.{Env, Site}
use verix_dbm.Web.Gates.{csrf_ok, require_admin}
use verix_dbm.Web.Gates.Passing.{require_admin-cases}
use verix_dbm.Web.Connections.{
  ConnInput, GrantBody, api_create_connection, api_update_connection, api_delete_connection,
  api_set_grant, api_delete_grant, api_test_connection,
}
use verix_dbm.Web.Admin.{api_reencrypt}

pub data Edit : Type 0 where
  creates_connection : Option ConnInput → Edit
  updates_connection : ℕ → Option ConnInput → Edit
  deletes_connection : ℕ → Edit
  tests_connection : Option ConnInput → Edit
  sets_grant : ℕ → Option GrantBody → Edit
  deletes_grant : ℕ → ℕ → Edit
  reencrypts : Edit

unfoldable pub serve_edit : Env → User → Request → Edit → Site → Site × Response
serve_edit e u req (creates_connection body) s = api_create_connection e u req body s
serve_edit e u req (updates_connection id body) s = api_update_connection e u req id body s
serve_edit e u req (deletes_connection id) s = api_delete_connection e u req id s
serve_edit e u req (tests_connection body) s = api_test_connection e u req body s
serve_edit e u req (sets_grant id body) s = api_set_grant e u req id body s
serve_edit e u req (deletes_grant id gid) s = api_delete_grant e u req id gid s
serve_edit e u req reencrypts s = api_reencrypt e u req s

refused :
    (e : Env) (u : User) (req : Request) (edit : Edit) (s : Site) (r : Response)
    → require_admin e u req ≡ some r
    → serve_edit e u req edit s ≡ (s, r)
unfolding serve_edit api_create_connection api_update_connection api_delete_connection
    api_test_connection api_set_grant api_delete_grant api_reencrypt
refused e u req (creates_connection body) s r k = rw (api_create_connection, k) refl
refused e u req (updates_connection id body) s r k = rw (api_update_connection, k) refl
refused e u req (deletes_connection id) s r k = rw (api_delete_connection, k) refl
refused e u req (tests_connection body) s r k = rw (api_test_connection, k) refl
refused e u req (sets_grant id body) s r k = rw (api_set_grant, k) refl
refused e u req (deletes_grant id gid) s r k = rw (api_delete_grant, k) refl
refused e u req reencrypts s r k = rw (api_reencrypt, k) refl

-- An edit of the connections, the grants or the stored passwords is by an admin and with the CSRF
-- token of the session; any other changes nothing, opens and closes no pool, and is forbidden.
pub serve_edit_lem :
    (e : Env) (u : User) (req : Request) (edit : Edit) (s : Site)
    → ((csrf_ok e req ≡ true) × (u.admin ≡ true))
      ⊎ (((serve_edit e u req edit s).0 ≡ s) × ((serve_edit e u req edit s).1.status ≡ 403))
serve_edit_lem e u req edit s = elim (require_admin-cases e u req) [
  | inl passed ↦ inl passed
  | inr (r, k, status) ↦
      (let same = refused e u req edit s r k in
        inr (ap (λ p. p.0) same, ap (λ p. p.1.status) same ∙ status))
]
