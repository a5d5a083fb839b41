-- ===== src/Web/Connections/Secrets.antt =====
-- No stored password reaches a browser.
use verix_dbm.Base.{
  ◌≡◌, refl, inl, inr, Bool, not, ◌&&◌, List, [], ◌∷◌, map, arith, Bool-cases, keep_if, keep_if-nil,
  keep_if-cons, some_of, Bytes,
}
use verix_dbm.Auth.Roles.{User, subjects}
use verix_dbm.Store.{Store, Connection}
use verix_dbm.Store.Grants.{applies, list_connections, list_connections_for_subjects}
use verix_dbm.Access.{listed}
use verix_dbm.Web.Responses.{to_conn_dto}
use verix_dbm.Web.Site.{Env, Site}
use verix_dbm.Web.Connections.{api_list_connections}

-- Each stored password is another.
abbrev pub repainted : (Connection → Bytes) → Connection → Connection
repainted f c = record c { password_enc = f c }

abbrev pub repaint : (Connection → Bytes) → Site → Site
repaint f s = record s {
  store = record s.store { connections = map (repainted f) s.store.connections };
}

shown_same :
    (f : Connection → Bytes) (cs : List Connection)
    → map to_conn_dto (map (repainted f) cs) ≡ map to_conn_dto cs
unfolding to_conn_dto
shown_same f [] = refl
shown_same f (c ∷ cs) = rw (shown_same f cs) refl

keep_if-repainted :
    (f : Connection → Bytes) (p : Connection → Bool)
    → ((c : Connection) → p (repainted f c) ≡ p c)
    → (cs : List Connection) → keep_if p (map (repainted f) cs) ≡ map (repainted f) (keep_if p cs)
keep_if-repainted f p same [] = rw (keep_if-nil p) refl
keep_if-repainted f p same (c ∷ cs) = ground (
  arith,
  keep_if-cons p c cs,
  keep_if-cons p (repainted f c) (map (repainted f) cs),
  same c,
  keep_if-repainted f p same cs,
)

scoped_same :
    (f : Connection → Bytes) (s : Store) (subjects : List Bytes)
    → list_connections_for_subjects
        (record s { connections = map (repainted f) s.connections })
        subjects
      ≡ map (repainted f) (list_connections_for_subjects s subjects)
unfolding list_connections_for_subjects
scoped_same f s [] = refl
scoped_same f s (t ∷ ts) =
    keep_if-repainted f (λ (c : Connection). some_of (applies c.id (t ∷ ts)) s.grants) (λ c. refl)
      s.connections

-- The list of connections that a user gets does not depend on the stored passwords.
pub api_list_connections-repaint :
    (e : Env) (u : User) (f : Connection → Bytes) (s : Site)
    → (api_list_connections e u (repaint f s)).1 ≡ (api_list_connections e u s).1
unfolding api_list_connections listed list_connections list_connections_for_subjects
api_list_connections-repaint e u f s = elim (Bool-cases (e.cfg.scoped_access && not u.admin)) [
  | inr n ↦ rw (api_list_connections, listed, n, shown_same f s.store.connections) refl
  | inl y ↦
      (let same = scoped_same f s.store (subjects u) in
        rw
          (
            api_list_connections,
            listed,
            y,
            same,
            shown_same f (list_connections_for_subjects s.store (subjects u)),
          )
          refl)
]
