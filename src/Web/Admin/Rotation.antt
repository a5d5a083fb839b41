-- ===== src/Web/Admin/Rotation.antt =====
-- The rotation of the stored passwords: whatever row it meets, what a row decrypts to stays.
use verix_dbm.Base.{
  ℕ, ◌≡◌, refl, sym, ◌∙◌, inl, inr, true, Option, none, some, List, [], ◌∷◌, ◌==◌, if◌then◌else◌,
  ==_iff, Bool-cases, Option-cases, length, OneOf, Bytes, str_eq, Result,
}
use verix_dbm.Auth.Roles.{User}
use verix_dbm.Auth.Sessions.{Request}
use verix_dbm.Crypto.{CryptoError, nonce_size, decrypt, is_current}
use verix_dbm.Crypto.Ring.{IsBox}
use verix_dbm.Crypto.Rotation.{reencrypt_lem}
use verix_dbm.Store.{Connection, find_row, with_password, update_password_enc, add_audit}
use verix_dbm.Store.Ids.{OneOf-find_row}
use verix_dbm.Store.Grants.{list_connections}
use verix_dbm.Store.Invariant.{IsConsistent}
use verix_dbm.Store.Lookup.{find_row-update_rows}
use verix_dbm.GoStrings.{cut}
use verix_dbm.Sql.{given}
use verix_dbm.Web.Site.{Env, Site, audited}
use verix_dbm.Web.Gates.{require_admin}
use verix_dbm.Web.Admin.{
  Progress, rewrite_with, reencrypt_one, reencrypt_all, finish_reencrypt, api_reencrypt,
}

-- What the row of an id holds: nothing, or what its stored password decrypts to.
abbrev pub secret_of : Env → Option Connection → Option (Option (Result CryptoError Bytes))
secret_of e none = none
secret_of e (some c) =
    some (if given c.password_enc then some (decrypt e.lib e.box c.password_enc) else none)

abbrev pub Kept : Env → List Connection → Site → Type 0
Kept e cs s =
    (id : ℕ) → secret_of e (find_row id s.store.connections) ≡ secret_of e (find_row id cs)

-- A row is rewritten by what decrypts to the same.
update_password_enc-Kept :
    (e : Env) (cs : List Connection) (c : Connection) (enc : Bytes) (s : Site)
    → find_row c.id cs ≡ some c
    → given c.password_enc ≡ true
    → given enc ≡ true
    → decrypt e.lib e.box enc ≡ decrypt e.lib e.box c.password_enc
    → Kept e cs s
    → Kept e cs (record s { store = update_password_enc s.store c.id enc })
unfolding update_password_enc with_password
update_password_enc-Kept e cs c enc s found g g' same k id = elim (Bool-cases (id == c.id)) [
  | inr n ↦
      rw (find_row-update_rows id c.id (with_password enc) (λ r. refl) s.store.connections, n)
        (k id)
  | inl y ↦
      (let at_id : find_row id cs ≡ some c = rw ((==_iff id c.id).0 y) found in
        elim (Option-cases (find_row id s.store.connections)) [
          | inl n ↦
              (let kept : secret_of e (find_row id s.store.connections)
                    ≡ secret_of e (find_row id cs) =
                  k id in
                let q = rw (n, at_id) at kept in absurd cc)
          | inr (r, n) ↦
              rw
                (
                  find_row-update_rows id c.id (with_password enc) (λ x. refl) s.store.connections,
                  y,
                  n,
                  at_id,
                  g,
                  g',
                  same,
                )
                refl
        ])
]

current-given : (e : Env) (enc : Bytes) → is_current e.lib e.box enc ≡ true → given enc ≡ true
unfolding is_current cut str_eq
current-given e [] k = cc
current-given e (c ∷ enc) k = refl

reencrypt_one-Kept :
    (e : Env) (cs : List Connection) (c : Connection) (p : Progress)
    → IsBox e.box
    → ((n : ℕ) → length (e.nonce n) ≡ nonce_size)
    → find_row c.id cs ≡ some c
    → Kept e cs p.0
    → Kept e cs (reencrypt_one e c p).0
unfolding reencrypt_one rewrite_with
reencrypt_one-Kept e cs c (s, n) v h found k = elim (Bool-cases (given c.password_enc)) [
  | inr g ↦ rw (reencrypt_one, g) k
  | inl g ↦ elim (reencrypt_lem e.lib e.box v (e.nonce n.checked) (h n.checked) c.password_enc) [
    | inl (cur, f) ↦ rw (reencrypt_one, g, f) k
    | inr (old, inl (x, d, f)) ↦ rw (reencrypt_one, g, f) k
    | inr (old, inr (enc, pt, d, f, cur, d')) ↦
        rw (reencrypt_one, g, f)
          (update_password_enc-Kept e cs c enc s found g (current-given e enc cur) (d' ∙ sym d) k)
  ]
]

reencrypt_all-Kept :
    (e : Env) (cs ds : List Connection) (p : Progress)
    → IsBox e.box
    → ((n : ℕ) → length (e.nonce n) ≡ nonce_size)
    → ((c : Connection) → OneOf c ds → find_row c.id cs ≡ some c)
    → Kept e cs p.0
    → Kept e cs (reencrypt_all e ds p).0
unfolding reencrypt_all
reencrypt_all-Kept e cs [] p v h rows k = k
reencrypt_all-Kept e cs (d ∷ ds) p v h rows k =
    reencrypt_all-Kept e cs ds (reencrypt_one e d p) v h (λ c o. rows c (inr o))
      (reencrypt_one-Kept e cs d p v h (rows d (inl refl)) k)

-- With a ring that `NewFromProvider` accepts and nonces of the right length, in a store with the
-- invariant: the re-encryption of the stored passwords, whoever asks for it, leaves every id a row
-- exactly if it had one, and what the stored password of the row decrypts to as it was.
pub api_reencrypt-secret_of :
    (e : Env) (u : User) (req : Request) (s : Site) (id : ℕ)
    → IsBox e.box
    → ((n : ℕ) → length (e.nonce n) ≡ nonce_size)
    → IsConsistent s.store
    → secret_of e (find_row id (api_reencrypt e u req s).0.store.connections)
      ≡ secret_of e (find_row id s.store.connections)
unfolding api_reencrypt finish_reencrypt audited add_audit list_connections
api_reencrypt-secret_of e u req s id v h w = elim (Option-cases (require_admin e u req)) [
  | inr (r, k) ↦ rw (api_reencrypt, k) refl
  | inl k ↦
      rw (api_reencrypt, k)
        (reencrypt_all-Kept e s.store.connections s.store.connections (s, _) v h
          (λ c o. OneOf-find_row s.store.connections c w.unique o) (λ i. refl) id)
]
