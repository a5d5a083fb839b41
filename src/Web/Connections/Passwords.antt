-- ===== src/Web/Connections/Passwords.antt =====
-- The password that an admin enters is the one a pool is opened with.
use verix_dbm.Base.{
  ℕ, ◌≡◌, refl, inl, inr, Bool, true, false, none, some, List, [], ◌∷◌, ◌++◌, arith, if◌then◌else◌,
  ==_iff, Bool-cases, length, Bytes, str_eq, Result, ok,
}
use verix_dbm.Auth.Roles.{User}
use verix_dbm.Crypto.{CryptoError, dollar, nonce_size, seal, encrypt}
use verix_dbm.Crypto.Ring.{IsBox, cut-encrypt, decrypt-encrypt}
use verix_dbm.Store.{
  Connection, find_row, add_audit, create_connection, update_connection, edited,
  edited_with_password, update_rows,
}
use verix_dbm.Store.Invariant.{IsConsistent}
use verix_dbm.Store.Lookup.{find_row-append, find_row-update_rows}
use verix_dbm.Registry.{password}
use verix_dbm.Sql.{given}
use verix_dbm.Web.Egress.{guard_conn_egress}
use verix_dbm.Web.Responses.{to_conn_dto}
use verix_dbm.Web.Site.{Env, Site, audited}
use verix_dbm.Web.Connections.{
  ConnInput, conn_of, new_password, insert_connection, create_from, save_connection, update_from,
}

-- What `Registry.password` makes of a row.
abbrev pub password_in : Env → Connection → Result CryptoError Bytes × Bool
password_in e c = password e.lib e.files e.drivers e.box e.cfg.sqlite_dir c

ends_later : (s t : Bytes) (c : ℕ) → str_eq (s ++ c ∷ t) [] ≡ false
unfolding str_eq
ends_later [] t c = refl
ends_later (d ∷ s) t c = refl

-- A row with an encrypted password yields the password.
pub encrypt-password :
    (e : Env) (nonce pt : Bytes)
    → IsBox e.box
    → length nonce ≡ nonce_size
    → (enc : Bytes) × (encrypt e.lib e.box nonce pt ≡ some enc)
      × ((c : Connection) → c.password_enc ≡ enc → password_in e c ≡ (ok pt, true))
unfolding password
encrypt-password e nonce pt v h =
    let (key, found, f, at_dollar) = cut-encrypt e.lib e.box nonce pt v in
    let (enc, f', d) = decrypt-encrypt e.lib e.box e.box nonce pt v h refl in
    let same : enc ≡ e.box.primary_id ++ dollar ∷ seal e.lib key nonce pt = ground (arith, f, f') in
    let bare : str_eq enc [] ≡ false =
      rw same (ends_later e.box.primary_id (seal e.lib key nonce pt) dollar) in
    (enc, f', λ c k. rw (password, k, bare, d) refl)

-- The entered fields of a connection.
abbrev pub Entered : ConnInput → ℕ → Connection → Type 0
Entered input id c = to_conn_dto c ≡ record {
  id = id;
  name = input.name;
  kind = input.kind;
  host = input.host;
  port = input.port;
  db_name = input.db_name;
  username = input.username;
  options = input.options;
  read_only = input.read_only;
}

-- With a ring that `NewFromProvider` accepts and a nonce of the right length, in a store with the
-- invariant: a connection that is created with a password, at a target that may be dialled, is found
-- under its new id with the entered fields, and its password is the entered one.
pub create_from-password :
    (e : Env) (u : User) (input : ConnInput) (s : Site)
    → IsBox e.box
    → length (e.nonce 0) ≡ nonce_size
    → IsConsistent s.store
    → given input.password ≡ true
    → guard_conn_egress e.net e.cfg (conn_of input u.email) ≡ none
    → (c : Connection) × (find_row s.store.next_conn (create_from e u input s).0.store.connections
        ≡ some c)
      × Entered input s.store.next_conn c
      × (password_in e c ≡ (ok input.password, true))
unfolding create_from new_password insert_connection create_connection audited add_audit conn_of
    to_conn_dto
create_from-password e u input s v h w p g =
    let (enc, f, read) = encrypt-password e (e.nonce 0) input.password v h in
    let c : Connection = record (conn_of input u.email) {
      id = s.store.next_conn;
      created_at = e.now;
      password_enc = enc;
    } in
    (
      c,
      rw (create_from, g, new_password, p, f)
          (find_row-append s.store.next_conn s.store.connections c w.below refl),
      refl,
      read c refl,
    )

-- An edited row is found at its id.
seen_at :
    (id : ℕ) (row : Connection) (cs : List Connection)
    → find_row id cs ≡ some row
    → (set : Connection → Connection) → ((c : Connection) → (set c).id ≡ c.id)
    → find_row id (update_rows id set cs) ≡ some (set row)
seen_at id row cs found set same =
    rw (find_row-update_rows id id set same cs, (==_iff id id).1 refl, found) refl

-- With such a ring and nonce: an edit of a connection, at a target that may be dialled, writes the
-- entered fields; its password is then the entered one, or the old one if none was entered.
pub update_from-password :
    (e : Env) (u : User) (row : Connection) (input : ConnInput) (s : Site)
    → IsBox e.box
    → length (e.nonce 0) ≡ nonce_size
    → find_row row.id s.store.connections ≡ some row
    → guard_conn_egress e.net e.cfg (edited (conn_of input u.email) row) ≡ none
    → (c : Connection) × (find_row row.id (update_from e u row input s).0.store.connections
        ≡ some c)
      × Entered input row.id c
      × (password_in e c
          ≡ (if given input.password then (ok input.password, true) else password_in e row))
unfolding update_from save_connection update_connection audited add_audit conn_of edited
    edited_with_password to_conn_dto password
update_from-password e u row input s v h found g =
    let seen = seen_at row.id row s.store.connections found in
    elim (Bool-cases (given input.password)) [
      | inr p ↦
          (let c = edited (conn_of input u.email) row in
            (
              edited c row,
              rw (update_from, g, p, seen (edited c) (λ r. refl)) refl,
              refl,
              rw p refl,
            ))
      | inl p ↦
          (let (enc, f, read) = encrypt-password e (e.nonce 0) input.password v h in
            let c : Connection = record (edited (conn_of input u.email) row) {
              password_enc = enc;
            } in
            (
              edited_with_password c row,
              rw (update_from, g, p, f, seen (edited_with_password c) (λ r. refl)) refl,
              refl,
              rw p (read (edited_with_password c row) refl),
            ))
    ]
