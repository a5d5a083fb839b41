-- ===== src/Store/Invariant.antt =====
-- The invariant of the store: ids are unique and below the next one, a (connection, subject) pair
-- has one grant, and every grant is on a connection that is there.
pub mod Connections
pub mod Grants
pub mod Steps
use verix_dbm.Base.{
  ℕ, zero, suc, ◌+◌, ◌-◌, ◌*◌, ◌≤◌, ◌<◌, String, ◌≡◌, refl, sym, ap, ◌∙◌, subst, ◌≢◌, ◌↔◌, ◌⊎◌, inl,
  inr, Bool, true, false, not, ◌&&◌, ◌||◌, Option, none, some, List, [], ◌∷◌, ◌++◌, map, append-nil,
  append_assoc, arith, ltb, leb, ◌==◌, if◌then◌else◌, ==_iff, Bool-cases, Option-cases, Bool-ext,
  length, length-append, All, OneOf, keep_if, keep_if-nil, keep_if-cons, length-keep_if-le, take,
  some_of, some_of-take, some_of-append, some_of-keep_if, some_of_elim, some_of_intro,
  keep_if-OneOf, OneOf-keep_if, keep_if_laws, Bytes, codes, str_eq, str_eq_iff, str_eq_refl,
  contains, contains_iff, contains-append, ◌>>=◌, Result-cases, Result, ok, err, max_int, ℤ, pos,
  negsuc,
}
use verix_dbm.Store.{
  Connection, Grant, Store, StoreError, Audit, find_row, create_connection, update_rows, edited,
  edited_with_password, update_connection, with_password, update_password_enc, delete_connection,
  add_audit, purge_audit_older_than, same_pair, upsert, set_grant, delete_grant, no_rows,
  foreign_key,
}
use verix_dbm.Store.Ids.{Unused, UniqueIds}

abbrev pub BelowNext : ℕ → List Connection → Type 0
BelowNext n = All (λ (c : Connection). c.id < n)

-- No later row has the pair of an earlier one.
abbrev pub UniquePairs : List Grant → Type 0
UniquePairs [] = Unit {0}
UniquePairs (g ∷ gs) = (some_of (same_pair g.conn_id g.subject) gs ≡ false) × UniquePairs gs

abbrev pub has_id : ℕ → List Connection → Bool
has_id id = some_of (λ (c : Connection). c.id == id)

-- The foreign key.
abbrev pub Referenced : List Connection → List Grant → Type 0
Referenced cs = All (λ (g : Grant). has_id g.conn_id cs ≡ true)

pub record IsConsistent (s : Store) : Type 0 where
  pub unique : UniqueIds s.connections
  pub below : BelowNext s.next_conn s.connections
  pub pairs : UniquePairs s.grants
  pub refs : Referenced s.connections s.grants

pub data Op : Type 0 where
  creates : Connection → Op
  updates : Connection → Bool → Op
  rewrites_password : ℕ → Bytes → Op
  deletes : ℕ → Op
  audits : Audit → Op
  purges : ℕ → Op
  grants : Grant → Op
  revokes : ℕ → ℕ → Op

-- A statement that fails leaves the tables as they were.
abbrev pub after : Store → Result StoreError Store → Store
after s (ok t) = t
after s (err e) = s

unfoldable pub step : Store → ℕ → Op → Store
step s now (creates c) = (create_connection s c now).0
step s now (updates c pw) = update_connection s c pw
step s now (rewrites_password id enc) = update_password_enc s id enc
step s now (deletes id) = delete_connection s id
step s now (audits a) = (add_audit s a now).0
step s now (purges cutoff) = (purge_audit_older_than s cutoff).0
step s now (grants g) = after s (set_grant s g now)
step s now (revokes conn_id id) = delete_grant s conn_id id
