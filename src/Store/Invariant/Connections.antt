-- ===== src/Store/Invariant/Connections.antt =====
-- The invariant of the store under the operations on connections.
use verix_dbm.Base.{
  ℕ, suc, ◌<◌, ◌≡◌, refl, ◌∙◌, ◌≢◌, Bool, true, false, List, [], ◌∷◌, ◌++◌, arith, ◌==◌, some_of,
  some_of-append, Bytes,
}
use verix_dbm.Store.{
  Connection, Grant, Store, create_connection, update_rows, edited, edited_with_password,
  update_connection, with_password, update_password_enc,
}
use verix_dbm.Store.Ids.{Unused, UniqueIds}
use verix_dbm.Store.Invariant.{IsConsistent, BelowNext, has_id, Referenced}

BelowNext-mono : (n : ℕ) (cs : List Connection) → BelowNext n cs → BelowNext (suc n) cs
BelowNext-mono n [] b = tt
BelowNext-mono n (c ∷ cs) b = (omega arith, BelowNext-mono n cs b.1)

snoc-BelowNext :
    (n : ℕ) (cs : List Connection) (c : Connection)
    → BelowNext n cs
    → c.id < n
    → BelowNext n (cs ++ c ∷ [])
snoc-BelowNext n [] c b h = (h, tt)
snoc-BelowNext n (d ∷ cs) c b h = (b.0, snoc-BelowNext n cs c b.1 h)

snoc-Unused :
    (id : ℕ) (cs : List Connection) (c : Connection)
    → Unused id cs
    → c.id ≢ id
    → Unused id (cs ++ c ∷ [])
snoc-Unused id [] c u h = (h, tt)
snoc-Unused id (d ∷ cs) c u h = (u.0, snoc-Unused id cs c u.1 h)

snoc-UniqueIds :
    (n : ℕ) (cs : List Connection) (c : Connection)
    → UniqueIds cs
    → BelowNext n cs
    → c.id ≡ n
    → UniqueIds (cs ++ c ∷ [])
snoc-UniqueIds n [] c u b e = (tt, tt)
snoc-UniqueIds n (d ∷ cs) c u b e =
    (snoc-Unused d.id cs c u.0 (omega arith), snoc-UniqueIds n cs c u.1 b.1 e)

-- The foreign key goes over to a table that has the ids.
pub Referenced-mono :
    (cs ds : List Connection) (gs : List Grant)
    → ((id : ℕ) → has_id id cs ≡ true → has_id id ds ≡ true)
    → Referenced cs gs
    → Referenced ds gs
Referenced-mono cs ds [] keep r = tt
Referenced-mono cs ds (g ∷ gs) keep r = (keep g.conn_id r.0, Referenced-mono cs ds gs keep r.1)

snoc-has_id :
    (id : ℕ) (cs : List Connection) (c : Connection)
    → has_id id cs ≡ true
    → has_id id (cs ++ c ∷ []) ≡ true
snoc-has_id id cs c h = ground (arith, some_of-append (λ (c : Connection). c.id == id) cs (c ∷ []))

pub create-IsConsistent :
    (s : Store) (c : Connection) (now : ℕ)
    → IsConsistent s
    → IsConsistent (create_connection s c now).0
unfolding create_connection
create-IsConsistent s c now v = record {
  unique = snoc-UniqueIds s.next_conn s.connections _ v.unique v.below refl;
  below =
      snoc-BelowNext (suc s.next_conn) s.connections _
        (BelowNext-mono s.next_conn s.connections v.below) (omega arith);
  pairs = v.pairs;
  refs = Referenced-mono s.connections _ s.grants (λ id h. snoc-has_id id s.connections _ h) v.refs;
}

-- An edit that leaves the id alone.
module _ (id : ℕ) (set : Connection → Connection)
    (same : (c : Connection) → (set c).id ≡ c.id) where
  update-Unused : (k : ℕ) (cs : List Connection) → Unused k cs → Unused k (update_rows id set cs)
  unfolding update_rows
  update-Unused k [] u = tt
  update-Unused k (c ∷ cs) u = ground (arith, same c, update-Unused k cs u.1)

  update-UniqueIds : (cs : List Connection) → UniqueIds cs → UniqueIds (update_rows id set cs)
  unfolding update_rows
  update-UniqueIds [] u = tt
  update-UniqueIds (c ∷ cs) u =
      ground (arith, same c, update-Unused c.id cs u.0, update-UniqueIds cs u.1)

  update-BelowNext :
      (n : ℕ) (cs : List Connection) → BelowNext n cs → BelowNext n (update_rows id set cs)
  unfolding update_rows
  update-BelowNext n [] b = tt
  update-BelowNext n (c ∷ cs) b = ground (arith, same c, update-BelowNext n cs b.1)

  update-has_id : (k : ℕ) (cs : List Connection) → has_id k (update_rows id set cs) ≡ has_id k cs
  unfolding update_rows some_of
  update-has_id k [] = refl
  update-has_id k (c ∷ cs) = ground (arith, same c, update-has_id k cs)

  pub update-IsConsistent :
      (s : Store)
      → IsConsistent s
      → IsConsistent (record s { connections = update_rows id set s.connections })
  update-IsConsistent s v = record {
    unique = update-UniqueIds s.connections v.unique;
    below = update-BelowNext s.next_conn s.connections v.below;
    pairs = v.pairs;
    refs =
        Referenced-mono s.connections _ s.grants (λ k h. update-has_id k s.connections ∙ h) v.refs;
  }

pub update_connection-IsConsistent :
    (s : Store) (c : Connection) (pw : Bool)
    → IsConsistent s
    → IsConsistent (update_connection s c pw)
unfolding update_connection edited edited_with_password
update_connection-IsConsistent s c true v =
    update-IsConsistent c.id (edited_with_password c) (λ _. refl) s v
update_connection-IsConsistent s c false v = update-IsConsistent c.id (edited c) (λ _. refl) s v

pub update_password_enc-IsConsistent :
    (s : Store) (id : ℕ) (enc : Bytes)
    → IsConsistent s
    → IsConsistent (update_password_enc s id enc)
unfolding update_password_enc with_password
update_password_enc-IsConsistent s id enc v =
    update-IsConsistent id (with_password enc) (λ _. refl) s v
