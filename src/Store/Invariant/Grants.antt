-- ===== src/Store/Invariant/Grants.antt =====
-- Setting and deleting grants, and deleting a connection with its grants, keeps the store
-- consistent.
use verix_dbm.Base.{
  ℕ, ◌≡◌, refl, ◌≢◌, inl, inr, Bool, true, false, not, some, List, [], ◌∷◌, arith, ◌==◌, Bool-cases,
  Option-cases, keep_if, keep_if-nil, keep_if-cons, some_of, Bytes, str_eq_iff,
}
use verix_dbm.Store.{
  Connection, Grant, Store, find_row, same_pair, upsert, set_grant, delete_grant, delete_connection,
}
use verix_dbm.Store.Ids.{Unused, UniqueIds}
use verix_dbm.Store.Invariant.{IsConsistent, BelowNext, UniquePairs, has_id, Referenced, after}

keep_if-absent :
    (p q : Grant → Bool) (gs : List Grant) → some_of p gs ≡ false → some_of p (keep_if q gs) ≡ false
unfolding some_of
keep_if-absent p q [] h = rw keep_if-nil
keep_if-absent p q (g ∷ gs) h = ground (arith, keep_if-cons q g gs, keep_if-absent p q gs)

keep_if-UniquePairs :
    (q : Grant → Bool) (gs : List Grant) → UniquePairs gs → UniquePairs (keep_if q gs)
keep_if-UniquePairs q [] u = rw keep_if-nil tt
keep_if-UniquePairs q (g ∷ gs) u = elim (Bool-cases (q g)) [
  | inl e ↦ rw (keep_if-cons, e) (keep_if-absent _ q gs u.0, keep_if-UniquePairs q gs u.1)
  | inr e ↦ rw (keep_if-cons, e) (keep_if-UniquePairs q gs u.1)
]

keep_if-Referenced :
    (q : Grant → Bool) (cs : List Connection) (gs : List Grant)
    → Referenced cs gs
    → Referenced cs (keep_if q gs)
keep_if-Referenced q cs [] r = rw keep_if-nil tt
keep_if-Referenced q cs (g ∷ gs) r = elim (Bool-cases (q g)) [
  | inl e ↦ rw (keep_if-cons, e) (r.0, keep_if-Referenced q cs gs r.1)
  | inr e ↦ rw (keep_if-cons, e) (keep_if-Referenced q cs gs r.1)
]

pub delete_grant-IsConsistent :
    (s : Store) (conn_id id : ℕ) → IsConsistent s → IsConsistent (delete_grant s conn_id id)
unfolding delete_grant
delete_grant-IsConsistent s conn_id id v = record {
  unique = v.unique;
  below = v.below;
  pairs = keep_if-UniquePairs _ s.grants v.pairs;
  refs = keep_if-Referenced _ s.connections s.grants v.refs;
}

-- The upsert either rewrites the row of the pair or adds one at the end.
module _ (new : Grant) where
  upsert-absent :
      (conn_id : ℕ) (subject : Bytes) (gs : List Grant)
      → some_of (same_pair conn_id subject) gs ≡ false
      → same_pair conn_id subject new ≡ false
      → some_of (same_pair conn_id subject) (upsert new gs) ≡ false
  unfolding upsert some_of
  upsert-absent conn_id subject [] h k = ground arith
  upsert-absent conn_id subject (g ∷ gs) h k = ground (arith, upsert-absent conn_id subject gs)

  same_pair-sym :
      (g : Grant)
      → same_pair new.conn_id new.subject g ≡ false
      → same_pair g.conn_id g.subject new ≡ false
  unfolding same_pair
  same_pair-sym g h =
      ground (arith, str_eq_iff g.subject new.subject, str_eq_iff new.subject g.subject)

  upsert-UniquePairs : (gs : List Grant) → UniquePairs gs → UniquePairs (upsert new gs)
  unfolding upsert some_of
  upsert-UniquePairs [] u = (refl, tt)
  upsert-UniquePairs (g ∷ gs) u = elim (Bool-cases (same_pair new.conn_id new.subject g)) [
    | inl e ↦ rw (e, upsert) u
    | inr e ↦
        rw (e, upsert)
          (upsert-absent g.conn_id g.subject gs u.0 (same_pair-sym g e), upsert-UniquePairs gs u.1)
  ]

  upsert-Referenced :
      (cs : List Connection) (gs : List Grant)
      → has_id new.conn_id cs ≡ true
      → Referenced cs gs
      → Referenced cs (upsert new gs)
  unfolding upsert
  upsert-Referenced cs [] h r = (h, tt)
  upsert-Referenced cs (g ∷ gs) h r = elim (Bool-cases (same_pair new.conn_id new.subject g)) [
    | inl e ↦ rw (e, upsert) r
    | inr e ↦ rw (e, upsert) (r.0, upsert-Referenced cs gs h r.1)
  ]

find_row-has_id :
    (id : ℕ) (cs : List Connection) (c : Connection) → find_row id cs ≡ some c → has_id id cs ≡ true
unfolding find_row some_of
find_row-has_id id [] c h = cc
find_row-has_id id (d ∷ cs) c h = ground (arith, find_row-has_id id cs c)

pub set_grant-IsConsistent :
    (s : Store) (g : Grant) (now : ℕ) → IsConsistent s → IsConsistent (after s (set_grant s g now))
unfolding set_grant
set_grant-IsConsistent s g now v = elim (Option-cases (find_row g.conn_id s.connections)) [
  | inl e ↦ rw (e, set_grant) v
  | inr (c, e) ↦
      rw (e, set_grant)
        (record {
          unique = v.unique;
          below = v.below;
          pairs = upsert-UniquePairs _ s.grants v.pairs;
          refs =
              upsert-Referenced _ s.connections s.grants
                (find_row-has_id g.conn_id s.connections c e) v.refs;
        })
]

-- Deletion.
module _ (id : ℕ) where
  others : List Connection → List Connection
  others = keep_if (λ (c : Connection). not (c.id == id))

  others-Unused : (k : ℕ) (cs : List Connection) → Unused k cs → Unused k (others cs)
  unfolding others
  others-Unused k [] u = rw keep_if-nil tt
  others-Unused k (c ∷ cs) u = elim (Bool-cases (not (c.id == id))) [
    | inl e ↦ rw (keep_if-cons, e) (u.0, others-Unused k cs u.1)
    | inr e ↦ rw (keep_if-cons, e) (others-Unused k cs u.1)
  ]

  others-UniqueIds : (cs : List Connection) → UniqueIds cs → UniqueIds (others cs)
  unfolding others
  others-UniqueIds [] u = rw keep_if-nil tt
  others-UniqueIds (c ∷ cs) u = elim (Bool-cases (not (c.id == id))) [
    | inl e ↦ rw (keep_if-cons, e) (others-Unused c.id cs u.0, others-UniqueIds cs u.1)
    | inr e ↦ rw (keep_if-cons, e) (others-UniqueIds cs u.1)
  ]

  others-BelowNext : (n : ℕ) (cs : List Connection) → BelowNext n cs → BelowNext n (others cs)
  unfolding others
  others-BelowNext n [] b = rw keep_if-nil tt
  others-BelowNext n (c ∷ cs) b = elim (Bool-cases (not (c.id == id))) [
    | inl e ↦ rw (keep_if-cons, e) (b.0, others-BelowNext n cs b.1)
    | inr e ↦ rw (keep_if-cons, e) (others-BelowNext n cs b.1)
  ]

  others-has_id :
      (k : ℕ) (cs : List Connection) → k ≢ id → has_id k cs ≡ true → has_id k (others cs) ≡ true
  unfolding others some_of
  others-has_id k [] n h = cc
  others-has_id k (c ∷ cs) n h =
      ground (arith, keep_if-cons (λ (c : Connection). not (c.id == id)) c cs, others-has_id k cs n)

  cascade-Referenced :
      (cs : List Connection) (gs : List Grant)
      → Referenced cs gs
      → Referenced (others cs) (keep_if (λ (g : Grant). not (g.conn_id == id)) gs)
  cascade-Referenced cs [] r = rw keep_if-nil tt
  cascade-Referenced cs (g ∷ gs) r = elim (Bool-cases (not (g.conn_id == id))) [
    | inl e ↦
        rw (keep_if-cons, e)
          (others-has_id g.conn_id cs (ground arith) r.0, cascade-Referenced cs gs r.1)
    | inr e ↦ rw (keep_if-cons, e) (cascade-Referenced cs gs r.1)
  ]

  pub delete_connection-IsConsistent :
      (s : Store) → IsConsistent s → IsConsistent (delete_connection s id)
  unfolding delete_connection others
  delete_connection-IsConsistent s v = record {
    unique = others-UniqueIds s.connections v.unique;
    below = others-BelowNext s.next_conn s.connections v.below;
    pairs = keep_if-UniquePairs _ s.grants v.pairs;
    refs = cascade-Referenced s.connections s.grants v.refs;
  }
