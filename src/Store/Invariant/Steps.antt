-- ===== src/Store/Invariant/Steps.antt =====
-- The operations of the store as one step relation, and the invariant along its steps.
use verix_dbm.Base.{ℕ}
use verix_dbm.Store.{Store, add_audit, purge_audit_older_than}
use verix_dbm.Store.Invariant.{
  IsConsistent, Op, creates, updates, rewrites_password, deletes, audits, purges, grants, revokes,
  step,
}
use verix_dbm.Store.Invariant.Connections.{
  create-IsConsistent, update_connection-IsConsistent, update_password_enc-IsConsistent,
}
use verix_dbm.Store.Invariant.Grants.{
  set_grant-IsConsistent, delete_grant-IsConsistent, delete_connection-IsConsistent,
}

-- Ids stay unique and below the next one, no (connection, subject) pair gets a second grant, and no
-- grant outlives its connection, whichever operation is made.
pub step-IsConsistent :
    (s : Store) (now : ℕ) (op : Op) → IsConsistent s → IsConsistent (step s now op)
unfolding step add_audit purge_audit_older_than
step-IsConsistent s now (creates c) v = create-IsConsistent s c now v
step-IsConsistent s now (updates c pw) v = update_connection-IsConsistent s c pw v
step-IsConsistent s now (rewrites_password id enc) v = update_password_enc-IsConsistent s id enc v
step-IsConsistent s now (deletes id) v = delete_connection-IsConsistent id s v
step-IsConsistent s now (audits a) v = record {
  unique = v.unique;
  below = v.below;
  pairs = v.pairs;
  refs = v.refs;
}
step-IsConsistent s now (purges cutoff) v = record {
  unique = v.unique;
  below = v.below;
  pairs = v.pairs;
  refs = v.refs;
}
step-IsConsistent s now (grants g) v = set_grant-IsConsistent s g now v
step-IsConsistent s now (revokes conn_id id) v = delete_grant-IsConsistent s conn_id id v
