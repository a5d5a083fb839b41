-- ===== src/Examples/Store.antt =====
-- Operations on a small store.
use verix_dbm.Base.{refl, arith, some_of, str_eq}
use verix_dbm.Store.{same_pair}
use verix_dbm.Store.Invariant.{IsConsistent, deletes, step}
use verix_dbm.Store.Invariant.Steps.{step-IsConsistent}
use verix_dbm.Examples.Access.{two_grants}

pub two_grants-IsConsistent : IsConsistent two_grants
unfolding some_of same_pair str_eq
two_grants-IsConsistent = record {
  unique = (tt, tt);
  below = (omega arith, tt);
  pairs = (refl, (refl, tt));
  refs = (refl, (refl, tt));
}

step-IsConsistent_example : IsConsistent (step two_grants 9 (deletes 1))
step-IsConsistent_example = step-IsConsistent two_grants 9 (deletes 1) two_grants-IsConsistent
