-- ===== src/Store/Grants.antt =====
-- `GrantForSubjects`, `ListGrants` and the two lists of connections, with what becomes of a query
-- that fails on the way. The order of the rows is that of the table; `ORDER BY` is left out.
use verix_dbm.Base.{
  ℕ, Bool, true, false, not, ◌&&◌, Option, none, some, List, [], ◌∷◌, ◌==◌, if◌then◌else◌, keep_if,
  take, some_of, Bytes, str_eq, contains,
}
use verix_dbm.Store.{Connection, Grant, Store, grant_write}

-- What a query meets: it fails (or a row cannot be scanned), it breaks off after some rows, or all
-- rows are read.
pub data Fetch : Type 0 where
  fails : Fetch
  breaks_after : ℕ → Fetch
  completes : Fetch

-- WHERE conn_id=? AND subject IN (...)
unfoldable pub applies : ℕ → List Bytes → Grant → Bool
applies conn_id subjects g = (g.conn_id == conn_id) && contains subjects g.subject

unfoldable pub is_write : Grant → Bool
is_write g = str_eq g.level grant_write

-- One round of the loop over the rows.
unfoldable pub better : Option Grant → Grant → Option Grant
unfolding is_write
better none g = some g
better (some b) g = if is_write g && not (is_write b) then some g else some b

unfoldable pub best_grant : Option Grant → List Grant → Option Grant
best_grant best [] = best
best_grant best (g ∷ gs) = best_grant (better best g) gs

unfoldable pub fetch_best : Fetch → List Grant → Option Grant × Bool
unfolding best_grant
fetch_best fails rows = (none, false)
fetch_best (breaks_after n) rows = (best_grant none (take n rows), false)
fetch_best completes rows = (best_grant none rows, true)

-- The grant, and whether there was no error.
unfoldable pub grant_for_subjects : Store → Fetch → ℕ → List Bytes → Option Grant × Bool
unfolding fetch_best
grant_for_subjects s fetch conn_id [] = (none, true)
grant_for_subjects s fetch conn_id (subject ∷ subjects) =
    fetch_best fetch (keep_if (applies conn_id (subject ∷ subjects)) s.grants)

unfoldable pub list_grants : Store → ℕ → List Grant
list_grants s conn_id = keep_if (λ (g : Grant). g.conn_id == conn_id) s.grants

unfoldable pub list_connections : Store → List Connection
list_connections s = s.connections

-- SELECT DISTINCT ... FROM connections c JOIN connection_grants g ON g.conn_id=c.id
-- WHERE g.subject IN (...)
unfoldable pub list_connections_for_subjects : Store → List Bytes → List Connection
list_connections_for_subjects s [] = []
list_connections_for_subjects s (subject ∷ subjects) =
    keep_if (λ (c : Connection). some_of (applies c.id (subject ∷ subjects)) s.grants) s.connections
