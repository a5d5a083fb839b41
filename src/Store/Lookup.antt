-- ===== src/Store/Lookup.antt =====
-- The row that an id finds, after a row has been inserted or edited.
use verix_dbm.Base.{
  ℕ, ◌≡◌, Option, none, some, List, [], ◌∷◌, ◌++◌, arith, ◌==◌, if◌then◌else◌, ==_iff,
}
use verix_dbm.Store.{Connection, find_row, update_rows}
use verix_dbm.Store.Invariant.{BelowNext}

pub find_row-append :
    (n : ℕ) (cs : List Connection) (c : Connection)
    → BelowNext n cs
    → c.id ≡ n
    → find_row n (cs ++ c ∷ []) ≡ some c
unfolding find_row
find_row-append n [] c b k = ground (arith, ==_iff c.id n)
find_row-append n (d ∷ cs) c b k = ground (arith, b.0, find_row-append n cs c b.1 k)

abbrev pub on_row : (Connection → Connection) → Option Connection → Option Connection
on_row set none = none
on_row set (some c) = some (set c)

-- An edit that leaves the id alone is seen at its own id, and at no other.
pub find_row-update_rows :
    (id k : ℕ) (set : Connection → Connection)
    → ((c : Connection) → (set c).id ≡ c.id)
    → (cs : List Connection)
    → find_row id (update_rows k set cs)
      ≡ (if id == k then on_row set (find_row id cs) else find_row id cs)
unfolding find_row update_rows
find_row-update_rows id k set same [] = ground arith
find_row-update_rows id k set same (c ∷ cs) =
    ground (arith, same c, find_row-update_rows id k set same cs)
