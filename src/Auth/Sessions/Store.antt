-- ===== src/Auth/Sessions/Store.antt =====
-- The session store: what `Get` returns after each operation.
use verix_dbm.Base.{ℕ, ◌≤◌, ◌≡◌, none, some, arith, if◌then◌else◌, Bytes, str_eq}
use verix_dbm.GoMap.{bytes_key, Distinct}
use verix_dbm.GoMap.Laws.{lookup-insert, lookup-delete, lookup-sweep}
use verix_dbm.Auth.Sessions.{Session, Sessions, is_expired, if_live, get, put, remove, reap}

pub get-put :
    (ss : Sessions) (k j : Bytes) (s : Session) (now : ℕ)
    → get (put ss k s) j now ≡ (if str_eq k j then if_live now (some s) else get ss j now)
unfolding get put
get-put ss k j s now = rw lookup-insert (ground arith)

pub get-remove :
    (ss : Sessions) (k j : Bytes) (now : ℕ)
    → Distinct ss
    → get (remove ss k) j now ≡ (if str_eq k j then none else get ss j now)
unfolding get remove
get-remove ss k j now d = rw (lookup-delete k j ss d) (ground arith)

-- The hourly reaping is not seen: at any later time each look-up has the result that it would have
-- had without it.
pub get-reap :
    (ss : Sessions) (j : Bytes) (earlier now : ℕ)
    → Distinct ss
    → earlier ≤ now
    → get (reap ss earlier) j now ≡ get ss j now
unfolding get reap is_expired
get-reap ss j earlier now d h = ground (arith, lookup-sweep (is_expired earlier) j ss d)
