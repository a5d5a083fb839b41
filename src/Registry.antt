-- ===== src/Registry.antt =====
-- internal/conn/registry.go: the pools that are open to targets. The five maps of `Registry` are one
-- map per family, each a map from connection ids. A mutex is held within a step and not from one to
-- the next, so opening a pool is two steps, with the dialling between them.
pub mod Reuse
pub mod Races
use verix_dbm.Base.{
  ℕ, zero, suc, ◌+◌, ◌-◌, ◌*◌, ◌≤◌, ◌<◌, String, ◌≡◌, refl, sym, ap, ◌∙◌, subst, ◌≢◌, ◌↔◌, ◌⊎◌, inl,
  inr, Bool, true, false, not, ◌&&◌, ◌||◌, Option, none, some, List, [], ◌∷◌, ◌++◌, map, append-nil,
  append_assoc, arith, ltb, leb, ◌==◌, if◌then◌else◌, ==_iff, Bool-cases, Option-cases, Bool-ext,
  length, length-append, All, OneOf, keep_if, keep_if-nil, keep_if-cons, length-keep_if-le, take,
  some_of, some_of-take, some_of-append, some_of-keep_if, some_of_elim, some_of_intro,
  keep_if-OneOf, OneOf-keep_if, keep_if_laws, Bytes, codes, str_eq, str_eq_iff, str_eq_refl,
  contains, contains_iff, contains-cons, contains-append, format_int, ◌>>=◌, Result-cases, guard-ok,
  Result, ok, err, max_int, wrapped, ℤ, pos, negsuc,
}
use verix_dbm.GoMap.{nat_key, lookup, insert, delete, sweep}
use verix_dbm.Crypto.{Library, Box, CryptoError, decrypt}
use verix_dbm.Store.{Connection}
use verix_dbm.Store.Paths.{Files, PathError, resolve_sqlite_path}

-- The maps: `pg`, `mysql`, `sqlite`, `redis` and `mongo`.
pub data Family : Type 0 where
  pg : Family
  mysql : Family
  sqlite : Family
  redis : Family
  mongo : Family

-- A pool or client: what it was opened for, and a number of its own.
pub record Handle : Type 0 where
  pub family : Family
  pub conn_id : ℕ
  pub serial : ℕ

pub record Entry : Type 0 where
  pub handle : Handle
  pub last_used : ℕ

abbrev pub Pools : Type 0
Pools = List (ℕ × Entry)

-- `closed` holds the handles that have been closed.
pub record Registry : Type 0 where
  pub pools : Family → Pools
  pub closed : List Handle

unfoldable pub new_registry : Registry
new_registry = record { pools = λ f. []; closed = [] }

unfoldable pub same : Family → Family → Bool
same pg pg = true
same mysql mysql = true
same sqlite sqlite = true
same redis redis = true
same mongo mongo = true
same _ _ = false

-- One of the five maps is another.
unfoldable pub with_pools : Registry → Family → Pools → Registry
unfolding same
with_pools r f m = record r { pools = λ g. if same f g then m else r.pools g }

-- 5 minutes.
abbrev pub idle_ttl : ℕ
idle_ttl = 300000000000

-- `now.Sub(e.lastUsed) > idleTTL`
unfoldable pub is_idle : ℕ → Entry → Bool
is_idle now e = ltb idle_ttl (now - e.last_used)

unfoldable pub touched : Entry → ℕ → Entry
touched e now = record e { last_used = now }

-- The first part of `PG`, `MySQL`, `SQLite`, `Redis` and `Mongo`: a pool that is there is used again.
unfoldable pub find : Registry → Family → ℕ → ℕ → Registry × Option Handle
unfolding with_pools touched
find r f id now = elim (lookup id (r.pools f)) [
  | none ↦ (r, none)
  | some e ↦ (with_pools r f (insert id (touched e now) (r.pools f)), some e.handle)
]

-- Their last part: the pool that has been opened is entered.
unfoldable pub enter : Registry → Handle → ℕ → Registry
unfolding with_pools
enter r h now =
    with_pools r h.family
      (insert h.conn_id (record { handle = h; last_used = now }) (r.pools h.family))

-- The handles of the entries that a test picks.
unfoldable pub picked : (Entry → Bool) → Pools → List Handle
picked p [] = []
picked p ((id, e) ∷ m) = let rest = picked p m in if p e then e.handle ∷ rest else rest

abbrev pub of_all : (Family → List Handle) → List Handle
of_all g = g pg ++ (g mysql ++ (g sqlite ++ (g redis ++ g mongo)))

-- One round of `janitor`.
unfoldable pub janitor : Registry → ℕ → Registry
unfolding is_idle picked
janitor r now = record {
  pools = λ f. sweep (is_idle now) (r.pools f);
  closed = of_all (λ f. picked (is_idle now) (r.pools f)) ++ r.closed;
}

unfoldable pub handles : Option Entry → List Handle
handles none = []
handles (some e) = e.handle ∷ []

unfoldable pub forget : Registry → ℕ → Registry
unfolding handles
forget r id = record {
  pools = λ f. delete id (r.pools f);
  closed = of_all (λ f. handles (lookup id (r.pools f))) ++ r.closed;
}

pub data OpenError : Type 0 where
  bad_password : CryptoError → OpenError
  bad_file : PathError → OpenError
  cannot_open : OpenError
  no_ping : OpenError

-- The drivers: whether a pool opens for a connection and its password (or the path of its file), and
-- whether it answers.
pub record Drivers : Type 0 where
  pub open_pool : Family → Connection → Bytes → Bool
  pub ping : Family → Connection → Bool

-- The end of an opening: what has been opened, or the registry with what has been closed again.
pub data Dialled : Type 0 where
  dialled : Handle → Dialled
  failed : Registry → OpenError → Dialled

module _ (lib : Library) (files : Files) (drivers : Drivers) (box : Box) (sqlite_dir : Bytes) where
  -- The password, and whether the callback for a use of a credential is called.
  unfoldable pub password : Connection → Result CryptoError Bytes × Bool
  password c =
      if str_eq c.password_enc []
      then (ok [], false)
      else elim (decrypt lib box c.password_enc) [ err e ↦ (err e, false) | ok pw ↦ (ok pw, true) ]

  -- Is that callback called where a pool is asked for? A pool that is there is used again, and SQLite
  -- has no password.
  unfoldable pub uses_credential : Registry → Family → Connection → Bool
  unfolding password same
  uses_credential r f c = elim (lookup c.id (r.pools f)) [
    | some e ↦ false
    | none ↦ not (same f sqlite) && (password c).1
  ]

  as_file : Result PathError Bytes → Result OpenError Bytes
  as_file (ok path) = ok path
  as_file (err e) = err (bad_file e)

  as_password : Result CryptoError Bytes → Result OpenError Bytes
  as_password (ok pw) = ok pw
  as_password (err e) = err (bad_password e)

  -- What a pool is opened with: a SQLite pool a checked path, the others the password.
  unfoldable pub secret : Family → Connection → Result OpenError Bytes
  unfolding password as_file as_password
  secret sqlite c = as_file (resolve_sqlite_path files sqlite_dir c.db_name)
  secret _ c = as_password (password c).0

  unfoldable pub open_with : Registry → Family → Connection → ℕ → Result OpenError Bytes → Dialled
  open_with r f c serial (err e) = failed r e
  open_with r f c serial (ok s) =
      let h : Handle = record { family = f; conn_id = c.id; serial = serial } in
      if not (drivers.open_pool f c s)
      then failed r cannot_open
      else if drivers.ping f c
      then dialled h
      else failed (record r { closed = h ∷ r.closed }) no_ping

  -- The middle part of `PG`, `MySQL`, `SQLite`, `Redis` and `Mongo`. `serial` is the number of the
  -- pool that is opened.
  unfoldable pub dial : Registry → Family → Connection → ℕ → Dialled
  unfolding secret open_with
  dial r f c serial = open_with r f c serial (secret f c)

  unfoldable pub finish_opening : Dialled → Registry → ℕ → Registry × Result OpenError Handle
  unfolding enter
  finish_opening (failed r' e) r now = (r', err e)
  finish_opening (dialled h) r now = (enter r h now, ok h)

  unfoldable pub go_on :
      Family → Connection → ℕ → ℕ → Registry × Option Handle → Registry × Result OpenError Handle
  unfolding dial finish_opening
  go_on f c serial now (r, some h) = (r, ok h)
  go_on f c serial now (r, none) = finish_opening (dial r f c serial) r now

  -- `PG`, `MySQL`, `SQLite`, `Redis` and `Mongo`, when nothing else happens meanwhile.
  unfoldable pub connect :
      Registry → Family → Connection → ℕ → ℕ → Registry × Result OpenError Handle
  unfolding find go_on
  connect r f c serial now = go_on f c serial now (find r f c.id now)
