-- ===== src/Registry/Reuse.antt =====
-- Which pool is found after an opening, a round of the janitor and a deletion.
use verix_dbm.Base.{
  ℕ, ◌≡◌, refl, sym, ◌∙◌, subst, ◌⊎◌, inl, inr, Bool, true, false, Option, none, some, ◌∷◌, arith,
  ◌==◌, if◌then◌else◌, ==_iff, Bool-cases, Option-cases, Bytes, Result, ok, err,
}
use verix_dbm.GoMap.{nat_key, lookup, insert, Distinct}
use verix_dbm.GoMap.Laws.{lookup-insert, lookup-delete, lookup-sweep, unless}
use verix_dbm.Crypto.{Library, Box}
use verix_dbm.Store.{Connection}
use verix_dbm.Store.Paths.{Files}
use verix_dbm.Registry.{
  Family, Handle, Entry, Registry, pg, mysql, sqlite, redis, mongo, same, with_pools, is_idle,
  touched, find, janitor, forget, enter, Drivers, Dialled, dialled, failed, OpenError, open_with,
  secret, dial, finish_opening, go_on, connect,
}

same_refl : (f : Family) → same f f ≡ true
unfolding same
same_refl pg = refl
same_refl mysql = refl
same_refl sqlite = refl
same_refl redis = refl
same_refl mongo = refl

abbrev pub handle_of : Option Entry → Option Handle
handle_of none = none
handle_of (some e) = some e.handle

-- The pool that is there for a connection, if one is.
abbrev pub pool_of : Registry → Family → ℕ → Option Handle
pool_of r f id = handle_of (lookup id (r.pools f))

pub handle_of-if :
    (b : Bool) (o : Option Entry)
    → handle_of (if b then none else o) ≡ (if b then none else handle_of o)
handle_of-if true o = refl
handle_of-if false o = refl

==_refl : (n : ℕ) → n == n ≡ true
==_refl n = (==_iff n n).1 refl

pub find-pool_of : (r : Registry) (f : Family) (id now : ℕ) → (find r f id now).1 ≡ pool_of r f id
unfolding find
find-pool_of r f id now = elim (Option-cases (lookup id (r.pools f))) [
  | inl n ↦ rw (n, find) refl
  | inr (e, n) ↦ rw (n, find) refl
]

with_pools-pool_of :
    (r : Registry) (f : Family) (id : ℕ) (e : Entry)
    → pool_of (with_pools r f (insert id e (r.pools f))) f id ≡ some e.handle
unfolding with_pools
with_pools-pool_of r f id e = rw (same_refl f, lookup-insert id id e (r.pools f), ==_refl id) refl

pub find-none :
    (r : Registry) (f : Family) (id now : ℕ)
    → lookup id (r.pools f) ≡ none
    → find r f id now ≡ (r, none)
unfolding find
find-none r f id now n = rw (n, find) refl

pub find-some :
    (r : Registry) (f : Family) (id now : ℕ) (e : Entry)
    → lookup id (r.pools f) ≡ some e
    → find r f id now ≡ (with_pools r f (insert id (touched e now) (r.pools f)), some e.handle)
unfolding find
find-some r f id now e n = rw (n, find) refl

find-kept :
    (r : Registry) (f : Family) (id now : ℕ) → pool_of (find r f id now).0 f id ≡ pool_of r f id
unfolding touched
find-kept r f id now = elim (Option-cases (lookup id (r.pools f))) [
  | inl n ↦ rw (find-none r f id now n) refl
  | inr (e, n) ↦ rw (find-some r f id now e n, n) (with_pools-pool_of r f id (touched e now))
]

find-find :
    (r : Registry) (f : Family) (id now later : ℕ)
    → (find (find r f id now).0 f id later).1 ≡ (find r f id now).1
find-find r f id now later =
    find-pool_of (find r f id now).0 f id later
    ∙ find-kept r f id now
    ∙ sym (find-pool_of r f id now)

-- The keys of the five maps are distinct.
abbrev pub IsRegistry : Registry → Type 0
IsRegistry r = (f : Family) → Distinct (r.pools f)

-- Where no key stands twice in a map: after a connection is deleted, no pool of any family is
-- found for it, and the pools of the other connections are found as before.
pub forget-find :
    (r : Registry) (id : ℕ) (f : Family) (j now : ℕ)
    → IsRegistry r
    → (find (forget r id) f j now).1 ≡ (if id == j then none else (find r f j now).1)
unfolding forget
forget-find r id f j now d =
    rw (find-pool_of, find-pool_of, lookup-delete id j (r.pools f) (d f)) (handle_of-if (id == j) _)

-- Where no key stands twice in a map: after a round of the janitor, exactly the pools are found
-- that were used within the time to live.
pub janitor-find :
    (r : Registry) (now : ℕ) (f : Family) (id later : ℕ)
    → IsRegistry r
    → (find (janitor r now) f id later).1 ≡ handle_of (unless (is_idle now) (lookup id (r.pools f)))
unfolding janitor
janitor-find r now f id later d =
    rw (find-pool_of, lookup-sweep (is_idle now) id (r.pools f) (d f)) refl

module _ (lib : Library) (files : Files) (drivers : Drivers) (box : Box) (dir : Bytes) where
  open_with-dialled :
      (r : Registry) (f : Family) (c : Connection) (serial : ℕ) (s : Result OpenError Bytes)
      (h : Handle)
      → open_with lib files drivers box dir r f c serial s ≡ dialled h
      → (h.family ≡ f) × (h.conn_id ≡ c.id) × (h.serial ≡ serial)
  unfolding open_with
  open_with-dialled r f c serial (err e) h k = ground arith
  open_with-dialled r f c serial (ok s) h k = ground arith

  -- A handle that is dialled is for the family and the connection that were asked for, and new.
  pub dial-dialled :
      (r : Registry) (f : Family) (c : Connection) (serial : ℕ) (h : Handle)
      → dial lib files drivers box dir r f c serial ≡ dialled h
      → (h.family ≡ f) × (h.conn_id ≡ c.id) × (h.serial ≡ serial)
  unfolding dial
  dial-dialled r f c serial h k =
      open_with-dialled r f c serial (secret lib files drivers box dir f c) h k

  open_with-failed :
      (r r' : Registry) (f : Family) (c : Connection) (serial : ℕ) (s : Result OpenError Bytes)
      (e : OpenError)
      → open_with lib files drivers box dir r f c serial s ≡ failed r' e
      → (r ≡ r')
        ⊎ (record r { closed = record { family = f; conn_id = c.id; serial = serial } ∷ r.closed }
            ≡ r')
  unfolding open_with
  open_with-failed r r' f c serial (err e') e k = inl (ground arith)
  open_with-failed r r' f c serial (ok s) e k = elim (Bool-cases (drivers.open_pool f c s)) [
    | inr n ↦ inl (ground arith)
    | inl y ↦ elim (Bool-cases (drivers.ping f c)) [
      | inl p ↦ inl (absurd (ground arith))
      | inr p ↦ inr (ground arith)
    ]
  ]

  -- A handle whose opening fails is closed again, if there was one.
  pub dial-failed :
      (r r' : Registry) (f : Family) (c : Connection) (serial : ℕ) (e : OpenError)
      → dial lib files drivers box dir r f c serial ≡ failed r' e
      → (r ≡ r')
        ⊎ (record r { closed = record { family = f; conn_id = c.id; serial = serial } ∷ r.closed }
            ≡ r')
  unfolding dial
  dial-failed r r' f c serial e k =
      open_with-failed r r' f c serial (secret lib files drivers box dir f c) e k

  finish_opening-find :
      (d : Dialled) (r : Registry) (f : Family) (id now later : ℕ) (h : Handle)
      → ((g : Handle) → d ≡ dialled g → (g.family ≡ f) × (g.conn_id ≡ id))
      → (finish_opening lib files drivers box dir d r now).1 ≡ ok h
      → (find (finish_opening lib files drivers box dir d r now).0 f id later).1 ≡ some h
  unfolding finish_opening
  finish_opening-find (failed r' e) r f id now later h o k = cc
  finish_opening-find (dialled g) r f id now later h o k =
      let (ff, ii) = o g refl in
      rw (find-pool_of (enter r g now) f id later) (
        subst (λ x. pool_of (enter r g now) x id ≡ some h) ff
          (subst (λ x. pool_of (enter r g now) g.family x ≡ some h) ii
            (with_pools-pool_of r g.family g.conn_id (record { handle = g; last_used = now })
              ∙ ground arith)))

  go_on-find :
      (f : Family) (c : Connection) (serial now later : ℕ) (found : Registry × Option Handle)
      (h : Handle)
      → ((g : Handle) → found.1 ≡ some g → (find found.0 f c.id later).1 ≡ some g)
      → (go_on lib files drivers box dir f c serial now found).1 ≡ ok h
      → (find (go_on lib files drivers box dir f c serial now found).0 f c.id later).1 ≡ some h
  unfolding go_on
  go_on-find f c serial now later (r, some g) h o k = o g refl ∙ ground arith
  go_on-find f c serial now later (r, none) h o k =
      finish_opening-find (dial lib files drivers box dir r f c serial) r f c.id now later h
        (λ g e. let t = dial-dialled r f c serial g e in (t.0, t.1)) k

  -- A pool that has been opened, or was there, is found at once for the next request.
  pub connect-find :
      (r : Registry) (f : Family) (c : Connection) (serial now later : ℕ) (h : Handle)
      → (connect lib files drivers box dir r f c serial now).1 ≡ ok h
      → (find (connect lib files drivers box dir r f c serial now).0 f c.id later).1 ≡ some h
  unfolding connect
  connect-find r f c serial now later h k =
      go_on-find f c serial now later (find r f c.id now) h
        (λ g e. find-find r f c.id now later ∙ e) k
