-- ===== src/Registry/Races.antt =====
-- Openings that run at the same time, with each other, with the janitor and with deletions.
pub mod Opening
pub mod Closing
pub mod Always
use verix_dbm.Base.{
  ℕ, zero, suc, ◌+◌, ◌-◌, ◌*◌, ◌≤◌, ◌<◌, String, ◌≡◌, refl, sym, ap, ◌∙◌, subst, ◌≢◌, ◌↔◌, ◌⊎◌, inl,
  inr, Bool, true, false, not, ◌&&◌, ◌||◌, Option, none, some, List, [], ◌∷◌, ◌++◌, map, append-nil,
  append_assoc, arith, ltb, leb, ◌==◌, if◌then◌else◌, ==_iff, Bool-cases, Option-cases, Bool-ext,
  length, length-append, All, OneOf, keep_if, keep_if-nil, keep_if-cons, length-keep_if-le, take,
  some_of, some_of-take, some_of-append, some_of-keep_if, some_of_elim, some_of_intro,
  keep_if-OneOf, OneOf-keep_if, keep_if_laws, Bytes, codes, str_eq, str_eq_iff, str_eq_refl,
  contains, contains_iff, contains-cons, contains-append, ◌>>=◌, Result-cases, guard-ok, Result, ok,
  err, max_int, ℤ, pos, negsuc,
}
use verix_dbm.GoMap.{nat_key, lookup, insert, delete, sweep, Distinct}
use verix_dbm.GoMap.Laws.{
  lookup-insert, lookup-delete, lookup-sweep, unless, insert-Distinct, delete-Distinct,
  sweep-Distinct,
}
use verix_dbm.Crypto.{Library, Box}
use verix_dbm.Store.{Connection}
use verix_dbm.Store.Paths.{Files}
use verix_dbm.Registry.{
  Family, Handle, Entry, Registry, Pools, pg, mysql, sqlite, redis, mongo, same, with_pools,
  is_idle, touched, find, janitor, forget, enter, Drivers, Dialled, dialled, failed, OpenError,
  open_with, secret, dial, picked, handles, of_all, new_registry,
}
use verix_dbm.Registry.Reuse.{
  dial-dialled, pool_of, handle_of, handle_of-if, IsRegistry, find-none, find-some,
}

-- The registry, the pools that have been opened and not yet entered, and the next number of a pool.
pub record World : Type 0 where
  pub registry : Registry
  pub flights : List Handle
  pub next : ℕ

-- No handle of the list is this one.
abbrev pub Lacks : List Handle → Handle → Type 0
Lacks hs h = (g : Handle) → OneOf g hs → g ≢ h

-- The flights that go on when one has arrived.
unfoldable pub others_of : Handle → List Handle → List Handle
others_of h hs = keep_if (λ (g : Handle). not (g.serial == h.serial)) hs

module _ (lib : Library) (files : Files) (drivers : Drivers) (box : Box) (dir : Bytes) where
  -- What can happen next.
  pub data Step (w : World) : World → Type 0 where
    finds :
        (f : Family) (id now : ℕ) → Step w (record w { registry = (find w.registry f id now).0 })
    opens :
        (f : Family) (c : Connection) (h : Handle)
        → dial lib files drivers box dir w.registry f c w.next ≡ dialled h
        → Step w (record w { flights = h ∷ w.flights; next = suc w.next })
    fails :
        (f : Family) (c : Connection) (r : Registry) (e : OpenError)
        → dial lib files drivers box dir w.registry f c w.next ≡ failed r e
        → Step w (record w { registry = r; next = suc w.next })
    enters :
        (h : Handle) (now : ℕ)
        → OneOf h w.flights
        → Step w (record w { registry = enter w.registry h now; flights = others_of h w.flights })
    tidies : (now : ℕ) → Step w (record w { registry = janitor w.registry now })
    forgets : (id : ℕ) → Step w (record w { registry = forget w.registry id })

pub record IsSafe (w : World) : Type 0 where
  pub maps : IsRegistry w.registry
  pub owned :
      (f : Family) (id : ℕ) (h : Handle)
      → pool_of w.registry f id ≡ some h
      → (h.family ≡ f) × (h.conn_id ≡ id) × (h.serial < w.next)
  pub usable :
      (f : Family) (id : ℕ) (h : Handle)
      → pool_of w.registry f id ≡ some h
      → Lacks w.registry.closed h × Lacks w.flights h
  pub flying : (h : Handle) → OneOf h w.flights → (h.serial < w.next) × Lacks w.registry.closed h
  pub old : (h : Handle) → OneOf h w.registry.closed → h.serial < w.next
