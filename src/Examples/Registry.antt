-- ===== src/Examples/Registry.antt =====
-- A registry over drivers that always answer, and a flat file system.
use verix_dbm.Base.{
  ℕ, suc, ◌<◌, ◌≡◌, refl, inl, inr, Bool, true, false, ◌&&◌, Option, none, some, [], ◌∷◌, ◌++◌,
  arith, ◌==◌, if◌then◌else◌, Option-cases, length, Bytes, codes, str_eq, ok,
}
use verix_dbm.GoMap.{nat_key, lookup, insert}
use verix_dbm.GoStrings.{has_prefix}
use verix_dbm.Store.Paths.{
  Files, is_abs, resolve_existing_prefix, ShortensPaths, resolve_existing_prefix_lem,
}
use verix_dbm.Store.Paths.Inside.{with_slash}
use verix_dbm.Registry.{
  Registry, Handle, Drivers, pg, find, connect, go_on, new_registry, with_pools, dial, secret,
  password, same, open_with,
}
use verix_dbm.Registry.Reuse.{IsRegistry}
use verix_dbm.Examples.Crypto.{plain, before}
use verix_dbm.Examples.Access.{database}
use verix_dbm.Registry.{dialled, enter}
use verix_dbm.Registry.Races.{World, opens, enters, Lacks, others_of}
use verix_dbm.Registry.Races.Always.{new_world, Reachable, start, then_step, find-open}

-- What comes before the last slash.
unfoldable pub before_slash : Bytes → Option Bytes
before_slash [] = none
before_slash (c ∷ s) = elim (before_slash s) [
  | some r ↦ some (c ∷ r)
  | none ↦ if c == b'/' then some [] else none
]

unfoldable pub dir_of : Option Bytes → Bytes
dir_of none = codes "."
dir_of (some []) = codes "/"
dir_of (some (c ∷ s)) = c ∷ s

-- What comes after a prefix, where it is not absolute.
unfoldable pub after : Bytes → Bytes → Option Bytes
after [] s = if is_abs s then none else some s
after (c ∷ a) [] = none
after (c ∷ a) (d ∷ s) = let rest = after a s in if c == d then rest else none

-- The file /d/new.db is missing; paths are taken to be clean, and there are no links.
abbrev pub flat : Files
flat = record {
  abs = λ p. if is_abs p then some p else some (codes "/" ++ p);
  eval_symlinks = λ p. if str_eq p (codes "/d/new.db") then none else some p;
  dir = λ p. dir_of (before_slash p);
  base = λ p. p;
  join = λ d p. with_slash d ++ p;
  clean = λ p. p;
  rel = λ root p. after (with_slash root) p;
}

before_slash-length : (s r : Bytes) → before_slash s ≡ some r → length {A = ℕ} r < length {A = ℕ} s
unfolding before_slash
before_slash-length [] r h = cc
before_slash-length (c ∷ s) r h = elim (Option-cases (before_slash s)) [
  | inl n ↦ (let k = rw (before_slash, n) at h in ground (arith, k))
  | inr (t, n) ↦
      (let k : some (c ∷ t) ≡ some r = rw (before_slash, n) at h in
        ground (arith, k, before_slash-length s t n))
]

and_true : (a b : Bool) → a && b ≡ true → (a ≡ true) × (b ≡ true)
and_true a b h = (ground (arith, h), ground (arith, h))

root-less :
    (c : ℕ) (s : Bytes)
    → c == b'/' ≡ true
    → str_eq (codes "/") (c ∷ s) ≡ false
    → 1 < length {A = ℕ} (c ∷ s)
unfolding str_eq
root-less c [] h k = ground (arith, h, k)
root-less c (d ∷ s) h k = omega arith

flat-ShortensPaths : ShortensPaths flat
unfolding has_prefix before_slash dir_of str_eq
flat-ShortensPaths [] a = cc
flat-ShortensPaths (c ∷ s) a = elim (Option-cases (before_slash s)) [
  | inr (t, n) ↦ rw (before_slash, n) (a, λ k. omega (arith, before_slash-length s t n))
  | inl n ↦
      (let (slash, t) = and_true (c == b'/') true a in
        rw (before_slash, n, slash) (refl, root-less c s slash))
]

is_abs-new_db : is_abs (codes "/d/new.db") ≡ true
unfolding has_prefix
is_abs-new_db = refl

resolve_existing_prefix_lem_example :
    (r : Bytes) × (resolve_existing_prefix flat (codes "/d/new.db") ≡ some r)
resolve_existing_prefix_lem_example =
    resolve_existing_prefix_lem flat (codes "/d/new.db") flat-ShortensPaths is_abs-new_db

abbrev pub answering : Drivers
answering = record { open_pool = λ f c s. true; ping = λ f c. true }

abbrev opened : Handle
opened = record { family = pg; conn_id = 1; serial = 7 }

connects : (connect plain flat answering before [] new_registry pg database 7 100).1 ≡ ok opened
unfolding connect find go_on lookup new_registry str_eq
connects = refl

abbrev two_pools : Registry
two_pools = record {
  pools = λ f.
      (1, (record { handle = record { family = f; conn_id = 1; serial = 7 }; last_used = 100 }))
      ∷ (
        2,
        (record {
          handle = record { family = f; conn_id = 2; serial = 8 };
          last_used = 400000000000;
        }),
      )
      ∷ [];
  closed = [];
}

two_pools-IsRegistry : IsRegistry two_pools
unfolding lookup
two_pools-IsRegistry f = (refl, (refl, tt))

-- One opening, from the look-up that finds nothing to the entry.
abbrev first : Handle
first = record { family = pg; conn_id = 1; serial = 0 }

dial-first : dial plain flat answering before [] new_world.registry pg database 0 ≡ dialled first
unfolding dial secret password open_with str_eq
dial-first = refl

abbrev on_the_way : World
on_the_way = record new_world { flights = first ∷ new_world.flights; next = suc new_world.next }

abbrev arrived : World
arrived = record on_the_way {
  registry = enter on_the_way.registry first 100;
  flights = others_of first on_the_way.flights;
}

arrived-Reachable : Reachable plain flat answering before [] arrived
arrived-Reachable =
    then_step on_the_way arrived
      (then_step new_world on_the_way start (opens pg database first dial-first))
      (enters first 100 (inl refl))

find-arrived : (find arrived.registry pg 1 200).1 ≡ some first
unfolding find enter with_pools lookup insert same new_registry
find-arrived = refl

find-open_example : (first.family ≡ pg) × (first.conn_id ≡ 1) × Lacks arrived.registry.closed first
find-open_example =
    find-open plain flat answering before [] arrived pg 1 200 first arrived-Reachable find-arrived

-- Two openings of one connection that were under way together: the pool that was entered first is
-- found no more, and has not been closed.
abbrev second : Handle
second = record { family = pg; conn_id = 1; serial = 1 }

abbrev entered_twice : Registry
entered_twice = enter (enter new_registry first 100) second 101

overwritten : ((find entered_twice pg 1 200).1 ≡ some second) × (entered_twice.closed ≡ [])
unfolding find enter with_pools lookup insert same new_registry
overwritten = (refl, refl)
