-- ===== src/RateLimit.antt =====
-- internal/web/ratelimit.go: the fixed-window limiter. A time is a number of nanoseconds, and is an
-- argument of each call; the lock makes each call one step.
pub mod Bounds
pub mod Windows
pub mod Pruning
use verix_dbm.Base.{
  ℕ, zero, suc, ◌+◌, ◌-◌, ◌*◌, ◌≤◌, ◌<◌, String, ◌≡◌, refl, sym, ap, ◌∙◌, subst, ◌≢◌, ◌↔◌, ◌⊎◌, inl,
  inr, Bool, true, false, not, ◌&&◌, ◌||◌, Option, none, some, List, [], ◌∷◌, ◌++◌, map, append-nil,
  append_assoc, arith, ltb, leb, ◌==◌, if◌then◌else◌, ==_iff, Bool-cases, Option-cases, Bool-ext,
  length, length-append, All, OneOf, keep_if, keep_if-nil, keep_if-cons, length-keep_if-le, take,
  some_of, some_of-take, some_of-append, some_of-keep_if, some_of_elim, some_of_intro,
  keep_if-OneOf, OneOf-keep_if, keep_if_laws, Bytes, codes, str_eq, str_eq_iff, str_eq_refl,
  contains, contains_iff, contains-cons, contains-append, ◌>>=◌, Result-cases, Result, ok, err,
  max_int, ℤ, pos, negsuc,
}
use verix_dbm.GoMap.{bytes_key, lookup, insert, sweep}

abbrev pub max_rate_keys : ℕ
max_rate_keys = 50000

pub record Window : Type 0 where
  pub count : ℕ
  pub reset : ℕ

pub record RateLimiter : Type 0 where
  pub hits : List (Bytes × Window)
  pub max : ℕ
  pub period : ℕ

unfoldable pub new_rate_limiter : ℕ → ℕ → RateLimiter
new_rate_limiter max period = record { hits = []; max = max; period = period }

-- `now.After(w.reset)`
unfoldable pub expired : ℕ → Window → Bool
expired now w = ltb w.reset now

-- One round of the pruning goroutine.
unfoldable pub prune : RateLimiter → ℕ → RateLimiter
prune rl now = record rl { hits = sweep (expired now) rl.hits }

-- The write at the end of `allow`.
unfoldable pub open_window : RateLimiter → Bytes → ℕ → RateLimiter
open_window rl key now = record rl {
  hits = insert key (record { count = 1; reset = now + rl.period }) rl.hits;
}

-- A key that is not in the table: the table is kept bounded.
unfoldable pub admit_new : RateLimiter → Bytes → ℕ → RateLimiter × Bool
unfolding open_window prune
admit_new rl key now =
    if leb max_rate_keys (length rl.hits)
    then (let swept = prune rl now in
        if leb max_rate_keys (length swept.hits)
        then (swept, false)
        else (open_window swept key now, true))
    else (open_window rl key now, true)

-- A key that is in the table, with its window.
unfoldable pub admit_known : RateLimiter → Bytes → ℕ → Window → RateLimiter × Bool
unfolding open_window
admit_known rl key now w =
    if expired now w
    then (open_window rl key now, true)
    else if leb rl.max w.count
    then (rl, false)
    else (record rl { hits = insert key (record w { count = w.count + 1 }) rl.hits }, true)

unfoldable pub allow : RateLimiter → Bytes → ℕ → RateLimiter × Bool
unfolding admit_new admit_known
allow rl key now = elim (lookup key rl.hits) [
  | none ↦ admit_new rl key now
  | some w ↦ admit_known rl key now w
]
