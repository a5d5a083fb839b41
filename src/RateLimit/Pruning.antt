-- ===== src/RateLimit/Pruning.antt =====
-- Pruning of the table, as the callers see it.
use verix_dbm.Base.{ℕ, ◌≤◌, ◌<◌, ◌≡◌, arith, Option-cases, length, Bytes}
use verix_dbm.GoMap.{bytes_key, lookup, Distinct}
use verix_dbm.GoMap.Laws.{lookup-sweep, length-sweep-le}
use verix_dbm.RateLimit.{RateLimiter, max_rate_keys, expired, prune, admit_new, admit_known, allow}

-- A round of pruning before a call does not change whether the call is let through, while the table
-- has room for a key more.
pub allow-prune :
    (rl : RateLimiter) (key : Bytes) (earlier now : ℕ)
    → Distinct rl.hits
    → length rl.hits < max_rate_keys
    → earlier ≤ now
    → (allow (prune rl earlier) key now).1 ≡ (allow rl key now).1
unfolding allow admit_new admit_known prune expired
allow-prune rl key earlier now d room order = ground (
  arith,
  Option-cases (lookup key rl.hits),
  lookup-sweep (expired earlier) key rl.hits d,
  length-sweep-le (expired earlier) rl.hits,
)
