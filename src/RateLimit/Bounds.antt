-- ===== src/RateLimit/Bounds.antt =====
-- The size of the table.
use verix_dbm.Base.{
  ℕ, ◌+◌, ◌≤◌, ◌<◌, ◌≡◌, inl, inr, none, some, arith, leb, Bool-cases, Option-cases, length, Bytes,
}
use verix_dbm.GoMap.{bytes_key, lookup, insert, Distinct}
use verix_dbm.GoMap.Laws.{
  insert-Distinct, sweep-Distinct, lookup-sweep, length-insert_new, length-insert_old,
  length-sweep-le,
}
use verix_dbm.RateLimit.{
  Window, RateLimiter, max_rate_keys, expired, prune, open_window, admit_new, admit_known, allow,
}

-- Keys stand once, and there are at most `maxRateKeys` of them.
pub record IsBounded (rl : RateLimiter) : Type 0 where
  pub distinct : Distinct rl.hits
  pub fits : length rl.hits ≤ max_rate_keys

pub prune-IsBounded : (rl : RateLimiter) (now : ℕ) → IsBounded rl → IsBounded (prune rl now)
unfolding prune
prune-IsBounded rl now v = record {
  distinct = sweep-Distinct (expired now) rl.hits v.distinct;
  fits = omega (arith, length-sweep-le (expired now) rl.hits, v.fits);
}

open_window_new-IsBounded :
    (rl : RateLimiter) (key : Bytes) (now : ℕ)
    → IsBounded rl
    → lookup key rl.hits ≡ none
    → length rl.hits < max_rate_keys
    → IsBounded (open_window rl key now)
unfolding open_window
open_window_new-IsBounded rl key now v h room = record {
  distinct = insert-Distinct key _ rl.hits v.distinct;
  fits = omega (
    arith,
    length-insert_new key (record { count = 1; reset = now + rl.period }) rl.hits h,
    room,
  );
}

-- A write at a key that is there leaves the size as it is.
rewrite-IsBounded :
    (rl : RateLimiter) (key : Bytes) (w x : Window)
    → IsBounded rl
    → lookup key rl.hits ≡ some x
    → IsBounded (record rl { hits = insert key w rl.hits })
rewrite-IsBounded rl key w x v h = record {
  distinct = insert-Distinct key w rl.hits v.distinct;
  fits = omega (arith, length-insert_old key w x rl.hits h, v.fits);
}

admit_new-IsBounded :
    (rl : RateLimiter) (key : Bytes) (now : ℕ)
    → IsBounded rl
    → lookup key rl.hits ≡ none
    → IsBounded (admit_new rl key now).0
unfolding admit_new
admit_new-IsBounded rl key now v h = elim (Bool-cases (leb max_rate_keys (length rl.hits))) [
  | inl full ↦ elim (Bool-cases (leb max_rate_keys (length (prune rl now).hits))) [
    | inl still ↦ rw (full, still, admit_new) (prune-IsBounded rl now v)
    | inr room ↦
        rw (full, room, admit_new)
          (open_window_new-IsBounded (prune rl now) key now (prune-IsBounded rl now v)
            (unfold prune in rw (lookup-sweep (expired now) key rl.hits v.distinct, h))
            (ground arith))
  ]
  | inr room ↦ rw (room, admit_new) (open_window_new-IsBounded rl key now v h (ground arith))
]

admit_known-IsBounded :
    (rl : RateLimiter) (key : Bytes) (now : ℕ) (w : Window)
    → IsBounded rl
    → lookup key rl.hits ≡ some w
    → IsBounded (admit_known rl key now w).0
unfolding admit_known
admit_known-IsBounded rl key now w v h = ground (
  arith,
  rewrite-IsBounded rl key (record { count = 1; reset = now + rl.period }) w v h,
  rewrite-IsBounded rl key (record w { count = w.count + 1 }) w v h,
)

-- Whatever key comes in, and whether the call is let through or not, the table keeps within
-- `maxRateKeys` entries.
pub allow-IsBounded :
    (rl : RateLimiter) (key : Bytes) (now : ℕ) → IsBounded rl → IsBounded (allow rl key now).0
unfolding allow
allow-IsBounded rl key now v = elim (Option-cases (lookup key rl.hits)) [
  | inl e ↦ rw (e, allow) (admit_new-IsBounded rl key now v e)
  | inr (w, e) ↦ rw (e, allow) (admit_known-IsBounded rl key now w v e)
]
