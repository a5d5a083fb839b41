-- ===== src/RateLimit/Windows.antt =====
-- What a key gets within its window, whatever the other keys and the pruning do meanwhile.
use verix_dbm.Base.{
  ℕ, ◌+◌, ◌-◌, ◌≤◌, ◌<◌, ◌≡◌, refl, ◌⊎◌, inl, inr, Bool, true, false, ◌&&◌, some, List, [], ◌∷◌,
  arith, if◌then◌else◌, Bool-cases, Option-cases, All, Bytes, str_eq, str_eq_iff, str_eq_refl,
}
use Prim.Native.Nat.{min}
use verix_dbm.GoMap.{bytes_key, lookup}
use verix_dbm.GoMap.Laws.{lookup-insert, lookup-sweep}
use verix_dbm.RateLimit.{Window, RateLimiter, expired, prune, admit_new, admit_known, allow}
use verix_dbm.RateLimit.Bounds.{IsBounded, allow-IsBounded, prune-IsBounded}

-- What the limiter sees: a call for a key, or a round of pruning, each at its time.
pub data Event : Type 0 where
  calls : Bytes → ℕ → Event
  prunes : ℕ → Event

abbrev pub time : Event → ℕ
time (calls key now) = now
time (prunes now) = now

pub after : RateLimiter → Event → RateLimiter
after rl (calls key now) = (allow rl key now).0
after rl (prunes now) = prune rl now

-- Is the event a call for the key, and is it one that is let through?
abbrev pub is_call : Bytes → Event → Bool
is_call k (calls key now) = str_eq key k
is_call k (prunes now) = false

pub is_admitted : RateLimiter → Bytes → Event → Bool
is_admitted rl k (calls key now) = str_eq key k && (allow rl key now).1
is_admitted rl k (prunes now) = false

abbrev pub one_if : Bool → ℕ
one_if b = if b then 1 else 0

pub call_count : Bytes → List Event → ℕ
call_count k [] = 0
call_count k (e ∷ es) = one_if (is_call k e) + call_count k es

pub admitted_count : RateLimiter → Bytes → List Event → ℕ
admitted_count rl k [] = 0
admitted_count rl k (e ∷ es) = one_if (is_admitted rl k e) + admitted_count (after rl e) k es

after-IsBounded : (rl : RateLimiter) (e : Event) → IsBounded rl → IsBounded (after rl e)
unfolding after
after-IsBounded rl (calls key now) v = allow-IsBounded rl key now v
after-IsBounded rl (prunes now) v = prune-IsBounded rl now v

module _ (rl : RateLimiter) (k : Bytes) (w : Window) (now : ℕ) (v : IsBounded rl)
    (here : lookup k rl.hits ≡ some w) (inside : now ≤ w.reset) where
  -- A call for another key, and pruning, leave the window alone.
  prune-window : lookup k (prune rl now).hits ≡ some w
  unfolding prune expired
  prune-window = rw (lookup-sweep (expired now) k rl.hits v.distinct, here) (ground arith)

  other-window : (j : Bytes) → str_eq j k ≡ false → lookup k (allow rl j now).0.hits ≡ some w
  unfolding allow admit_new admit_known
  other-window j ne = elim (Option-cases (lookup j rl.hits)) [
    | inl e ↦
        rw (e, allow)
          (ground (
            arith,
            prune-window,
            lookup-insert j k (record { count = 1; reset = now + rl.period }) rl.hits,
            lookup-insert j k (record { count = 1; reset = now + rl.period }) (prune rl now).hits,
          ))
    | inr (x, e) ↦
        rw (e, allow)
          (ground (
            arith,
            lookup-insert j k (record { count = 1; reset = now + rl.period }) rl.hits,
            lookup-insert j k (record x { count = x.count + 1 }) rl.hits,
          ))
  ]

  -- A call for the key itself is let through while the count is below the maximum, and is counted.
  self-window :
      let r = allow rl k now in
      ((w.count < rl.max)
        × (r.1 ≡ true)
        × (lookup k r.0.hits ≡ some (record w { count = w.count + 1 })))
      ⊎ ((rl.max ≤ w.count) × (r ≡ (rl, false)))
  unfolding allow admit_known expired
  self-window =
      rw (here, allow)
        (ground
          (arith, str_eq_refl k, lookup-insert k k (record w { count = w.count + 1 }) rl.hits))

max-after : (rl : RateLimiter) (e : Event) → (after rl e).max ≡ rl.max
unfolding after allow admit_new admit_known prune
max-after rl (calls key now) = elim (Option-cases (lookup key rl.hits)) [
  | inl e ↦ rw (after, e, allow) (ground arith)
  | inr (w, e) ↦ rw (after, e, allow) (ground arith)
]
max-after rl (prunes now) = refl

max-allow : (rl : RateLimiter) (key : Bytes) (now : ℕ) → (allow rl key now).0.max ≡ rl.max
unfolding after
max-allow rl key now = max-after rl (calls key now)

-- Every event happens before the window closes.
abbrev pub Inside : Window → List Event → Type 0
Inside w = All (λ e. time e ≤ w.reset)

-- A call for the key itself, with what the rest gets.
self_case :
    (rl : RateLimiter) (k : Bytes) (w : Window) (now : ℕ) (es : List Event)
    → IsBounded rl
    → lookup k rl.hits ≡ some w
    → w.count ≤ rl.max
    → now ≤ w.reset
    → ((n : ℕ)
        → lookup k (allow rl k now).0.hits ≡ some (record w { count = n })
        → n ≤ (allow rl k now).0.max
        → admitted_count (allow rl k now).0 k es
          ≡ min (call_count k es) ((allow rl k now).0.max - n))
    → one_if (allow rl k now).1 + admitted_count (allow rl k now).0 k es
      ≡ min (1 + call_count k es) (rl.max - w.count)
self_case rl k w now es v here room i ih = elim (self-window rl k w now v here i) [
  | inl (more, yes_it_is, next) ↦
      rw yes_it_is
        (omega (arith, ih (w.count + 1) next (rw max-allow (omega arith)), max-allow rl k now))
  | inr (full, same) ↦ ground (arith, ih w.count, same)
]

-- Until its window closes, a key gets exactly as many calls through as the window has room for, or
-- all of its calls if these are fewer, whatever is called and pruned in between for other keys.
pub admitted_count_lem :
    (rl : RateLimiter) (k : Bytes) (w : Window) (es : List Event)
    → IsBounded rl
    → lookup k rl.hits ≡ some w
    → w.count ≤ rl.max
    → Inside w es
    → admitted_count rl k es ≡ min (call_count k es) (rl.max - w.count)
unfolding admitted_count call_count is_admitted after
admitted_count_lem rl k w [] v here room inside = omega arith
admitted_count_lem rl k w (prunes now ∷ es) v here room (i, is) = omega (
  arith,
  admitted_count_lem (after rl (prunes now)) k w es (after-IsBounded rl (prunes now) v)
      (unfold after in prune-window rl k w now v here i) (rw max-after room) is,
  max-after rl (prunes now),
)
admitted_count_lem rl k w (calls j now ∷ es) v here room (i, is) = elim (Bool-cases (str_eq j k)) [
  | inl same ↦
      rw ((str_eq_iff j k).0 same, str_eq_refl)
        (self_case rl k w now es v here room i (λ n h r.
          admitted_count_lem (after rl (calls k now)) k (record w { count = n }) es
            (after-IsBounded rl (calls k now) v) h r is))
  | inr other ↦ rw other (
      omega (
        arith,
        admitted_count_lem (after rl (calls j now)) k w es (after-IsBounded rl (calls j now) v)
            (unfold after in other-window rl k w now v here i j other) (rw max-after room) is,
        max-after rl (calls j now),
      ))
]
