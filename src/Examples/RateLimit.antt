-- ===== src/Examples/RateLimit.antt =====
-- A limiter with room for two calls in a window.
use verix_dbm.Base.{◌≡◌, refl, List, [], ◌∷◌, arith, codes, str_eq}
use Prim.Native.Nat.{min}
use verix_dbm.GoMap.{bytes_key, lookup, insert}
use verix_dbm.RateLimit.{RateLimiter, Window, new_rate_limiter, allow}
use verix_dbm.RateLimit.Bounds.{IsBounded, allow-IsBounded}
use verix_dbm.RateLimit.Windows.{
  Event, calls, prunes, admitted_count, call_count, admitted_count_lem,
}

abbrev window : Window
window = record { count = 1; reset = 60 }

abbrev limiter : RateLimiter
limiter = record { hits = (codes "u:e", window) ∷ []; max = 2; period = 60 }

allow-limiter : (allow (new_rate_limiter 2 60) (codes "u:e") 0).0 ≡ limiter
unfolding allow new_rate_limiter lookup insert
allow-limiter = refl

limiter-IsBounded : IsBounded limiter
unfolding lookup
limiter-IsBounded = record { distinct = (refl, tt); fits = omega arith }

abbrev events : List Event
events = calls (codes "u:e") 10 ∷ calls (codes "u:f") 11 ∷ prunes 12 ∷ calls (codes "u:e") 13 ∷ []

allow-IsBounded_example : IsBounded (allow limiter (codes "u:f") 5).0
allow-IsBounded_example = allow-IsBounded limiter (codes "u:f") 5 limiter-IsBounded

admitted_count_lem_example :
    admitted_count limiter (codes "u:e") events ≡ min (call_count (codes "u:e") events) 1
unfolding lookup str_eq
admitted_count_lem_example =
    admitted_count_lem limiter (codes "u:e") window events limiter-IsBounded refl (omega arith)
      (omega arith)
