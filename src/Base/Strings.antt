-- ===== src/Base/Strings.antt =====
-- A Go string is a sequence of bytes. Literals are written as texts and are ASCII.
use Prim.Native.Nat.{ℕ, zero, suc, ◌+◌, ◌/◌, ◌%◌}
use Prim.Native.Char.{code}
use Prim.Native.String.{String}
use mathlib.Core.Path.{◌≡◌, refl}
use mathlib.Core.Logic.{◌↔◌}
use mathlib.Core.Bool.{Bool, true, false, ◌&&◌, ◌||◌}
use mathlib.Core.List.{List, [], ◌∷◌, ◌++◌}
use native.Mathlib.Omega.{arith}
use verix_dbm.Base.Tests.{◌==◌, ltb, if◌then◌else◌}
use verix_dbm.Base.Lists.{OneOf}

abbrev pub Bytes : Type 0
Bytes = List ℕ

abbrev pub codes : String → Bytes
codes String.[] = []
codes (String.◌∷◌ c s) = code c ∷ codes s

-- `a == b` on strings.
unfoldable pub str_eq : Bytes → Bytes → Bool
str_eq [] [] = true
str_eq (a ∷ s) (b ∷ t) = (a == b) && str_eq s t
str_eq _ _ = false

pub str_eq_iff : (s t : Bytes) → (str_eq s t ≡ true) ↔ (s ≡ t)
unfolding str_eq
str_eq_iff [] [] = ((λ _. refl), (λ _. refl))
str_eq_iff [] (b ∷ t) = ground arith
str_eq_iff (a ∷ s) [] = ground arith
str_eq_iff (a ∷ s) (b ∷ t) = ground (arith, str_eq_iff s t)

pub str_eq_refl : (s : Bytes) → str_eq s s ≡ true
str_eq_refl s = (str_eq_iff s s).1 refl

-- A map from strings to `bool` that is only ever set to true is the list of its keys.
unfoldable pub contains : List Bytes → Bytes → Bool
contains [] s = false
contains (t ∷ ts) s = str_eq t s || contains ts s

pub contains_iff : (ts : List Bytes) (s : Bytes) → (contains ts s ≡ true) ↔ OneOf s ts
unfolding contains
contains_iff [] s = ground arith
contains_iff (t ∷ ts) s = ground (arith, str_eq_iff t s, contains_iff ts s)

pub contains-cons :
    (t : Bytes) (ts : List Bytes) (s : Bytes) → contains (t ∷ ts) s ≡ (str_eq t s || contains ts s)
unfolding contains
contains-cons t ts s = refl

pub contains-append :
    (ts us : List Bytes) (s : Bytes) → contains (ts ++ us) s ≡ (contains ts s || contains us s)
unfolding contains
contains-append [] us s = refl
contains-append (t ∷ ts) us s = ground (arith, contains-append ts us s)

digits : ℕ → ℕ → Bytes → Bytes
digits zero n s = s
digits (suc fuel) n s =
    let more = digits fuel (n / 10) ((b'0' + n % 10) ∷ s) in
    if ltb n 10 then (b'0' + n) ∷ s else more

-- `strconv.Itoa` and `strconv.FormatInt` of a number that is not negative. A number has fewer digits
-- than its successor says.
unfoldable pub format_int : ℕ → Bytes
unfolding digits
format_int n = digits (suc n) n []
