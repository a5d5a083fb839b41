-- ===== src/Redis/Words.antt =====
-- The words of a Redis command line, and the lists of commands.
use verix_dbm.Base.{
  ℕ, ◌≡◌, refl, subst, inl, inr, Bool, true, false, List, [], ◌∷◌, map, arith, Bool-cases, All,
  some_of, Bytes, codes, str_eq, str_eq_iff, contains,
}
use verix_dbm.GoStrings.{is_space, trim_left, trim_right, trim_space, to_lower}
use verix_dbm.Redis.{
  dangerous_words, redis_read_words, redis_read_allowed, redis_needs_confirm, attached, fields_from,
  parse_args,
}

-- Not empty, and without white space.
abbrev pub IsWord : Bytes → Type 0
IsWord f = (str_eq f [] ≡ false) × (some_of is_space f ≡ false)

attached-IsWord :
    (c : ℕ) (is_open : Bool) (fs : List Bytes)
    → is_space c ≡ false
    → All IsWord fs
    → All IsWord (attached c is_open fs)
unfolding attached str_eq some_of
attached-IsWord c true [] h w = ((refl, ground (arith, h)), tt)
attached-IsWord c true (f ∷ fs) h w = ((refl, ground (arith, h, w.0.1)), w.1)
attached-IsWord c false fs h w = ((refl, ground (arith, h)), w)

fields_from-IsWord : (s : Bytes) → All IsWord (fields_from s).0
unfolding fields_from
fields_from-IsWord [] = tt
fields_from-IsWord (c ∷ s) = elim (Bool-cases (is_space c)) [
  | inl y ↦ rw (fields_from, y) (fields_from-IsWord s)
  | inr n ↦
      rw (fields_from, n)
        (attached-IsWord c (fields_from s).1 (fields_from s).0 n (fields_from-IsWord s))
]

pub parse_args-IsWord : (line : Bytes) → All IsWord (parse_args line)
unfolding parse_args
parse_args-IsWord line = fields_from-IsWord line

trim_right-IsWord : (f : Bytes) → some_of is_space f ≡ false → trim_right f ≡ f
unfolding trim_right some_of
trim_right-IsWord [] h = refl
trim_right-IsWord (c ∷ f) h = ground (arith, h, trim_right-IsWord f (ground (arith, h)))

pub trim_space-IsWord : (f : Bytes) → IsWord f → trim_space f ≡ f
unfolding trim_space trim_left some_of
trim_space-IsWord [] w = refl
trim_space-IsWord (c ∷ f) w =
    let first : is_space c ≡ false = ground (arith, w.1) in
    rw (trim_space, trim_left, first) (trim_right-IsWord (c ∷ f) w.1)

-- Of two lists without a common word, no word of one is a word of the other.
pub contains-apart :
    (words others : List Bytes) (w : Bytes)
    → some_of (contains others) words ≡ false
    → contains words w ≡ true
    → contains others w ≡ false
unfolding contains some_of
contains-apart [] others w h k = absurd (ground arith)
contains-apart (t ∷ ts) others w h k = elim (Bool-cases (str_eq t w)) [
  | inl e ↦ subst (λ x. contains others x ≡ false) ((str_eq_iff t w).0 e) (ground (arith, h))
  | inr n ↦ contains-apart ts others w (ground (arith, h)) (ground (arith, k, n))
]

apart : some_of (contains (map codes dangerous_words)) (map codes redis_read_words) ≡ false
unfolding some_of contains str_eq
apart = refl

-- The first word of a line is not both a command that may be read with and one that is dangerous.
pub read_allowed-needs_confirm :
    (arg : Bytes) (args : List Bytes)
    → IsWord arg
    → redis_read_allowed (to_lower arg) ≡ true
    → redis_needs_confirm (arg ∷ args) ≡ false
unfolding redis_read_allowed redis_needs_confirm
read_allowed-needs_confirm arg args w k =
    rw (trim_space-IsWord arg w) (
      contains-apart (map codes redis_read_words) (map codes dangerous_words) (to_lower arg) apart
        k)
