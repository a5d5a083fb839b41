-- ===== src/Regex.antt =====
-- What the source uses of Go's package `regexp` to test a text: classes of bytes, their repetition,
-- word boundaries, sequence and choice. Case is folded as in ASCII.
pub mod Context
use verix_dbm.Base.{
  ℕ, zero, suc, ◌+◌, ◌-◌, ◌*◌, ◌≤◌, ◌<◌, String, ◌≡◌, refl, sym, ap, ◌∙◌, subst, ◌≢◌, ◌↔◌, ◌⊎◌, inl,
  inr, Bool, true, false, not, ◌&&◌, ◌||◌, Option, none, some, List, [], ◌∷◌, ◌++◌, map, append-nil,
  append_assoc, arith, ltb, leb, ◌==◌, if◌then◌else◌, ==_iff, Bool-cases, Option-cases, Bool-ext,
  length, length-append, All, OneOf, keep_if, keep_if-nil, keep_if-cons, length-keep_if-le, take,
  some_of, some_of-take, some_of-append, some_of-keep_if, some_of_elim, some_of_intro,
  keep_if-OneOf, OneOf-keep_if, keep_if_laws, Bytes, codes, str_eq, str_eq_iff, str_eq_refl,
  contains, contains_iff, contains-cons, contains-append, ◌>>=◌, Result-cases, guard-ok, Result, ok,
  err, max_int, ℤ, pos, negsuc,
}
use verix_dbm.GoStrings.{lower}

pub data Re : Type 0 where
  nothing : Re
  one : (ℕ → Bool) → Re
  many : (ℕ → Bool) → Re
  edge : Re
  chain : Re → Re → Re
  either : Re → Re → Re

-- `\w`
unfoldable pub is_word : ℕ → Bool
is_word c =
    (leb b'a' c && leb c b'z')
    || ((leb b'A' c && leb c b'Z') || ((leb b'0' c && leb c b'9') || c == b'_'))

-- `\s`
unfoldable pub is_blank : ℕ → Bool
is_blank c = c == b' ' || (c == 9 || (c == 10 || (c == 12 || c == 13)))

-- Is the byte before a position, or the one after it, part of a word?
abbrev pub word_before : Option ℕ → Bool
word_before none = false
word_before (some c) = is_word c

abbrev pub word_after : Bytes → Bool
word_after [] = false
word_after (c ∷ s) = is_word c

-- `\b`
unfoldable pub at_edge : Option ℕ → Bytes → Bool
at_edge before s = if word_before before then not (word_after s) else word_after s

-- What remains to be matched, at the byte before a position and the text after it.
abbrev pub Onward : Type 0
Onward = Option ℕ → Bytes → Bool

unfoldable pub run_many : (ℕ → Bool) → Onward → Onward
run_many p k before [] = k before []
run_many p k before (c ∷ s) =
    let more = run_many p k (some c) s in k before (c ∷ s) || (p c && more)

unfoldable pub run_one : (ℕ → Bool) → Onward → Onward
run_one p k before [] = false
run_one p k before (c ∷ s) = p c && k (some c) s

unfoldable pub run : Re → Onward → Onward
unfolding run_many run_one at_edge
run nothing k = k
run (one p) k = run_one p k
run (many p) k = run_many p k
run edge k = λ before s. at_edge before s && k before s
run (chain a b) k = run a (run b k)
run (either a b) k = λ before s. run a k before s || run b k before s

abbrev pub done : Onward
done before s = true

-- A match at some position of the text.
unfoldable pub search : Re → Onward
unfolding run
search re before [] = run re done before []
search re before (c ∷ s) = let later = search re (some c) s in run re done before (c ∷ s) || later

-- `MatchString`
unfoldable pub matches : Re → Bytes → Bool
unfolding search
matches re s = search re none s

-- A text, whatever the case of its letters.
unfoldable pub word : Bytes → Re
unfolding lower
word [] = nothing
word (c ∷ s) = chain (one (λ d. lower d == c)) (word s)

-- `\s+` and `\s*`
abbrev pub blanks : Re
blanks = chain (one is_blank) (many is_blank)

abbrev pub blanks_if_any : Re
blanks_if_any = many is_blank

-- A text between word boundaries.
abbrev pub whole : String → Re
whole text = chain edge (chain (word (codes text)) edge)
