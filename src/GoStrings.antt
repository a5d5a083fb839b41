-- ===== src/GoStrings.antt =====
-- What the source uses of Go's package `strings`, on bytes: white space and letters are those of
-- ASCII.
pub mod Laws
use verix_dbm.Base.{
  ℕ, zero, suc, ◌+◌, ◌-◌, ◌*◌, ◌≤◌, ◌<◌, String, ◌≡◌, refl, sym, ap, ◌∙◌, subst, ◌≢◌, ◌↔◌, ◌⊎◌, inl,
  inr, Bool, true, false, not, ◌&&◌, ◌||◌, Option, none, some, List, [], ◌∷◌, ◌++◌, map, append-nil,
  append_assoc, arith, ltb, leb, ◌==◌, if◌then◌else◌, ==_iff, Bool-cases, Option-cases, Bool-ext,
  length, length-append, All, OneOf, keep_if, keep_if-nil, keep_if-cons, length-keep_if-le, take,
  some_of, some_of-take, some_of-append, some_of-keep_if, some_of_elim, some_of_intro,
  keep_if-OneOf, OneOf-keep_if, keep_if_laws, Bytes, codes, str_eq, str_eq_iff, str_eq_refl,
  contains, contains_iff, contains-append, ◌>>=◌, Result-cases, Result, ok, err, max_int, ℤ, pos,
  negsuc,
}

unfoldable pub is_space : ℕ → Bool
is_space c = c == b' ' || (leb 9 c && leb c 13)

unfoldable pub trim_left : Bytes → Bytes
trim_left [] = []
trim_left (c ∷ s) = elim (is_space c) [ true ↦ trim_left s | false ↦ c ∷ s ]

-- A suffix of white space is dropped.
unfoldable pub trim_right : Bytes → Bytes
trim_right [] = []
trim_right (c ∷ s) =
    let rest = trim_right s in if is_space c && str_eq rest [] then [] else c ∷ rest

-- `strings.TrimSpace`
unfoldable pub trim_space : Bytes → Bytes
unfolding trim_left trim_right is_space
trim_space s = trim_right (trim_left s)

-- `s[:i], s[i+1:]` at the first `sep`; none if it is not there. Also `strings.Cut` at one byte.
unfoldable pub cut : ℕ → Bytes → Option (Bytes × Bytes)
cut sep [] = none
cut sep (c ∷ s) =
    let rest = cut sep s in
    if c == sep then some ([], s) else elim rest [ none ↦ none | some (a, b) ↦ some (c ∷ a, b) ]

-- The part being read goes first.
unfoldable pub add_head : ℕ → List Bytes → List Bytes
add_head c [] = (c ∷ []) ∷ []
add_head c (p ∷ ps) = (c ∷ p) ∷ ps

-- `strings.Split` at one byte.
unfoldable pub split : ℕ → Bytes → List Bytes
unfolding add_head
split sep [] = [] ∷ []
split sep (c ∷ s) = let rest = split sep s in if c == sep then [] ∷ rest else add_head c rest

-- `strings.Join`
unfoldable pub join : Bytes → List Bytes → Bytes
join sep [] = []
join sep (p ∷ []) = p
join sep (p ∷ q ∷ ps) = p ++ (sep ++ join sep (q ∷ ps))

-- `strings.ReplaceAll` of one byte.
unfoldable pub replace_all : ℕ → Bytes → Bytes → Bytes
replace_all old new [] = []
replace_all old new (c ∷ s) =
    let rest = replace_all old new s in if c == old then new ++ rest else c ∷ rest

unfoldable pub lower : ℕ → ℕ
lower c = if leb b'A' c && leb c b'Z' then c + 32 else c

unfoldable pub to_lower : Bytes → Bytes
unfolding lower
to_lower = map lower

unfoldable pub upper : ℕ → ℕ
upper c = if leb b'a' c && leb c b'z' then c - 32 else c

unfoldable pub to_upper : Bytes → Bytes
unfolding upper
to_upper = map upper

unfoldable pub has_prefix : Bytes → Bytes → Bool
has_prefix s [] = true
has_prefix [] (p ∷ ps) = false
has_prefix (c ∷ s) (p ∷ ps) = (c == p) && has_prefix s ps

-- Is the byte in the text?
unfoldable pub contains_byte : ℕ → Bytes → Bool
contains_byte b [] = false
contains_byte b (c ∷ s) = (c == b) || contains_byte b s
