-- ===== src/Sql/Quoting.antt =====
-- Reading a quoted name or value back, the way the lexers of the databases do: a mark that is doubled
-- stands for itself, and a single one ends the text.
use verix_dbm.Base.{
  ℕ, ◌≡◌, refl, sym, ap, inl, inr, Bool, true, false, ◌||◌, Option, none, some, [], ◌∷◌, ◌++◌,
  append_assoc, arith, ◌==◌, if◌then◌else◌, ==_iff, Bool-cases, Bytes,
}
use verix_dbm.GoStrings.{replace_all}

abbrev pub push : ℕ → Option (Bytes × Bytes) → Option (Bytes × Bytes)
push c none = none
push c (some (a, b)) = some (c ∷ a, b)

-- What is read after the opening mark, and what follows; `seen` says that the last byte was a mark.
unfoldable pub unquote : ℕ → Bool → Bytes → Option (Bytes × Bytes)
unquote q true [] = some ([], [])
unquote q false [] = none
unquote q true (c ∷ s) =
    let rest = unquote q false s in if c == q then push q rest else some ([], c ∷ s)
unquote q false (c ∷ s) =
    let rest = unquote q true s in
    let more = unquote q false s in if c == q then rest else push c more

-- A quoted text at the start of a statement.
unfoldable pub read_quoted : ℕ → Bytes → Option (Bytes × Bytes)
read_quoted q [] = none
read_quoted q (c ∷ s) = if c == q then unquote q false s else none

unfoldable pub starts_with : ℕ → Bytes → Bool
starts_with q [] = false
starts_with q (c ∷ s) = c == q

unquote-other :
    (q c : ℕ) (s : Bytes) → c == q ≡ false → unquote q false (c ∷ s) ≡ push c (unquote q false s)
unfolding unquote
unquote-other q c s h = ground arith

unquote-doubled :
    (q c d : ℕ) (s : Bytes)
    → c == q ≡ true
    → d == q ≡ true
    → unquote q false (c ∷ d ∷ s) ≡ push q (unquote q false s)
unfolding unquote
unquote-doubled q c d s h h' = ground arith

==_refl : (q : ℕ) → q == q ≡ true
==_refl q = (==_iff q q).1 refl

unquote-end :
    (q : ℕ) (rest : Bytes)
    → starts_with q rest ≡ false
    → unquote q false (q ∷ rest) ≡ some ([], rest)
unfolding unquote starts_with
unquote-end q [] h = ground arith
unquote-end q (r ∷ rest) h = ground arith

pub unquote-replace_all :
    (q : ℕ) (s rest : Bytes)
    → starts_with q rest ≡ false
    → unquote q false (replace_all q (q ∷ q ∷ []) s ++ q ∷ rest) ≡ some (s, rest)
unfolding replace_all
unquote-replace_all q [] rest h = unquote-end q rest h
unquote-replace_all q (c ∷ s) rest h = elim (Bool-cases (c == q)) [
  | inl e ↦ rw (
    e,
    unquote-doubled q q q _ (==_refl q) (==_refl q),
    unquote-replace_all q s rest h,
    sym ((==_iff c q).0 e),
  )
  | inr e ↦ rw (e, unquote-other q c _ e, unquote-replace_all q s rest h)
]

-- The rest of a name, once its first part is read.
unfoldable pub read_second : ℕ → Bytes → Bytes → Option (Option Bytes × Bytes × Bytes)
read_second q a [] = some (none, a, [])
read_second q a (c ∷ s) =
    if c == b'.'
    then elim (read_quoted q s) [ none ↦ none | some (b, rest) ↦ some (some a, b, rest) ]
    else some (none, a, c ∷ s)

-- A quoted name with or without a schema before it, and what follows.
unfoldable pub read_name : ℕ → Bytes → Option (Option Bytes × Bytes × Bytes)
unfolding read_second
read_name q s = elim (read_quoted q s) [ none ↦ none | some (a, rest) ↦ read_second q a rest ]

-- Is the byte after a name one that goes on with it?
abbrev pub goes_on : ℕ → Bytes → Bool
goes_on q [] = false
goes_on q (c ∷ s) = (c == q) || (c == b'.')

pub read_quoted-replace_all :
    (q : ℕ) (s rest : Bytes)
    → starts_with q rest ≡ false
    → read_quoted q (q ∷ (replace_all q (q ∷ q ∷ []) s ++ q ∷ rest)) ≡ some (s, rest)
unfolding read_quoted
read_quoted-replace_all q s rest h = rw (==_refl q) (unquote-replace_all q s rest h)

pub read_name-alone :
    (q : ℕ) (s a rest : Bytes)
    → read_quoted q s ≡ some (a, rest)
    → goes_on q rest ≡ false
    → read_name q s ≡ some (none, a, rest)
unfolding read_name read_second
read_name-alone q s a [] h e = rw (h, read_name) refl
read_name-alone q s a (c ∷ rest) h e = ground arith

pub read_name-pair :
    (q : ℕ) (s t a b rest : Bytes)
    → read_quoted q s ≡ some (a, b'.' ∷ t)
    → read_quoted q t ≡ some (b, rest)
    → read_name q s ≡ some (some a, b, rest)
unfolding read_name read_second
read_name-pair q s t a b rest h k = rw (h, k, read_name) refl

pub starts_with-goes_on :
    (q : ℕ) (rest : Bytes) → goes_on q rest ≡ false → starts_with q rest ≡ false
unfolding starts_with
starts_with-goes_on q [] h = refl
starts_with-goes_on q (c ∷ rest) h = ground arith

-- A text in marks, with the marks inside it doubled.
abbrev pub wrap : ℕ → Bytes → Bytes
wrap q s = q ∷ (replace_all q (q ∷ q ∷ []) s ++ q ∷ [])

wrap-append :
    (q : ℕ) (s rest : Bytes) → wrap q s ++ rest ≡ q ∷ (replace_all q (q ∷ q ∷ []) s ++ q ∷ rest)
wrap-append q s rest = ap (λ t. q ∷ t) (append_assoc (replace_all q (q ∷ q ∷ []) s) (q ∷ []) rest)

pub read_quoted-wrap :
    (q : ℕ) (s rest : Bytes)
    → starts_with q rest ≡ false
    → read_quoted q (wrap q s ++ rest) ≡ some (s, rest)
read_quoted-wrap q s rest h = rw (wrap-append q s rest) (read_quoted-replace_all q s rest h)

pub read_name-wrap :
    (q : ℕ) (s rest : Bytes)
    → goes_on q rest ≡ false
    → read_name q (wrap q s ++ rest) ≡ some (none, s, rest)
read_name-wrap q s rest h =
    read_name-alone q _ s rest (read_quoted-wrap q s rest (starts_with-goes_on q rest h)) h

pub read_name-wrap_pair :
    (q : ℕ) (s t rest : Bytes)
    → b'.' == q ≡ false
    → goes_on q rest ≡ false
    → read_name q ((wrap q s ++ b'.' ∷ wrap q t) ++ rest) ≡ some (some s, t, rest)
unfolding starts_with
read_name-wrap_pair q s t rest d h = rw (append_assoc (wrap q s) (b'.' ∷ wrap q t) rest) (
    read_name-pair q _ _ s t rest (read_quoted-wrap q s _ d)
      (read_quoted-wrap q t rest (starts_with-goes_on q rest h)))
