-- ===== src/Sql/Confirm/Comments.antt =====
-- Scripts whose statements are texts with comments between them, as `NeedsConfirm` sees them.
use verix_dbm.Base.{
  ℕ, ◌≡◌, refl, sym, ap, ◌∙◌, Bool, true, false, ◌&&◌, ◌||◌, List, [], ◌∷◌, ◌++◌, map, append-nil,
  append_assoc, arith, ◌==◌, ==_iff, All, some_of, Bytes, codes,
}
use verix_dbm.GoStrings.{split, join, contains_byte, add_head}
use verix_dbm.Sql.Confirm.{closes, strip_blocks, strip_lines, needs_confirm, stmt_needs_confirm}

-- Do the two bytes stand next to each other, in this order?
unfoldable pub has_pair : ℕ → ℕ → Bytes → Bool
has_pair a b [] = false
has_pair a b (c ∷ []) = false
has_pair a b (c ∷ d ∷ s) = let rest = has_pair a b (d ∷ s) in (c == a && d == b) || rest

-- A part of a statement: text, a block comment, or a line comment with the end of its line.
pub data Part : Type 0 where
  text : Bytes → Part
  block : Bytes → Part
  line : Bytes → Part

unfoldable pub part_code : Part → Bytes
part_code (text s) = s
part_code (block c) = codes "/*" ++ (c ++ codes "*/")
part_code (line c) = codes "--" ++ (c ++ 10 ∷ [])

-- The part without its comment.
unfoldable pub part_bare : Part → Bytes
part_bare (text s) = s
part_bare (block c) = b' ' ∷ []
part_bare (line c) = 10 ∷ []

-- No comment begins in a text or at its end, and no statement ends there; a block comment does not
-- end early; no block comment begins in a line comment, and it is of one line.
abbrev pub IsPart : Part → Type 0
IsPart (text s) =
    (has_pair b'/' b'*' (s ++ b'*' ∷ []) ≡ false)
    × (has_pair b'-' b'-' (s ++ b'-' ∷ []) ≡ false)
    × (contains_byte b';' s ≡ false)
IsPart (block c) = has_pair b'*' b'/' c ≡ false
IsPart (line c) = (has_pair b'/' b'*' c ≡ false) × (contains_byte 10 c ≡ false)

unfoldable pub concat : List Bytes → Bytes
concat [] = []
concat (s ∷ ss) = s ++ concat ss

unfoldable pub code : List Part → Bytes
unfolding concat part_code
code parts = concat (map part_code parts)

unfoldable pub bare : List Part → Bytes
unfolding concat part_bare
bare parts = concat (map part_bare parts)

strip_blocks-text :
    (s rest : Bytes)
    → has_pair b'/' b'*' (s ++ b'*' ∷ []) ≡ false
    → strip_blocks false (s ++ rest) ≡ s ++ strip_blocks false rest
unfolding strip_blocks has_pair
strip_blocks-text [] rest h = refl
strip_blocks-text (c ∷ []) [] h = refl
strip_blocks-text (c ∷ []) (d ∷ rest) h = ground (arith, h)
strip_blocks-text (c ∷ d ∷ s) rest h = ground (arith, h, strip_blocks-text (d ∷ s) rest)

strip_lines-text :
    (s rest : Bytes)
    → has_pair b'-' b'-' (s ++ b'-' ∷ []) ≡ false
    → strip_lines false (s ++ rest) ≡ s ++ strip_lines false rest
unfolding strip_lines has_pair
strip_lines-text [] rest h = refl
strip_lines-text (c ∷ []) [] h = refl
strip_lines-text (c ∷ []) (d ∷ rest) h = ground (arith, h)
strip_lines-text (c ∷ d ∷ s) rest h = ground (arith, h, strip_lines-text (d ∷ s) rest)

strip_blocks-inside :
    (c s : Bytes)
    → has_pair b'*' b'/' c ≡ false
    → strip_blocks true (c ++ (b'*' ∷ b'/' ∷ s)) ≡ strip_blocks false s
unfolding strip_blocks has_pair
strip_blocks-inside [] s h = refl
strip_blocks-inside (b ∷ []) s h = ground arith
strip_blocks-inside (b ∷ d ∷ c) s h = ground (arith, h, strip_blocks-inside (d ∷ c) s)

closes-append : (c s : Bytes) → closes (c ++ (b'*' ∷ b'/' ∷ s)) ≡ true
unfolding closes
closes-append [] s = refl
closes-append (b ∷ []) s = ground arith
closes-append (b ∷ d ∷ c) s = ground (arith, closes-append (d ∷ c) s)

strip_blocks-block :
    (c s : Bytes)
    → has_pair b'*' b'/' c ≡ false
    → strip_blocks false (b'/' ∷ b'*' ∷ (c ++ (b'*' ∷ b'/' ∷ s))) ≡ b' ' ∷ strip_blocks false s
unfolding strip_blocks
strip_blocks-block c s h = rw (closes-append c s, strip_blocks-inside c s h) refl

-- A line comment is left by the first pass.
line-closed :
    (c : Bytes) → has_pair b'/' b'*' c ≡ false → has_pair b'/' b'*' (c ++ (10 ∷ b'*' ∷ [])) ≡ false
unfolding has_pair
line-closed [] h = refl
line-closed (b ∷ []) h = ground arith
line-closed (b ∷ d ∷ c) h = ground (arith, h, line-closed (d ∷ c))

strip_lines-inside :
    (c s : Bytes)
    → contains_byte 10 c ≡ false
    → strip_lines true (c ++ (10 ∷ s)) ≡ 10 ∷ strip_lines false s
unfolding strip_lines contains_byte
strip_lines-inside [] s h = refl
strip_lines-inside (b ∷ c) s h = ground (arith, h, strip_lines-inside c s)

or_false : (a b : Bool) → (a || b) ≡ false → (a ≡ false) × (b ≡ false)
or_false a b h = (ground (arith, h), ground (arith, h))

split-none : (sep : ℕ) (s : Bytes) → contains_byte sep s ≡ false → split sep s ≡ s ∷ []
unfolding split contains_byte add_head
split-none sep [] h = refl
split-none sep (c ∷ s) h =
    let (n, k) = or_false (c == sep) (contains_byte sep s) h in rw (n, split-none sep s k) refl

split-append :
    (sep : ℕ) (s t : Bytes)
    → contains_byte sep s ≡ false
    → split sep (s ++ sep ∷ t) ≡ s ∷ split sep t
unfolding split contains_byte add_head
split-append sep [] t h = rw ((==_iff sep sep).1 refl) refl
split-append sep (c ∷ s) t h =
    let (n, k) = or_false (c == sep) (contains_byte sep s) h in rw (n, split-append sep s t k) refl

split-join :
    (sep : ℕ) (s : Bytes) (ss : List Bytes)
    → All (λ (t : Bytes). contains_byte sep t ≡ false) (s ∷ ss)
    → split sep (join (sep ∷ []) (s ∷ ss)) ≡ s ∷ ss
unfolding join
split-join sep s [] h = split-none sep s h.0
split-join sep s (t ∷ ts) h =
    split-append sep s (join (sep ∷ []) (t ∷ ts)) h.0 ∙ ap (λ us. s ∷ us) (split-join sep t ts h.1)

-- What is left of a part, and of parts, once block comments are gone.
half_part : Part → Bytes
half_part (text s) = s
half_part (block c) = b' ' ∷ []
half_part (line c) = codes "--" ++ (c ++ 10 ∷ [])

half : List Part → Bytes
unfolding concat half_part
half parts = concat (map half_part parts)

has_pair-skip :
    (d : ℕ) (s : Bytes) → d == b'/' ≡ false → has_pair b'/' b'*' (d ∷ s) ≡ has_pair b'/' b'*' s
unfolding has_pair
has_pair-skip d [] h = refl
has_pair-skip d (c ∷ s) h = ground arith

strip_blocks-line :
    (c rest : Bytes)
    → has_pair b'/' b'*' c ≡ false
    → strip_blocks false ((b'-' ∷ b'-' ∷ (c ++ 10 ∷ [])) ++ rest)
      ≡ (b'-' ∷ b'-' ∷ (c ++ 10 ∷ [])) ++ strip_blocks false rest
strip_blocks-line c rest h =
    let closed : has_pair b'/' b'*' ((c ++ 10 ∷ []) ++ b'*' ∷ []) ≡ false =
      rw append_assoc (line-closed c h) in
    strip_blocks-text (b'-' ∷ b'-' ∷ (c ++ 10 ∷ [])) rest (
      has_pair-skip b'-' (b'-' ∷ ((c ++ 10 ∷ []) ++ b'*' ∷ [])) refl
      ∙ (has_pair-skip b'-' ((c ++ 10 ∷ []) ++ b'*' ∷ []) refl ∙ closed))

strip_blocks-part :
    (p : Part) (rest : Bytes)
    → IsPart p
    → strip_blocks false (part_code p ++ rest) ≡ half_part p ++ strip_blocks false rest
unfolding part_code half_part strip_blocks
strip_blocks-part (text s) rest h = strip_blocks-text s rest h.0
strip_blocks-part (block c) rest h = rw append_assoc (strip_blocks-block c rest h)
strip_blocks-part (line c) rest h = strip_blocks-line c rest h.0

strip_lines-plain :
    (d : ℕ) (s : Bytes) → d == b'-' ≡ false → strip_lines false (d ∷ s) ≡ d ∷ strip_lines false s
unfolding strip_lines
strip_lines-plain d [] h = refl
strip_lines-plain d (c ∷ s) h = ground arith

strip_blocks-plain :
    (d : ℕ) (s : Bytes) → d == b'/' ≡ false → strip_blocks false (d ∷ s) ≡ d ∷ strip_blocks false s
unfolding strip_blocks
strip_blocks-plain d [] h = refl
strip_blocks-plain d (c ∷ s) h = ground arith

strip_lines-line :
    (c s : Bytes)
    → contains_byte 10 c ≡ false
    → strip_lines false (b'-' ∷ b'-' ∷ (c ++ (10 ∷ s))) ≡ 10 ∷ strip_lines false s
unfolding strip_lines
strip_lines-line c s h = strip_lines-inside c s h

strip_lines-part :
    (p : Part) (rest : Bytes)
    → IsPart p
    → strip_lines false (half_part p ++ rest) ≡ part_bare p ++ strip_lines false rest
unfolding part_bare half_part
strip_lines-part (text s) rest h = strip_lines-text s rest h.1
strip_lines-part (block c) rest h = strip_lines-plain b' ' rest refl
strip_lines-part (line c) rest h =
    ap (λ s. strip_lines false (b'-' ∷ b'-' ∷ s)) (append_assoc c (10 ∷ []) rest)
    ∙ strip_lines-line c rest h.1

strip_blocks-code :
    (parts : List Part) (rest : Bytes)
    → All IsPart parts
    → strip_blocks false (code parts ++ rest) ≡ half parts ++ strip_blocks false rest
unfolding code half concat
strip_blocks-code [] rest h = refl
strip_blocks-code (p ∷ ps) rest h =
    rw (append_assoc, strip_blocks-part p (code ps ++ rest) h.0, strip_blocks-code ps rest h.1)
      (sym (append_assoc (half_part p) (half ps) (strip_blocks false rest)))

strip_lines-half :
    (parts : List Part) (rest : Bytes)
    → All IsPart parts
    → strip_lines false (half parts ++ rest) ≡ bare parts ++ strip_lines false rest
unfolding bare half concat
strip_lines-half [] rest h = refl
strip_lines-half (p ∷ ps) rest h =
    rw (append_assoc, strip_lines-part p (half ps ++ rest) h.0, strip_lines-half ps rest h.1)
      (sym (append_assoc (part_bare p) (bare ps) (strip_lines false rest)))

abbrev pub AreParts : List (List Part) → Type 0
AreParts pss = All (λ (ps : List Part). All IsPart ps) pss

strip_blocks-join :
    (pss : List (List Part))
    → AreParts pss
    → strip_blocks false (join (codes ";") (map code pss)) ≡ join (codes ";") (map half pss)
unfolding join strip_blocks
strip_blocks-join [] h = refl
strip_blocks-join (ps ∷ []) h =
    ap (λ s. strip_blocks false s) (sym (append-nil (code ps)))
    ∙ (strip_blocks-code ps [] h.0 ∙ append-nil (half ps))
strip_blocks-join (ps ∷ qs ∷ pss) h =
    let rest = join (codes ";") (map code (qs ∷ pss)) in
    strip_blocks-code ps (b';' ∷ rest) h.0
    ∙ ap (λ s. half ps ++ s)
        (strip_blocks-plain b';' rest refl ∙ ap (λ s. b';' ∷ s) (strip_blocks-join (qs ∷ pss) h.1))

strip_lines-join :
    (pss : List (List Part))
    → AreParts pss
    → strip_lines false (join (codes ";") (map half pss)) ≡ join (codes ";") (map bare pss)
unfolding join strip_lines
strip_lines-join [] h = refl
strip_lines-join (ps ∷ []) h =
    ap (λ s. strip_lines false s) (sym (append-nil (half ps)))
    ∙ (strip_lines-half ps [] h.0 ∙ append-nil (bare ps))
strip_lines-join (ps ∷ qs ∷ pss) h =
    let rest = join (codes ";") (map half (qs ∷ pss)) in
    strip_lines-half ps (b';' ∷ rest) h.0
    ∙ ap (λ s. bare ps ++ s)
        (strip_lines-plain b';' rest refl ∙ ap (λ s. b';' ∷ s) (strip_lines-join (qs ∷ pss) h.1))

contains_byte-append :
    (b : ℕ) (s t : Bytes) → contains_byte b (s ++ t) ≡ (contains_byte b s || contains_byte b t)
unfolding contains_byte
contains_byte-append b [] t = refl
contains_byte-append b (c ∷ s) t = ground (arith, contains_byte-append b s t)

part_bare-none : (p : Part) → IsPart p → contains_byte b';' (part_bare p) ≡ false
unfolding part_bare contains_byte
part_bare-none (text s) h = h.2
part_bare-none (block c) h = refl
part_bare-none (line c) h = refl

bare-none : (parts : List Part) → All IsPart parts → contains_byte b';' (bare parts) ≡ false
unfolding bare concat contains_byte
bare-none [] h = refl
bare-none (p ∷ ps) h = ground (
  arith,
  contains_byte-append b';' (part_bare p) (bare ps),
  part_bare-none p h.0,
  bare-none ps h.1,
)

bares-none :
    (pss : List (List Part))
    → AreParts pss
    → All (λ (t : Bytes). contains_byte b';' t ≡ false) (map bare pss)
bares-none [] h = tt
bares-none (ps ∷ pss) h = (bare-none ps h.0, bares-none pss h.1)

-- A script of statements that semicolons separate, each made of texts and of comments: it needs a
-- confirmation exactly when one of its statements does by itself, with a space for every block
-- comment and with nothing for a line comment. Texts hold no semicolon and no beginning of a comment;
-- what comments hold is free, semicolons included, but for the end of their own kind and, in a line
-- comment, the beginning of a block comment.
pub needs_confirm-join :
    (ps : List Part) (pss : List (List Part))
    → AreParts (ps ∷ pss)
    → needs_confirm (join (codes ";") (map code (ps ∷ pss)))
      ≡ some_of stmt_needs_confirm (map bare (ps ∷ pss))
unfolding needs_confirm
needs_confirm-join ps pss h =
    rw
      (
        strip_blocks-join (ps ∷ pss) h,
        strip_lines-join (ps ∷ pss) h,
        split-join b';' (bare ps) (map bare pss) (bares-none (ps ∷ pss) h),
      )
      refl
