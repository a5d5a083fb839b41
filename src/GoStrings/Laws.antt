-- ===== src/GoStrings/Laws.antt =====
-- Laws of the functions on strings.
use verix_dbm.Base.{ℕ, ◌≡◌, false, some, [], ◌∷◌, ◌++◌, arith, Bytes}
use verix_dbm.GoStrings.{cut, contains_byte}

-- A text without the separator in front is what `cut` finds.
pub cut-append :
    (sep : ℕ) (s t : Bytes) → contains_byte sep s ≡ false → cut sep (s ++ sep ∷ t) ≡ some (s, t)
unfolding cut contains_byte
cut-append sep [] t h = ground arith
cut-append sep (c ∷ s) t h = ground (arith, cut-append sep s t)

-- What `cut` finds, put together again, is the text, and the first part has no separator.
pub cut-some :
    (sep : ℕ) (s : Bytes) (a b : Bytes)
    → cut sep s ≡ some (a, b)
    → (s ≡ a ++ sep ∷ b) × (contains_byte sep a ≡ false)
unfolding cut contains_byte
cut-some sep [] a b h = ground arith
cut-some sep (c ∷ s) [] b h = ground arith
cut-some sep (c ∷ s) (d ∷ a) b h = ground (arith, cut-some sep s a b)
