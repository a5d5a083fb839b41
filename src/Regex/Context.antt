-- ===== src/Regex/Context.antt =====
-- A match stays a match when text follows or goes before, apart by a byte that is of no word.
use verix_dbm.Base.{
  ℕ, ◌≡◌, refl, sym, subst, Bool, true, false, Option, none, some, [], ◌∷◌, ◌++◌, append-nil, arith,
  Bytes,
}
use verix_dbm.Regex.{
  Re, nothing, one, many, edge, chain, either, is_word, word_before, word_after, at_edge, Onward,
  run_many, run_one, run, done, search, matches,
}

-- Do the two continuations agree on what follows, once `tail` comes after it?
abbrev Extends : Bytes → Onward → Onward → Type 0
Extends tail k k' =
    (b b' : Option ℕ) (s : Bytes)
    → word_before b ≡ word_before b'
    → k b s ≡ true
    → k' b' (s ++ tail) ≡ true

run_many-here :
    (p : ℕ → Bool) (k : Onward) (b : Option ℕ) (s : Bytes) → k b s ≡ true → run_many p k b s ≡ true
unfolding run_many
run_many-here p k b [] h = h
run_many-here p k b (c ∷ s) h = ground (arith, h)

run_many-Extends :
    (p : ℕ → Bool) (tail : Bytes) (k k' : Onward)
    → Extends tail k k'
    → Extends tail (run_many p k) (run_many p k')
unfolding run_many
run_many-Extends p tail k k' e b b' [] w h = run_many-here p k' b' tail (e b b' [] w h)
run_many-Extends p tail k k' e b b' (c ∷ s) w h =
    ground (arith, e b b' (c ∷ s) w, run_many-Extends p tail k k' e (some c) (some c) s refl)

run_one-Extends :
    (p : ℕ → Bool) (tail : Bytes) (k k' : Onward)
    → Extends tail k k'
    → Extends tail (run_one p k) (run_one p k')
unfolding run_one
run_one-Extends p tail k k' e b b' [] w h = cc
run_one-Extends p tail k k' e b b' (c ∷ s) w h = ground (arith, e (some c) (some c) s refl)

at_edge-append :
    (tail : Bytes) (b b' : Option ℕ) (s : Bytes)
    → word_after tail ≡ false
    → word_before b ≡ word_before b'
    → at_edge b' (s ++ tail) ≡ at_edge b s
unfolding at_edge
at_edge-append tail b b' [] t w = rw (t, w) refl
at_edge-append tail b b' (c ∷ s) t w = rw w refl

run-Extends :
    (tail : Bytes) (re : Re) (k k' : Onward)
    → word_after tail ≡ false
    → Extends tail k k'
    → Extends tail (run re k) (run re k')
unfolding run
run-Extends tail nothing k k' t e = e
run-Extends tail (one p) k k' t e = run_one-Extends p tail k k' e
run-Extends tail (many p) k k' t e = run_many-Extends p tail k k' e
run-Extends tail edge k k' t e =
    λ b b' s w h. ground (arith, at_edge-append tail b b' s t w, e b b' s w)
run-Extends tail (chain x y) k k' t e =
    run-Extends tail x (run y k) (run y k') t (run-Extends tail y k k' t e)
run-Extends tail (either x y) k k' t e = λ b b' s w h.
    ground (arith, run-Extends tail x k k' t e b b' s w, run-Extends tail y k k' t e b b' s w)

done-Extends : (tail : Bytes) → Extends tail done done
done-Extends tail b b' s w h = refl

search-here : (re : Re) (b : Option ℕ) (s : Bytes) → run re done b s ≡ true → search re b s ≡ true
unfolding search
search-here re b [] h = h
search-here re b (c ∷ s) h = ground (arith, h)

search-append :
    (re : Re) (tail : Bytes) (b b' : Option ℕ) (s : Bytes)
    → word_after tail ≡ false
    → word_before b ≡ word_before b'
    → search re b s ≡ true
    → search re b' (s ++ tail) ≡ true
unfolding search
search-append re tail b b' [] t w h =
    search-here re b' tail (run-Extends tail re done done t (done-Extends tail) b b' [] w h)
search-append re tail b b' (c ∷ s) t w h = ground (
  arith,
  run-Extends tail re done done t (done-Extends tail) b b' (c ∷ s) w,
  search-append re tail (some c) (some c) s t refl,
)

-- The byte before the text that follows, when there is one.
abbrev last_of : Option ℕ → Bytes → Option ℕ
last_of b [] = b
last_of b (c ∷ s) = last_of (some c) s

search-behind :
    (re : Re) (b : Option ℕ) (front s : Bytes)
    → search re (last_of b front) s ≡ true
    → search re b (front ++ s) ≡ true
unfolding search
search-behind re b [] s h = h
search-behind re b (c ∷ front) s h = ground (arith, search-behind re (some c) front s h)

last_of-append : (b : Option ℕ) (front : Bytes) (c : ℕ) → last_of b (front ++ c ∷ []) ≡ some c
last_of-append b [] c = refl
last_of-append b (d ∷ front) c = last_of-append (some d) front c

-- A text that matches does so also with more text behind it, apart by a byte of no word.
pub matches-before :
    (re : Re) (s tail : Bytes)
    → word_after tail ≡ false
    → matches re s ≡ true
    → matches re (s ++ tail) ≡ true
unfolding matches
matches-before re s tail t h = search-append re tail none none s t refl h

-- A text that matches does so also behind more text, apart by a byte of no word.
pub matches-behind :
    (re : Re) (front : Bytes) (c : ℕ) (s : Bytes)
    → is_word c ≡ false
    → matches re s ≡ true
    → matches re (front ++ c ∷ s) ≡ true
unfolding matches
matches-behind re front c s t h = search-behind re none front (c ∷ s) (
    search-behind re (last_of none front) (c ∷ []) s (
      subst (λ u. search re (some c) u ≡ true) (append-nil s)
        (search-append re [] none (some c) s refl (sym t) h)))
