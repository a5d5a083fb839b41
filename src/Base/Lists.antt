-- ===== src/Base/Lists.antt =====
-- Lists measured by native numbers, and predicates on lists that compute to tuples and sums.
use Prim.Native.Nat.{ℕ, zero, suc, ◌+◌, ◌≤◌}
use mathlib.Core.Path.{◌≡◌, refl, ap, ◌∙◌}
use mathlib.Core.Logic.{◌⊎◌, inl, inr}
use mathlib.Core.Bool.{Bool, true, false, ◌&&◌, ◌||◌}
use mathlib.Core.List.{List, [], ◌∷◌, ◌++◌}
use native.Mathlib.Omega.{arith}
use verix_dbm.Base.Tests.{if◌then◌else◌, Bool-cases}

module _ {ℓ} {A : Type ℓ} where
  abbrev pub length : List A → ℕ
  length [] = 0
  length (x ∷ xs) = suc (length xs)

  pub length-append : (xs ys : List A) → length (xs ++ ys) ≡ length xs + length ys
  length-append [] ys = omega arith
  length-append (x ∷ xs) ys = omega (arith, length-append xs ys)

module _ {ℓ κ} {A : Type ℓ} where
  abbrev pub All : (A → Type κ) → List A → Type κ
  All P [] = Unit
  All P (x ∷ xs) = P x × All P xs

module _ {A : Type 0} where
  -- `x` stands somewhere in the list.
  abbrev pub OneOf : A → List A → Type 0
  OneOf x [] = ⊥
  OneOf x (y ∷ ys) = (x ≡ y) ⊎ OneOf x ys

module _ {ℓ} {A : Type ℓ} where
  -- `append` within a loop body under a test, as `filter` with a Boolean test.
  pub keep_if : (A → Bool) → List A → List A
  keep_if p [] = []
  keep_if p (x ∷ xs) = let rest = keep_if p xs in if p x then x ∷ rest else rest

  pub keep_if-nil : (p : A → Bool) → keep_if p [] ≡ []
  unfolding keep_if
  keep_if-nil p = refl

  pub keep_if-cons :
      (p : A → Bool) (x : A) (xs : List A)
      → keep_if p (x ∷ xs) ≡ (if p x then x ∷ keep_if p xs else keep_if p xs)
  unfolding keep_if
  keep_if-cons p x xs = refl

  pub length-keep_if-le : (p : A → Bool) (xs : List A) → length (keep_if p xs) ≤ length xs
  unfolding keep_if
  length-keep_if-le p [] = omega arith
  length-keep_if-le p (x ∷ xs) = ground (arith, length-keep_if-le p xs)

  pub ruleset keep_if_laws = (keep_if-nil, keep_if-cons)

module _ {ℓ} {A : Type ℓ} where
  abbrev pub take : ℕ → List A → List A
  take zero xs = []
  take (suc n) [] = []
  take (suc n) (x ∷ xs) = x ∷ take n xs

  -- Does an entry pass the test?
  unfoldable pub some_of : (A → Bool) → List A → Bool
  some_of p [] = false
  some_of p (x ∷ xs) = p x || some_of p xs

  pub some_of-take :
      (p : A → Bool) (n : ℕ) (xs : List A) → some_of p (take n xs) ≡ true → some_of p xs ≡ true
  unfolding some_of
  some_of-take p zero xs h = cc
  some_of-take p (suc n) [] h = cc
  some_of-take p (suc n) (x ∷ xs) h = ground (arith, some_of-take p n xs)

  pub some_of-append :
      (p : A → Bool) (xs ys : List A) → some_of p (xs ++ ys) ≡ (some_of p xs || some_of p ys)
  unfolding some_of
  some_of-append p [] ys = refl
  some_of-append p (x ∷ xs) ys = ground (arith, some_of-append p xs ys)

  pub some_of-keep_if :
      (p q : A → Bool) (xs : List A) → some_of p (keep_if q xs) ≡ some_of (λ x. q x && p x) xs
  unfolding some_of
  some_of-keep_if p q [] = simp keep_if_laws
  some_of-keep_if p q (x ∷ xs) = rw keep_if-cons (ground (arith, some_of-keep_if p q xs))

module _ {A : Type 0} (p : A → Bool) where
  pub some_of_elim : (xs : List A) → some_of p xs ≡ true → (x : A) × OneOf x xs × (p x ≡ true)
  unfolding some_of
  some_of_elim [] h = cc
  some_of_elim (x ∷ xs) h = elim (Bool-cases (p x)) [
    | inl e ↦ (x, inl refl, e)
    | inr e ↦ let (y, m, py) = some_of_elim xs (ground arith) in (y, inr m, py)
  ]

  pub some_of_intro : (xs : List A) (x : A) → OneOf x xs → p x ≡ true → some_of p xs ≡ true
  unfolding some_of
  some_of_intro [] x m h = absurd m
  some_of_intro (y ∷ xs) x (inl e) h = ground arith
  some_of_intro (y ∷ xs) x (inr m) h = ground (arith, some_of_intro xs x m h)

  pub keep_if-OneOf : (xs : List A) (x : A) → OneOf x (keep_if p xs) → OneOf x xs × (p x ≡ true)
  keep_if-OneOf [] x m = absurd (rw keep_if-nil at m)
  keep_if-OneOf (y ∷ xs) x m = elim (Bool-cases (p y)) [
    | inl e ↦
        (let n : OneOf x (y ∷ keep_if p xs) = rw (keep_if-cons, e) at m in
          elim n [
            | inl q ↦ (inl q, ap p q ∙ e)
            | inr q ↦ let ih = keep_if-OneOf xs x q in (inr ih.0, ih.1)
          ])
    | inr e ↦
        (let n : OneOf x (keep_if p xs) = rw (keep_if-cons, e) at m in
          let ih = keep_if-OneOf xs x n in (inr ih.0, ih.1))
  ]

  pub OneOf-keep_if : (xs : List A) (x : A) → OneOf x xs → p x ≡ true → OneOf x (keep_if p xs)
  OneOf-keep_if [] x m h = absurd m
  OneOf-keep_if (y ∷ xs) x (inl q) h = rw (keep_if-cons, ← q, h) (inl refl)
  OneOf-keep_if (y ∷ xs) x (inr q) h = elim (Bool-cases (p y)) [
    | inl e ↦ rw (keep_if-cons, e) (inr (OneOf-keep_if xs x q h))
    | inr e ↦ rw (keep_if-cons, e) (OneOf-keep_if xs x q h)
  ]
