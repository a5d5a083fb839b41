-- ===== src/Store/Rows.antt =====
-- Which grant the loop of `GrantForSubjects` ends with.
use verix_dbm.Base.{
  ℕ, zero, suc, ◌≡◌, refl, sym, ◌∙◌, inl, inr, Bool, true, false, ◌&&◌, ◌||◌, Option, none, some,
  List, [], ◌∷◌, arith, ◌==◌, Bool-cases, OneOf, keep_if, keep_if-nil, keep_if-cons, take, some_of,
  some_of-take, some_of-keep_if, Bytes, contains,
}
use verix_dbm.Store.{Store, Grant}
use verix_dbm.Store.Grants.{
  Fetch, fails, breaks_after, completes, applies, is_write, better, best_grant, fetch_best,
  grant_for_subjects,
}

abbrev pub is_found : Option Grant → Bool
is_found none = false
is_found (some g) = true

abbrev pub at_write : Option Grant → Bool
at_write none = false
at_write (some g) = is_write g

unfoldable pub always : Grant → Bool
always g = true

best_grant-is_write :
    (b : Option Grant) (rows : List Grant)
    → at_write (best_grant b rows) ≡ (at_write b || some_of is_write rows)
unfolding best_grant some_of better
best_grant-is_write b [] = ground arith
best_grant-is_write none (g ∷ rows) = ground (arith, best_grant-is_write (some g) rows)
best_grant-is_write (some b) (g ∷ rows) =
    ground (arith, best_grant-is_write (better (some b) g) rows)

best_grant-is_found :
    (b : Option Grant) (rows : List Grant)
    → is_found (best_grant b rows) ≡ (is_found b || some_of always rows)
unfolding best_grant some_of better always
best_grant-is_found b [] = ground arith
best_grant-is_found none (g ∷ rows) = ground (arith, best_grant-is_found (some g) rows)
best_grant-is_found (some b) (g ∷ rows) =
    ground (arith, best_grant-is_found (better (some b) g) rows)

-- Whether a row applies to one of the subjects, and whether a row of level write does.
unfoldable pub granted : Store → ℕ → List Bytes → Bool
granted s id subjects = some_of (applies id subjects) s.grants

unfoldable pub write_granted : Store → ℕ → List Bytes → Bool
write_granted s id subjects = some_of (λ g. applies id subjects g && is_write g) s.grants

no_subject :
    (id : ℕ) (rows : List Grant) (p : Grant → Bool)
    → some_of (λ g. applies id [] g && p g) rows ≡ false
unfolding some_of applies contains
no_subject id [] p = refl
no_subject id (g ∷ rows) p = ground (arith, no_subject id rows p)

pub no_grant : (id : ℕ) (rows : List Grant) → some_of (applies id []) rows ≡ false
unfolding some_of applies contains
no_grant id [] = refl
no_grant id (g ∷ rows) = ground (arith, no_grant id rows)

always-applies :
    (p : Grant → Bool) (rows : List Grant) → some_of (λ g. p g && always g) rows ≡ some_of p rows
unfolding some_of always
always-applies p [] = refl
always-applies p (g ∷ rows) = ground (arith, always-applies p rows)

-- The rows that a query reads, of those it asks for.
unfoldable pub read_of : Fetch → List Grant → List Grant
read_of fails rows = []
read_of (breaks_after n) rows = take n rows
read_of completes rows = rows

OneOf-take : (n : ℕ) (rows : List Grant) (g : Grant) → OneOf g (take n rows) → OneOf g rows
OneOf-take zero rows g m = absurd m
OneOf-take (suc n) [] g m = absurd m
OneOf-take (suc n) (r ∷ rows) g (inl e) = inl e
OneOf-take (suc n) (r ∷ rows) g (inr m) = inr (OneOf-take n rows g m)

pub read_of-OneOf :
    (fetch : Fetch) (rows : List Grant) (g : Grant) → OneOf g (read_of fetch rows) → OneOf g rows
unfolding read_of
read_of-OneOf fails rows g m = absurd m
read_of-OneOf (breaks_after n) rows g m = OneOf-take n rows g m
read_of-OneOf completes rows g m = m

read_of-nil : (fetch : Fetch) → read_of fetch [] ≡ []
unfolding read_of
read_of-nil fails = refl
read_of-nil (breaks_after zero) = refl
read_of-nil (breaks_after (suc n)) = refl
read_of-nil completes = refl

applies-nil : (id : ℕ) (rows : List Grant) → keep_if (applies id []) rows ≡ []
unfolding applies contains
applies-nil id [] = keep_if-nil _
applies-nil id (g ∷ rows) = elim (Bool-cases (g.conn_id == id)) [
  | inl e ↦ rw (keep_if-cons, e) (applies-nil id rows)
  | inr e ↦ rw (keep_if-cons, e) (applies-nil id rows)
]

-- There is a grant if a row has been read, and it is of level write if one of those is.
pub fetch_lem :
    (s : Store) (id : ℕ) (fetch : Fetch) (subjects : List Bytes)
    → let g = (grant_for_subjects s fetch id subjects).0 in
      let rows = read_of fetch (keep_if (applies id subjects) s.grants) in
      (is_found g ≡ some_of always rows) × (at_write g ≡ some_of is_write rows)
unfolding grant_for_subjects fetch_best read_of some_of
fetch_lem s id fetch [] = rw (applies-nil id s.grants, read_of-nil fetch) (refl, refl)
fetch_lem s id fails (t ∷ ts) = (refl, refl)
fetch_lem s id (breaks_after n) (t ∷ ts) =
    let rows = take n (keep_if (applies id (t ∷ ts)) s.grants) in
    (best_grant-is_found none rows, best_grant-is_write none rows)
fetch_lem s id completes (t ∷ ts) =
    let rows = keep_if (applies id (t ∷ ts)) s.grants in
    (best_grant-is_found none rows, best_grant-is_write none rows)

module _ (s : Store) (id : ℕ) where
  -- The whole table read: there is a grant if a row applies, and it is of level write if one is.
  pub completes_lem :
      (subjects : List Bytes)
      → let g = (grant_for_subjects s completes id subjects).0 in
        (is_found g ≡ granted s id subjects) × (at_write g ≡ write_granted s id subjects)
  unfolding grant_for_subjects fetch_best granted write_granted
  completes_lem [] = (sym (no_grant id s.grants), sym (no_subject id s.grants is_write))
  completes_lem (t ∷ ts) =
      let rows = keep_if (applies id (t ∷ ts)) s.grants in
      (
        best_grant-is_found none rows
            ∙ (some_of-keep_if always (applies id (t ∷ ts)) s.grants
                ∙ always-applies (applies id (t ∷ ts)) s.grants),
        best_grant-is_write none rows ∙ some_of-keep_if is_write (applies id (t ∷ ts)) s.grants,
      )

  -- Whatever becomes of the query, no more is found than is there.
  pub fetch_le :
      (fetch : Fetch) (subjects : List Bytes)
      → let g = (grant_for_subjects s fetch id subjects).0 in
        (is_found g ≡ true → granted s id subjects ≡ true)
        × (at_write g ≡ true → write_granted s id subjects ≡ true)
  unfolding grant_for_subjects fetch_best
  fetch_le fetch [] = ((λ h. cc), (λ h. cc))
  fetch_le fails (t ∷ ts) = ((λ h. cc), (λ h. cc))
  fetch_le (breaks_after n) (t ∷ ts) =
      let rows = keep_if (applies id (t ∷ ts)) s.grants in
      (
        λ h. ground (
          arith,
          completes_lem (t ∷ ts),
          best_grant-is_found none (take n rows),
          best_grant-is_found none rows,
          some_of-take always n rows,
        ),
        λ h. ground (
          arith,
          completes_lem (t ∷ ts),
          best_grant-is_write none (take n rows),
          best_grant-is_write none rows,
          some_of-take is_write n rows,
        ),
      )
  fetch_le completes (t ∷ ts) =
      ((λ h. ground (arith, completes_lem (t ∷ ts))), (λ h. ground (arith, completes_lem (t ∷ ts))))
