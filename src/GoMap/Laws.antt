-- ===== src/GoMap/Laws.antt =====
-- The laws of the built-in maps: look-ups after each operation, sizes, and that keys stay distinct.
use verix_dbm.Base.{
  ◌+◌, ◌≤◌, ◌≡◌, refl, Bool, List, [], ◌∷◌, Option, none, some, length, arith, if◌then◌else◌,
}
use verix_dbm.GoMap.{Key, lookup, insert, delete, sweep, Distinct}

abbrev pub unless : {V : Type 0} → (V → Bool) → Option V → Option V
unless dead none = none
unless dead (some v) = if dead v then none else some v

module _ {K : Type 0} {V : Type 0} ⦃key : Key K⦄ where
  pub lookup-insert :
      (k j : K) (v : V) (m : List (K × V))
      → lookup j (insert k v m) ≡ (if key.eq k j then some v else lookup j m)
  unfolding lookup insert
  lookup-insert k j v [] = refl
  lookup-insert k j v ((i, w) ∷ m) =
      ground (arith, key.eq_iff k j, key.eq_iff i k, key.eq_iff i j, lookup-insert k j v m)

  pub lookup-delete :
      (k j : K) (m : List (K × V))
      → Distinct m
      → lookup j (delete k m) ≡ (if key.eq k j then none else lookup j m)
  unfolding lookup delete
  lookup-delete k j [] d = ground arith
  lookup-delete k j ((i, w) ∷ m) d =
      ground (arith, key.eq_iff k j, key.eq_iff i k, key.eq_iff i j, lookup-delete k j m d.1)

  pub lookup-sweep :
      (dead : V → Bool) (j : K) (m : List (K × V))
      → Distinct m
      → lookup j (sweep dead m) ≡ unless dead (lookup j m)
  unfolding lookup sweep
  lookup-sweep dead j [] d = refl
  lookup-sweep dead j ((i, w) ∷ m) d = ground (arith, key.eq_iff i j, lookup-sweep dead j m d.1)

  pub insert-Distinct : (k : K) (v : V) (m : List (K × V)) → Distinct m → Distinct (insert k v m)
  unfolding insert lookup
  insert-Distinct k v [] d = (refl, tt)
  insert-Distinct k v ((i, w) ∷ m) d =
      ground
        (arith, key.eq_iff i k, key.eq_iff k i, lookup-insert k i v m, insert-Distinct k v m d.1)

  pub delete-Distinct : (k : K) (m : List (K × V)) → Distinct m → Distinct (delete k m)
  unfolding delete
  delete-Distinct k [] d = tt
  delete-Distinct k ((i, w) ∷ m) d =
      ground (arith, lookup-delete k i m d.1, delete-Distinct k m d.1)

  pub sweep-Distinct : (dead : V → Bool) (m : List (K × V)) → Distinct m → Distinct (sweep dead m)
  unfolding sweep
  sweep-Distinct dead [] d = tt
  sweep-Distinct dead ((i, w) ∷ m) d =
      ground (arith, lookup-sweep dead i m d.1, sweep-Distinct dead m d.1)

  -- `len(m)` grows by one at a new key, and only there.
  pub length-insert_new :
      (k : K) (v : V) (m : List (K × V)) → lookup k m ≡ none → length (insert k v m) ≡ length m + 1
  unfolding insert lookup
  length-insert_new k v [] h = omega arith
  length-insert_new k v ((i, w) ∷ m) h = ground (arith, length-insert_new k v m)

  pub length-insert_old :
      (k : K) (v w : V) (m : List (K × V)) → lookup k m ≡ some w → length (insert k v m) ≡ length m
  unfolding insert lookup
  length-insert_old k v w [] h = ground arith
  length-insert_old k v w ((i, x) ∷ m) h = ground (arith, length-insert_old k v w m)

  pub length-sweep-le : (dead : V → Bool) (m : List (K × V)) → length (sweep dead m) ≤ length m
  unfolding sweep
  length-sweep-le dead [] = omega arith
  length-sweep-le dead ((i, w) ∷ m) = ground (arith, length-sweep-le dead m)

  pub length-delete-le : (k : K) (m : List (K × V)) → length (delete k m) ≤ length m
  unfolding delete
  length-delete-le k [] = omega arith
  length-delete-le k ((i, w) ∷ m) = ground (arith, length-delete-le k m)
