-- ===== src/Crypto/Ring.antt =====
-- Rings that are well formed, and sealing under them.
use verix_dbm.Base.{
  ℕ, zero, suc, ◌≡◌, refl, ap, subst, ◌≢◌, inl, inr, false, some, List, [], ◌∷◌, ◌++◌, arith,
  Option-cases, length, length-append, take, Bytes, str_eq_iff, Result-cases, ok,
}
use verix_dbm.GoMap.{bytes_key, lookup, insert, Distinct}
use verix_dbm.GoMap.Laws.{lookup-insert, insert-Distinct}
use verix_dbm.GoStrings.{cut, contains_byte}
use verix_dbm.GoStrings.Laws.{cut-append}
use verix_dbm.Crypto.{
  Library, KeySpec, Keys, Box, dollar, add_key, add_keys, new_from_provider, nonce_size, drop, seal,
  open_payload, encrypt, decrypt, open_named,
}

abbrev pub ValidId : Bytes → Type 0
ValidId id = (id ≢ []) × (contains_byte dollar id ≡ false)

-- Every id that finds a key is valid, and its key has 32 bytes.
pub record IsRing (keys : Keys) : Type 0 where
  pub distinct : Distinct keys
  pub entries : (id key : Bytes) → lookup id keys ≡ some key → ValidId id × (length key ≡ 32)

-- A box as `NewFromProvider` makes it.
pub record IsBox (b : Box) : Type 0 where
  pub ring : IsRing b.keys
  pub primary : (key : Bytes) × (lookup b.primary_id b.keys ≡ some key)

add_key-IsRing :
    (keys keys' : Keys) (s : KeySpec) → IsRing keys → add_key keys s ≡ ok keys' → IsRing keys'
unfolding add_key
add_key-IsRing keys keys' s v h = elim (Option-cases (lookup s.id keys)) [
  | inr (k, e) ↦ absurd (ground arith)
  | inl e ↦
      (let added : (keys' ≡ insert s.id s.material keys) × ValidId s.id × (length s.material ≡ 32) =
          ground (arith, str_eq_iff s.id []) in
        rw added.0 (record {
          distinct = insert-Distinct s.id s.material keys v.distinct;
          entries = λ id key found. ground (
            arith,
            lookup-insert s.id id s.material keys,
            str_eq_iff s.id id,
            v.entries id key,
            added.1,
            added.2,
          );
        }))
]

add_keys-IsRing :
    (keys keys' : Keys) (specs : List KeySpec)
    → IsRing keys
    → add_keys keys specs ≡ ok keys'
    → IsRing keys'
unfolding add_keys
add_keys-IsRing keys keys' [] v h = subst IsRing (ground arith) v
add_keys-IsRing keys keys' (s ∷ specs) v h = elim (Result-cases (add_key keys s)) [
  | inr (e, m) ↦ absurd (ground arith)
  | inl (more, m) ↦ add_keys-IsRing more keys' specs (add_key-IsRing keys more s v m) (ground arith)
]

nil-IsRing : IsRing []
unfolding lookup
nil-IsRing = record { distinct = tt; entries = λ id key h. cc }

-- A ring that `NewFromProvider` accepts has its primary key, each key has 32 bytes, and each id is
-- not empty and has no `$`.
pub new_from_provider-IsBox :
    (primary : Bytes) (specs : List KeySpec) (b : Box)
    → new_from_provider primary specs ≡ ok b
    → IsBox b × (b.primary_id ≡ primary)
unfolding new_from_provider
new_from_provider-IsBox primary [] b h = absurd (ground arith)
new_from_provider-IsBox primary (s ∷ specs) b h = elim (Result-cases (add_keys [] (s ∷ specs))) [
  | inr (e, m) ↦ absurd (ground arith)
  | inl (keys, m) ↦ elim (Option-cases (lookup primary keys)) [
    | inl n ↦ absurd (ground arith)
    | inr (key, n) ↦ (
      record {
        ring = subst IsRing (ground arith) (add_keys-IsRing [] keys (s ∷ specs) nil-IsRing m);
        primary = (key, ground arith);
      },
      ground arith,
    )
  ]
]

take-append : (n : ℕ) (s t : Bytes) → length s ≡ n → take n (s ++ t) ≡ s
take-append zero [] t h = refl
take-append zero (c ∷ s) t h = absurd (omega arith)
take-append (suc n) [] t h = absurd (omega arith)
take-append (suc n) (c ∷ s) t h = ap (λ (r : Bytes). c ∷ r) (take-append n s t (omega arith))

drop-append : (n : ℕ) (s t : Bytes) → length s ≡ n → drop n (s ++ t) ≡ t
drop-append zero [] t h = refl
drop-append zero (c ∷ s) t h = absurd (omega arith)
drop-append (suc n) [] t h = absurd (omega arith)
drop-append (suc n) (c ∷ s) t h = drop-append n s t (omega arith)

module _ (lib : Library) where
  -- A payload opens under the key that sealed it.
  pub open_payload-seal :
      (key nonce pt : Bytes)
      → length nonce ≡ nonce_size
      → open_payload lib key (seal lib key nonce pt) ≡ ok pt
  unfolding open_payload seal
  open_payload-seal key nonce pt h =
      let c = lib.seal key nonce pt in
      rw (lib.unb64-b64, take-append 12 nonce c h, drop-append 12 nonce c h, lib.open-seal)
        (ground (arith, length-append nonce c))

  -- The primary id of a box has a key and no `$`, so what `Encrypt` writes is cut behind the id.
  pub cut-encrypt :
      (b : Box) (nonce pt : Bytes)
      → IsBox b
      → (key : Bytes) × (lookup b.primary_id b.keys ≡ some key)
        × (encrypt lib b nonce pt ≡ some (b.primary_id ++ dollar ∷ seal lib key nonce pt))
        × (cut dollar (b.primary_id ++ dollar ∷ seal lib key nonce pt)
            ≡ some (b.primary_id, seal lib key nonce pt))
  unfolding encrypt
  cut-encrypt b nonce pt v =
      let (key, found) = v.primary in
      (
        key,
        found,
        rw (encrypt, found) refl,
        cut-append dollar b.primary_id _ (v.ring.entries b.primary_id key found).0.1,
      )

  -- `Encrypt` does not fail on such a box, and every box with the same key under the primary id
  -- decrypts the result to the plaintext: so does this box, and so does one whose primary key has
  -- been rotated since.
  pub decrypt-encrypt :
      (b c : Box) (nonce pt : Bytes)
      → IsBox b
      → length nonce ≡ nonce_size
      → lookup b.primary_id c.keys ≡ lookup b.primary_id b.keys
      → (enc : Bytes) × (encrypt lib b nonce pt ≡ some enc) × (decrypt lib c enc ≡ ok pt)
  unfolding decrypt
  decrypt-encrypt b c nonce pt v h same =
      let (key, found, e, at_dollar) = cut-encrypt b nonce pt v in
      (
        b.primary_id ++ dollar ∷ seal lib key nonce pt,
        e,
        rw (decrypt, at_dollar)
            (rw (same, open_named) (rw (found, open_named) (open_payload-seal key nonce pt h))),
      )
