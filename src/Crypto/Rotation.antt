-- ===== src/Crypto/Rotation.antt =====
-- Re-encryption under the primary key.
use verix_dbm.Base.{
  ◌≡◌, refl, ◌⊎◌, inl, inr, Bool, true, false, some, ◌∷◌, ◌++◌, arith, Bool-cases, length, Bytes,
  str_eq_refl, Result-cases, ok, err,
}
use verix_dbm.GoMap.{bytes_key}
use verix_dbm.Crypto.{
  Library, Box, CryptoError, dollar, nonce_size, seal, encrypt, decrypt, is_current, reencrypt,
}
use verix_dbm.Crypto.Ring.{IsBox, cut-encrypt, decrypt-encrypt}

module _ (lib : Library) (b : Box) (v : IsBox b) (nonce : Bytes)
    (h : length nonce ≡ nonce_size) where
  encrypt-is_current :
      (pt enc : Bytes) → encrypt lib b nonce pt ≡ some enc → is_current lib b enc ≡ true
  unfolding is_current
  encrypt-is_current pt enc e =
      let (key, found, f, at_dollar) = cut-encrypt lib b nonce pt v in
      let same : enc ≡ b.primary_id ++ dollar ∷ seal lib key nonce pt = ground arith in
      rw (same, is_current, at_dollar) (str_eq_refl b.primary_id)

  -- Re-encrypting fails exactly when decrypting does and the text is not under the primary key
  -- already; else the result is under the primary key and decrypts to the same plaintext, or the
  -- same error if it was left as it is.
  pub reencrypt_lem :
      (enc : Bytes)
      → ((is_current lib b enc ≡ true) × (reencrypt lib b nonce enc ≡ ok (enc, false)))
        ⊎ ((is_current lib b enc ≡ false)
            × (((e : CryptoError) × (decrypt lib b enc ≡ err e)
                  × (reencrypt lib b nonce enc ≡ err e))
                ⊎ ((new_enc : Bytes) × (pt : Bytes) × (decrypt lib b enc ≡ ok pt)
                    × (reencrypt lib b nonce enc ≡ ok (new_enc, true))
                    × (is_current lib b new_enc ≡ true)
                    × (decrypt lib b new_enc ≡ ok pt))))
  unfolding reencrypt
  reencrypt_lem enc = elim (Bool-cases (is_current lib b enc)) [
    | inl e ↦ inl (e, rw (reencrypt, e) refl)
    | inr e ↦ elim (Result-cases (decrypt lib b enc)) [
      | inr (x, m) ↦ inr (e, inl (x, m, rw (reencrypt, e, m) refl))
      | inl (pt, m) ↦
          (let (new_enc, f, d) = decrypt-encrypt lib b b nonce pt v h refl in
            inr (
              e,
              inr (
                new_enc,
                pt,
                m,
                rw (reencrypt, e, m, f) refl,
                encrypt-is_current pt new_enc f,
                d,
              ),
            ))
    ]
  ]

  -- A second run changes nothing.
  pub reencrypt_idem :
      (enc new_enc nonce' : Bytes) (changed : Bool)
      → reencrypt lib b nonce enc ≡ ok (new_enc, changed)
      → reencrypt lib b nonce' new_enc ≡ ok (new_enc, false)
  unfolding reencrypt
  reencrypt_idem enc new_enc nonce' changed e = elim (reencrypt_lem enc) [
    | inl (c, f) ↦ ground arith
    | inr (c, inl (x, m, f)) ↦ absurd (ground arith)
    | inr (c, inr (n, pt, m, f, cur, d)) ↦ ground arith
  ]
