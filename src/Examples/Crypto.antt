-- ===== src/Examples/Crypto.antt =====
-- Keyrings over a library that seals by writing the plaintext.
use verix_dbm.Base.{
  ◌≡◌, refl, ◌⊎◌, true, false, none, some, List, [], ◌∷◌, Bytes, codes, str_eq, contains, ok, err,
}
use verix_dbm.GoMap.{bytes_key, lookup, insert}
use verix_dbm.GoStrings.{split, cut, trim_space, contains_byte}
use verix_dbm.Crypto.{
  open_payload, Library, KeySpec, Box, CryptoError, new_from_provider, add_keys, add_key, others,
  encrypt, decrypt, is_current, reencrypt, seal, open_payload,
}
use verix_dbm.Crypto.Ring.{IsBox, new_from_provider-IsBox, decrypt-encrypt}
use verix_dbm.Crypto.Rotation.{reencrypt_lem}
use verix_dbm.Crypto.Env.{parse_keyring, parse_multi_keys, parse_entries, parse_entry, decode_key}
use verix_dbm.Crypto.Env.Accepts.{parse_keyring-IsBox}

abbrev pub plain : Library
plain = record {
  seal = λ key nonce pt. pt;
  open_sealed = λ key nonce ct. some ct;
  b64 = λ s. s;
  unb64 = λ s. some s;
  unhex = λ s. none;
  open-seal = λ key nonce pt. refl;
  unb64-b64 = λ s. refl;
}

abbrev pub key_a : Bytes
key_a = codes "aaaaaaaaaaaaaaaaaaaaaaaaaaaaaaaa"

abbrev key_b : Bytes
key_b = codes "bbbbbbbbbbbbbbbbbbbbbbbbbbbbbbbb"

abbrev specs : List KeySpec
specs =
    (record { id = codes "2"; material = key_b })
    ∷ (record { id = codes "1"; material = key_a })
    ∷ []

-- The ring after a rotation from the key "1" to the key "2".
abbrev rotated : Box
rotated = record {
  primary_id = codes "2";
  keys = (codes "2", key_b) ∷ (codes "1", key_a) ∷ [];
  order = codes "2" ∷ codes "1" ∷ [];
}

abbrev pub before : Box
before = record { primary_id = codes "1"; keys = (codes "1", key_a) ∷ []; order = codes "1" ∷ [] }

new_from_provider-rotated : new_from_provider (codes "2") specs ≡ ok rotated
unfolding new_from_provider add_keys add_key others lookup insert contains_byte str_eq
new_from_provider-rotated = refl

new_from_provider-before :
    new_from_provider (codes "1") ((record { id = codes "1"; material = key_a }) ∷ []) ≡ ok before
unfolding new_from_provider add_keys add_key others lookup insert contains_byte str_eq
new_from_provider-before = refl

pub before-IsBox : IsBox before
before-IsBox =
    (new_from_provider-IsBox (codes "1") ((record { id = codes "1"; material = key_a }) ∷ []) before
      new_from_provider-before).0

abbrev pub nonce : Bytes
nonce = codes "nnnnnnnnnnnn"

-- Sealed before the rotation, and opened after it.
decrypt-encrypt_example :
    (enc : Bytes) × (encrypt plain before nonce (codes "secret") ≡ some enc)
    × (decrypt plain rotated enc ≡ ok (codes "secret"))
unfolding lookup str_eq
decrypt-encrypt_example =
    decrypt-encrypt plain before rotated nonce (codes "secret") before-IsBox refl refl

abbrev old_enc : Bytes
old_enc = codes "1$nnnnnnnnnnnnsecret"

abbrev new_enc : Bytes
new_enc = codes "2$nnnnnnnnnnnnsecret"

rotated-IsBox : IsBox rotated
rotated-IsBox = (new_from_provider-IsBox (codes "2") specs rotated new_from_provider-rotated).0

reencrypt_lem_example :
    ((is_current plain rotated old_enc ≡ true)
      × (reencrypt plain rotated nonce old_enc ≡ ok (old_enc, false)))
    ⊎ ((is_current plain rotated old_enc ≡ false)
        × (((e : CryptoError) × (decrypt plain rotated old_enc ≡ err e)
              × (reencrypt plain rotated nonce old_enc ≡ err e))
            ⊎ ((new_enc : Bytes) × (pt : Bytes) × (decrypt plain rotated old_enc ≡ ok pt)
                × (reencrypt plain rotated nonce old_enc ≡ ok (new_enc, true))
                × (is_current plain rotated new_enc ≡ true)
                × (decrypt plain rotated new_enc ≡ ok pt))))
reencrypt_lem_example = reencrypt_lem plain rotated rotated-IsBox nonce refl old_enc

reencrypt-old_enc : reencrypt plain rotated nonce old_enc ≡ ok (new_enc, true)
unfolding reencrypt is_current decrypt encrypt cut lookup str_eq seal open_payload
reencrypt-old_enc = refl

abbrev multi : Bytes
multi = codes "2:bbbbbbbbbbbbbbbbbbbbbbbbbbbbbbbb, 1:aaaaaaaaaaaaaaaaaaaaaaaaaaaaaaaa,"

parse_multi_keys-multi : parse_multi_keys plain multi ≡ ok (codes "2", specs)
unfolding parse_multi_keys parse_entries parse_entry decode_key split cut trim_space contains str_eq
parse_multi_keys-multi = refl

parse_keyring-IsBox_example :
    (b : Box) × (parse_keyring plain [] multi [] ≡ ok b) × IsBox b × (b.primary_id ≡ codes "2")
unfolding trim_space contains_byte
parse_keyring-IsBox_example =
    parse_keyring-IsBox plain [] multi [] (codes "2") specs (λ e. cc) parse_multi_keys-multi
      (refl, (refl, tt))
