-- ===== src/Crypto.antt =====
-- internal/crypto/crypto.go: the keyring that seals stored passwords. AES-GCM, base64 and hex are the
-- parameter `Library`; nonces and generated keys are arguments.
pub mod Ring
pub mod Rotation
pub mod Env
use verix_dbm.Base.{
  ℕ, zero, suc, ◌+◌, ◌-◌, ◌*◌, ◌≤◌, ◌<◌, String, ◌≡◌, refl, sym, ap, ◌∙◌, subst, ◌≢◌, ◌↔◌, ◌⊎◌, inl,
  inr, Bool, true, false, not, ◌&&◌, ◌||◌, Option, none, some, List, [], ◌∷◌, ◌++◌, map, append-nil,
  append_assoc, arith, ltb, leb, ◌==◌, if◌then◌else◌, ==_iff, Bool-cases, Option-cases, Bool-ext,
  length, length-append, All, OneOf, keep_if, keep_if-nil, keep_if-cons, length-keep_if-le, take,
  some_of, some_of-take, some_of-append, some_of-keep_if, some_of_elim, some_of_intro,
  keep_if-OneOf, OneOf-keep_if, keep_if_laws, Bytes, codes, str_eq, str_eq_iff, str_eq_refl,
  contains, contains_iff, contains-append, ◌>>=◌, Result-cases, Result, ok, err, max_int, ℤ, pos,
  negsuc,
}
use verix_dbm.GoMap.{bytes_key, lookup, insert}
use verix_dbm.GoStrings.{cut, contains_byte, split, trim_space}

-- What the source uses of the libraries. `seal key nonce plaintext` is the ciphertext behind the
-- nonce; the two laws are the documented ones.
pub record Library : Type 0 where
  pub seal : Bytes → Bytes → Bytes → Bytes
  pub open_sealed : Bytes → Bytes → Bytes → Option Bytes
  pub b64 : Bytes → Bytes
  pub unb64 : Bytes → Option Bytes
  pub unhex : Bytes → Option Bytes
  pub open-seal : (key nonce pt : Bytes) → open_sealed key nonce (seal key nonce pt) ≡ some pt
  pub unb64-b64 : (s : Bytes) → unb64 (b64 s) ≡ some s

pub record KeySpec : Type 0 where
  pub id : Bytes
  pub material : Bytes

abbrev pub Keys : Type 0
Keys = List (Bytes × Bytes)

-- `keys` maps an id to the material of its cipher.
pub record Box : Type 0 where
  pub primary_id : Bytes
  pub keys : Keys
  pub order : List Bytes

pub data CryptoError : Type 0 where
  no_keys : CryptoError
  invalid_id : Bytes → CryptoError
  bad_length : Bytes → CryptoError
  duplicate_id : Bytes → CryptoError
  no_primary : Bytes → CryptoError
  no_key : Bytes → CryptoError
  undecodable : CryptoError
  too_short : CryptoError
  not_authentic : CryptoError
  no_key_fits : CryptoError
  bad_entry : Bytes → CryptoError
  bad_key : CryptoError
  no_entries : CryptoError

abbrev pub dollar : ℕ
dollar = b'$'

-- One round of the loop over the specs.
unfoldable pub add_key : Keys → KeySpec → Result CryptoError Keys
add_key keys s =
    if str_eq s.id [] || contains_byte dollar s.id
    then err (invalid_id s.id)
    else if not (length s.material == 32)
    then err (bad_length s.id)
    else elim (lookup s.id keys) [
      | some k ↦ err (duplicate_id s.id)
      | none ↦ ok (insert s.id s.material keys)
    ]

unfoldable pub add_keys : Keys → List KeySpec → Result CryptoError Keys
add_keys keys [] = ok keys
add_keys keys (s ∷ specs) = elim (add_key keys s) [
  | err e ↦ err e
  | ok keys' ↦ add_keys keys' specs
]

unfoldable pub others : Bytes → List KeySpec → List Bytes
others primary [] = []
others primary (s ∷ specs) =
    let rest = others primary specs in if str_eq s.id primary then rest else s.id ∷ rest

finish : Bytes → List KeySpec → Keys → Option Bytes → Result CryptoError Box
finish primary specs keys none = err (no_primary primary)
finish primary specs keys (some k) =
    ok (record { primary_id = primary; keys = keys; order = primary ∷ others primary specs })

-- `NewFromProvider`, for a provider that gives these.
unfoldable pub new_from_provider : Bytes → List KeySpec → Result CryptoError Box
unfolding finish
new_from_provider primary [] = err no_keys
new_from_provider primary (s ∷ specs) = do
  keys ← add_keys [] (s ∷ specs)
  finish primary (s ∷ specs) keys (lookup primary keys)

abbrev pub nonce_size : ℕ
nonce_size = 12

abbrev pub drop : ℕ → Bytes → Bytes
drop zero s = s
drop (suc n) [] = []
drop (suc n) (c ∷ s) = drop n s

abbrev or_err : {A : Type 0} → Option A → CryptoError → Result CryptoError A
or_err none e = err e
or_err (some a) e = ok a

module _ (lib : Library) where
  -- The helper `seal`, with the nonce.
  unfoldable pub seal : Bytes → Bytes → Bytes → Bytes
  seal key nonce plaintext = lib.b64 (nonce ++ lib.seal key nonce plaintext)

  open_data : Bytes → Bytes → Result CryptoError Bytes
  open_data key raw =
      if ltb (length raw) nonce_size
      then err too_short
      else or_err (lib.open_sealed key (take nonce_size raw) (drop nonce_size raw)) not_authentic

  -- The helper `open`.
  unfoldable pub open_payload : Bytes → Bytes → Result CryptoError Bytes
  unfolding open_data
  open_payload key payload = do raw ← or_err (lib.unb64 payload) undecodable; open_data key raw

  -- `none` is the panic on a primary id that is not in the map.
  unfoldable pub encrypt : Box → Bytes → Bytes → Option Bytes
  encrypt b nonce plaintext = elim (lookup b.primary_id b.keys) [
    | none ↦ none
    | some key ↦ some (b.primary_id ++ dollar ∷ seal key nonce plaintext)
  ]

  -- The loop over the order, for data without a key id (the ids of the order are in the map).
  unfoldable pub try_keys : Keys → List Bytes → Bytes → Result CryptoError Bytes
  try_keys keys [] enc = err no_key_fits
  try_keys keys (id ∷ ids) enc =
      let rest = try_keys keys ids enc in
      elim (lookup id keys) [
        | none ↦ rest
        | some key ↦ elim (open_payload key enc) [ ok pt ↦ ok pt | err e ↦ rest ]
      ]

  open_named : Keys → Bytes × Bytes → Result CryptoError Bytes
  open_named keys (id, payload) = elim (lookup id keys) [
    | none ↦ err (no_key id)
    | some key ↦ open_payload key payload
  ]

  unfoldable pub decrypt : Box → Bytes → Result CryptoError Bytes
  unfolding open_named
  decrypt b enc = elim (cut dollar enc) [
    | none ↦ try_keys b.keys b.order enc
    | some parts ↦ open_named b.keys parts
  ]

  -- Is the ciphertext sealed under the primary key?
  unfoldable pub is_current : Box → Bytes → Bool
  is_current b enc = elim (cut dollar enc) [
    | none ↦ false
    | some (id, payload) ↦ str_eq id b.primary_id
  ]

  unfoldable pub reencrypt : Box → Bytes → Bytes → Result CryptoError (Bytes × Bool)
  reencrypt b nonce enc = if is_current b enc then ok (enc, false) else do
    pt ← decrypt b enc
    new_enc ← or_err (encrypt b nonce pt) (no_key b.primary_id)
    ok (new_enc, true)
