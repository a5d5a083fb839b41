-- ===== src/Crypto/Env.antt =====
-- `New`, `ParseKeyring` and `parseMultiKeys`: the ring that the environment describes. The generated
-- key of `New` is an argument.
pub mod Accepts
use verix_dbm.Base.{
  ℕ, zero, suc, ◌+◌, ◌-◌, ◌*◌, ◌≤◌, ◌<◌, String, ◌≡◌, refl, sym, ap, ◌∙◌, subst, ◌≢◌, ◌↔◌, ◌⊎◌, inl,
  inr, Bool, true, false, not, ◌&&◌, ◌||◌, Option, none, some, List, [], ◌∷◌, ◌++◌, map, append-nil,
  append_assoc, arith, ltb, leb, ◌==◌, if◌then◌else◌, ==_iff, Bool-cases, Option-cases, Bool-ext,
  length, length-append, All, OneOf, keep_if, keep_if-nil, keep_if-cons, length-keep_if-le, take,
  some_of, some_of-take, some_of-append, some_of-keep_if, some_of_elim, some_of_intro,
  keep_if-OneOf, OneOf-keep_if, keep_if_laws, Bytes, codes, str_eq, str_eq_iff, str_eq_refl,
  contains, contains_iff, contains-append, ◌>>=◌, Result-cases, Result, ok, err, max_int, ℤ, pos,
  negsuc,
}
use verix_dbm.GoStrings.{cut, split, trim_space}
use verix_dbm.Crypto.{
  Library, KeySpec, Box, CryptoError, bad_entry, bad_key, duplicate_id, no_entries,
  new_from_provider,
}

-- The text, decoded, if it has 32 bytes.
unfoldable pub if_32 : Option Bytes → Option Bytes
if_32 none = none
if_32 (some key) = if length key == 32 then some key else none

unfoldable pub first_of_two : Option Bytes → Option Bytes → Result CryptoError Bytes
first_of_two (some a) _ = ok a
first_of_two none (some b) = ok b
first_of_two none none = err bad_key

-- `decodeKey`: hex before base64.
unfoldable pub decode_key : Library → Bytes → Result CryptoError Bytes
unfolding if_32 first_of_two
decode_key lib key = first_of_two (if_32 (lib.unhex key)) (if_32 (lib.unb64 key))

-- An entry `id:key`, trimmed, with the ids seen so far.
unfoldable pub parse_entry : Library → Bytes → List Bytes → Result CryptoError KeySpec
parse_entry lib entry seen = elim (cut b':' entry) [
  | none ↦ err (bad_entry entry)
  | some (before, key) ↦
      (let id = trim_space before in
        if str_eq id []
        then err (bad_entry entry)
        else if contains seen id
        then err (duplicate_id id)
        else do raw ← decode_key lib (trim_space key); ok (record { id = id; material = raw }))
]

-- The loop over the entries. Blank ones are passed over.
unfoldable pub parse_entries : Library → List Bytes → List Bytes → Result CryptoError (List KeySpec)
parse_entries lib [] seen = ok []
parse_entries lib (e ∷ es) seen = elim (str_eq (trim_space e) []) [
  | true ↦ parse_entries lib es seen
  | false ↦ elim (parse_entry lib (trim_space e) seen) [
    | err x ↦ err x
    | ok s ↦ elim (parse_entries lib es (s.id ∷ seen)) [ err x ↦ err x | ok rest ↦ ok (s ∷ rest) ]
  ]
]

-- The first id is the primary.
unfoldable pub with_primary : List KeySpec → Result CryptoError (Bytes × List KeySpec)
with_primary [] = err no_entries
with_primary (s ∷ specs) = ok (s.id, s ∷ specs)

unfoldable pub parse_multi_keys : Library → Bytes → Result CryptoError (Bytes × List KeySpec)
unfolding with_primary
parse_multi_keys lib multi = do specs ← parse_entries lib (split b',' multi) []; with_primary specs

single_key : Library → Bytes → Bytes → Result CryptoError Bytes
single_key lib key fresh = if str_eq key [] then ok fresh else decode_key lib key

unfoldable pub new : Library → Bytes → Bytes → Result CryptoError Box
unfolding single_key
new lib key fresh = do
  raw ← single_key lib key fresh
  new_from_provider (codes "1") ((record { id = codes "1"; material = raw }) ∷ [])

unfoldable pub parse_keyring : Library → Bytes → Bytes → Bytes → Result CryptoError Box
parse_keyring lib single multi fresh =
    if str_eq (trim_space multi) []
    then new lib single fresh
    else do parsed ← parse_multi_keys lib multi; new_from_provider parsed.0 parsed.1
