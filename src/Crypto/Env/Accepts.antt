-- ===== src/Crypto/Env/Accepts.antt =====
-- Parsed lists of keys, and the rings that come of them.
use verix_dbm.Base.{
  ◌≡◌, refl, sym, subst, ◌≢◌, inl, inr, false, none, some, List, [], ◌∷◌, arith, Bool-cases,
  Option-cases, length, All, Bytes, str_eq, str_eq_iff, str_eq_refl, contains, contains-cons,
  Result-cases, ok,
}
use verix_dbm.GoMap.{bytes_key, lookup, insert}
use verix_dbm.GoMap.Laws.{lookup-insert}
use verix_dbm.GoStrings.{cut, split, trim_space, contains_byte}
use verix_dbm.Crypto.{
  Library, KeySpec, Keys, Box, dollar, add_key, add_keys, new_from_provider, others,
}
use verix_dbm.Crypto.Ring.{IsBox, new_from_provider-IsBox}
use verix_dbm.Crypto.Env.{decode_key, parse_entry, parse_entries, parse_multi_keys, parse_keyring}

-- Ids are set and differ, from one another and from those seen before; keys have 32 bytes.
abbrev Specs : List Bytes → List KeySpec → Type 0
Specs seen [] = Unit {0}
Specs seen (s ∷ specs) =
    (s.id ≢ [])
    × (length s.material ≡ 32)
    × (contains seen s.id ≡ false)
    × Specs (s.id ∷ seen) specs

decode_key-length :
    (lib : Library) (key raw : Bytes) → decode_key lib key ≡ ok raw → length raw ≡ 32
unfolding decode_key
decode_key-length lib key raw h =
    ground (arith, Option-cases (lib.unhex key), Option-cases (lib.unb64 key))

parse_entry-ok :
    (lib : Library) (entry : Bytes) (seen : List Bytes) (s : KeySpec)
    → parse_entry lib entry seen ≡ ok s
    → (s.id ≢ []) × (length s.material ≡ 32) × (contains seen s.id ≡ false)
unfolding parse_entry
parse_entry-ok lib entry seen s h = elim (Option-cases (cut b':' entry)) [
  | inl e ↦ absurd (ground arith)
  | inr ((before, key), e) ↦ elim (Result-cases (decode_key lib (trim_space key))) [
    | inr (x, m) ↦ absurd (ground arith)
    | inl (raw, m) ↦
        ground
          (arith, str_eq_iff (trim_space before) [], decode_key-length lib (trim_space key) raw m)
  ]
]

parse_entries-Specs :
    (lib : Library) (es seen : List Bytes) (specs : List KeySpec)
    → parse_entries lib es seen ≡ ok specs
    → Specs seen specs
unfolding parse_entries
parse_entries-Specs lib [] seen specs h =
    let q : [] ≡ specs = ground arith in subst (Specs seen) q tt
parse_entries-Specs lib (e ∷ es) seen specs h = elim (Bool-cases (str_eq (trim_space e) [])) [
  | inl blank ↦ parse_entries-Specs lib es seen specs (ground arith)
  | inr full ↦ elim (Result-cases (parse_entry lib (trim_space e) seen)) [
    | inr (x, m) ↦ absurd (ground arith)
    | inl (s, m) ↦ elim (Result-cases (parse_entries lib es (s.id ∷ seen))) [
      | inr (x, n) ↦ absurd (ground arith)
      | inl (rest, n) ↦
          (let first = parse_entry-ok lib (trim_space e) seen s m in
            let q : s ∷ rest ≡ specs = ground arith in
            subst (Specs seen) q
              (first.0, first.1, first.2, parse_entries-Specs lib es (s.id ∷ seen) rest n))
    ]
  ]
]

abbrev pub NoDollars : List KeySpec → Type 0
NoDollars = All (λ (s : KeySpec). contains_byte dollar s.id ≡ false)

abbrev Has : Bytes → Keys → Type 0
Has id keys = (key : Bytes) × (lookup id keys ≡ some key)

-- The ids of the map have been seen.
abbrev Covers : List Bytes → Keys → Type 0
Covers seen keys = (id : Bytes) → contains seen id ≡ false → lookup id keys ≡ none

record Added (keys : Keys) (specs : List KeySpec) : Type 0 where
  result : Keys
  added : add_keys keys specs ≡ ok result
  keeps : (id : Bytes) → Has id keys → Has id result
  holds : All (λ (s : KeySpec). Has s.id result) specs

insert-Has : (keys : Keys) (k key id : Bytes) → Has id keys → Has id (insert k key keys)
insert-Has keys k key id (x, h) = elim (Bool-cases (str_eq k id)) [
  | inl e ↦ (key, rw lookup-insert (rw e refl))
  | inr e ↦ (x, rw lookup-insert (rw e h))
]

insert-Covers :
    (seen : List Bytes) (keys : Keys) (k key : Bytes)
    → Covers seen keys
    → Covers (k ∷ seen) (insert k key keys)
insert-Covers seen keys k key c id h =
    ground (arith, c id, lookup-insert k id key keys, contains-cons k seen id)

add_keys-Added :
    (seen : List Bytes) (keys : Keys) (specs : List KeySpec)
    → Covers seen keys
    → Specs seen specs
    → NoDollars specs
    → Added keys specs
unfolding add_keys
add_keys-Added seen keys [] c v d = record {
  result = keys;
  added = refl;
  keeps = λ id h. h;
  holds = tt;
}
add_keys-Added seen keys (s ∷ specs) c v d =
    let step : add_key keys s ≡ ok (insert s.id s.material keys) =
      unfold add_key in ground (arith, v.0, v.1, d.0, c s.id v.2, str_eq_iff s.id []) in
    let ih =
      add_keys-Added (s.id ∷ seen) (insert s.id s.material keys) specs
        (insert-Covers seen keys s.id s.material c) v.3 d.1 in
    record {
      result = ih.result;
      added = rw (add_keys, step) ih.added;
      keeps = λ id h. ih.keeps id (insert-Has keys s.id s.material id h);
      holds = (ih.keeps s.id (s.material, rw lookup-insert (rw (str_eq_refl s.id) refl)), ih.holds);
    }

new_from_provider-Specs :
    (s : KeySpec) (specs : List KeySpec)
    → Specs [] (s ∷ specs)
    → NoDollars (s ∷ specs)
    → (b : Box) × (new_from_provider s.id (s ∷ specs) ≡ ok b)
unfolding new_from_provider
new_from_provider-Specs s specs v d =
    let all = add_keys-Added [] [] (s ∷ specs) (λ id h. unfold lookup in refl) v d in
    (
      record { primary_id = s.id; keys = all.result; order = s.id ∷ others s.id (s ∷ specs) },
      rw (all.added, all.holds.0.1) refl,
    )

parse_multi_keys-Specs :
    (lib : Library) (multi primary : Bytes) (specs : List KeySpec)
    → parse_multi_keys lib multi ≡ ok (primary, specs)
    → (s : KeySpec) × (rest : List KeySpec) × (specs ≡ s ∷ rest) × (primary ≡ s.id) × Specs [] specs
unfolding parse_multi_keys
parse_multi_keys-Specs lib multi primary specs h =
    elim (Result-cases (parse_entries lib (split b',' multi) [])) [
      | inr (x, m) ↦ absurd (ground arith)
      | inl ([], m) ↦ absurd (ground arith)
      | inl (s ∷ rest, m) ↦
          (let q : s ∷ rest ≡ specs = ground arith in
            (
              s,
              rest,
              sym q,
              ground arith,
              subst (Specs []) q (parse_entries-Specs lib _ [] (s ∷ rest) m),
            ))
    ]

-- If `DBM_ENC_KEYS` is not blank, its entries parse and no id has a `$`, then the ring is made; its
-- primary id is that of the first entry, and it is a box that opens what it seals. The parser does
-- not let through what the ring would refuse for another reason.
pub parse_keyring-IsBox :
    (lib : Library) (single multi fresh primary : Bytes) (specs : List KeySpec)
    → trim_space multi ≢ []
    → parse_multi_keys lib multi ≡ ok (primary, specs)
    → NoDollars specs
    → (b : Box) × (parse_keyring lib single multi fresh ≡ ok b) × IsBox b × (b.primary_id ≡ primary)
unfolding parse_keyring
parse_keyring-IsBox lib single multi fresh primary specs blank parsed d =
    let (s, rest, q, p, v) = parse_multi_keys-Specs lib multi primary specs parsed in
    let (b, made) = new_from_provider-Specs s rest (subst (Specs []) q v) (subst NoDollars q d) in
    let made' : new_from_provider primary specs ≡ ok b = rw (p, q) made in
    let box = new_from_provider-IsBox primary specs b made' in
    (b, ground (arith, str_eq_iff (trim_space multi) []), box.0, box.1)
