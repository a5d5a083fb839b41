-- ===== src/GoMap.antt =====
-- Go's built-in maps, as association lists in which a key stands once. The order of the entries is
-- one of the orders in which `range` may visit them.
pub mod Laws
use verix_dbm.Base.{
  ℕ, ◌≡◌, ◌↔◌, Bool, true, List, [], ◌∷◌, Option, none, some, Bytes, str_eq, str_eq_iff, ◌==◌,
  ==_iff, if◌then◌else◌,
}

-- Keys that can be compared.
pub record Key (K : Type 0) : Type 0 where
  pub eq : K → K → Bool
  pub eq_iff : (a b : K) → (eq a b ≡ true) ↔ (a ≡ b)

instance abbrev pub nat_key : Key ℕ
nat_key = record { eq = ◌==◌; eq_iff = ==_iff }

instance abbrev pub bytes_key : Key Bytes
bytes_key = record { eq = str_eq; eq_iff = str_eq_iff }

module _ {K : Type 0} {V : Type 0} ⦃key : Key K⦄ where
  -- `v, ok := m[k]`
  unfoldable pub lookup : K → List (K × V) → Option V
  lookup k [] = none
  lookup k ((j, v) ∷ m) = if key.eq j k then some v else lookup k m

  -- `m[k] = v`
  unfoldable pub insert : K → V → List (K × V) → List (K × V)
  insert k v [] = (k, v) ∷ []
  insert k v ((j, w) ∷ m) = if key.eq j k then (k, v) ∷ m else (j, w) ∷ insert k v m

  -- `delete(m, k)`
  unfoldable pub delete : K → List (K × V) → List (K × V)
  delete k [] = []
  delete k ((j, v) ∷ m) = let rest = delete k m in if key.eq j k then m else (j, v) ∷ rest

  -- `for k, v := range m { if dead(v) { delete(m, k) } }`
  unfoldable pub sweep : (V → Bool) → List (K × V) → List (K × V)
  sweep dead [] = []
  sweep dead ((j, v) ∷ m) = let rest = sweep dead m in if dead v then rest else (j, v) ∷ rest

  -- No key stands twice.
  abbrev pub Distinct : List (K × V) → Type 0
  Distinct [] = Unit {0}
  Distinct ((j, v) ∷ m) = (lookup j m ≡ none) × Distinct m
