-- ===== src/Base/Ints.antt =====
-- `int` and `int64` of the source, and their bound from above.
use Prim.Native.Nat.{ℕ, ◌-◌, ◌^◌, ◌%◌}
use verix_dbm.Base.Tests.{if◌then◌else◌, ltb}

-- `negsuc n` is -(n + 1).
pub data ℤ : Type 0 where
  pos : ℕ → ℤ
  negsuc : ℕ → ℤ

abbrev pub max_int : ℕ
max_int = 2 ^ 63 - 1

-- The 64 bits of a product that is not negative, read as an `int`.
unfoldable pub wrapped : ℕ → ℤ
wrapped n =
    let bits = n % 2 ^ 64 in if ltb bits (2 ^ 63) then pos bits else negsuc (2 ^ 64 - 1 - bits)
