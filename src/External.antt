-- ===== src/External.antt =====
-- What the code takes from libraries outside the repository, as records of operations with the
-- documented behaviour that the theorems rely on.
use Prim.Native.Nat.{Ordering}
use bigtable_emulator.Common.{Bool, true, false, ◌^◌, ◌-◌, ℤ, pos, negsuc, ◌≤ℤ◌, ◌<ℤ◌, ◌≡◌}
use bigtable_emulator.Common.Bytes.{Bytes, less_bytes}
use bigtable_emulator.Status.{StatusOr, ok}

-- google/cloud/internal/big_endian.h, at `std::int64_t`. Encoding a value in range and decoding it
-- again gives the value.
pub record BigEndian : Type 0 where
  pub encode_big_endian : ℤ → Bytes
  pub decode_big_endian : Bytes → StatusOr ℤ
  pub decode_encode :
      (n : ℤ)
      → negsuc (2 ^ 63 - 1) ≤ℤ n
      → n <ℤ pos (2 ^ 63)
      → decode_big_endian (encode_big_endian n) ≡ ok n

-- google/cloud/bigtable/internal/google_bytes_traits.h: the sign of `CompareRowKey`, which compares
-- the bytes in lexicographic order, and `ConsecutiveRowKeys`, which tells that the second key comes
-- directly after the first.
pub record RowKeys : Type 0 where
  pub compare_row_key : Bytes → Bytes → Ordering
  pub consecutive_row_keys : Bytes → Bytes → Bool
  pub compare_lt : (a b : Bytes) → less_bytes a b ≡ true → compare_row_key a b ≡ Ordering.lt
  pub compare_gt : (a b : Bytes) → less_bytes b a ≡ true → compare_row_key a b ≡ Ordering.gt
  pub compare_eq : (a : Bytes) → compare_row_key a a ≡ Ordering.eq
  pub consecutive_less : (a b : Bytes) → consecutive_row_keys a b ≡ true → less_bytes a b ≡ true
  pub nothing_between :
      (a b c : Bytes)
      → consecutive_row_keys a b ≡ true
      → less_bytes a c ≡ true
      → less_bytes c b ≡ false
