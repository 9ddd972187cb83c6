-- ===== src/Examples.antt =====
-- Concrete parameters for the code outside the repository, and the theorems applied at concrete
-- inputs (in the child modules).
mod Gc
mod Families
mod Sets
mod Views
mod Transactions
mod Streams
mod Stored
mod Tables
mod Clusters
use Prim.Native.Nat.{Ordering}
use bigtable_emulator.Common.{
  ℕ, ◌+◌, ◌-◌, ◌*◌, ◌^◌, Bool, true, false, List, [], ◌∷◌, ℤ, pos, negsuc, ◌+ℤ◌, ◌≤ℤ◌, ◌<ℤ◌,
  truncate_div, ◌≡◌, refl, arith, if◌then◌else◌,
}
use bigtable_emulator.Common.Bytes.{Bytes, less_bytes, bytes_order}
use bigtable_emulator.Status.{StatusOr, ok, err, invalid_argument}
use bigtable_emulator.External.{BigEndian, RowKeys}
use bigtable_emulator.GcRule.{
  Duration, GcRule, Rules, Protobuf, max_age, max_num_versions, intersection, union, rule_not_set,
  nil, cons,
}

-- An encoding of the integers that can be decoded: not the big-endian one, which is not needed
-- where only the law matters.
abbrev encode : ℤ → Bytes
encode (pos n) = n ∷ []
encode (negsuc n) = 0 ∷ n ∷ []

abbrev decode : Bytes → StatusOr ℤ
decode [] = err invalid_argument
decode (n ∷ []) = ok (pos n)
decode (m ∷ n ∷ []) = ok (negsuc n)
decode (m ∷ n ∷ k ∷ rest) = err invalid_argument

decode-encode : (n : ℤ) → negsuc (2 ^ 63 - 1) ≤ℤ n → n <ℤ pos (2 ^ 63) → decode (encode n) ≡ ok n
decode-encode (pos n) low high = refl
decode-encode (negsuc n) low high = refl

abbrev big_endian : BigEndian
big_endian = record {
  encode_big_endian = encode;
  decode_big_endian = decode;
  decode_encode = decode-encode;
}

-- Keys of any length over any numbers: between two of them there is always another one.
abbrev compare_keys : Bytes → Bytes → Ordering
compare_keys a b =
    if less_bytes a b then Ordering.lt else if less_bytes b a then Ordering.gt else Ordering.eq

compare_keys-gt : (a b : Bytes) → less_bytes b a ≡ true → compare_keys a b ≡ Ordering.gt
compare_keys-gt a b h = ground (arith, bytes_order.less_trans a b a, bytes_order.less_irrefl a)

compare_keys-lt : (a b : Bytes) → less_bytes a b ≡ true → compare_keys a b ≡ Ordering.lt
compare_keys-lt a b h = ground arith

compare_keys-eq : (a : Bytes) → compare_keys a a ≡ Ordering.eq
compare_keys-eq a = ground (arith, bytes_order.less_irrefl a)

none_consecutive : false ≡ true → ⊥
none_consecutive h = ground arith

abbrev row_keys : RowKeys
row_keys = record {
  compare_row_key = compare_keys;
  consecutive_row_keys = λ a b. false;
  compare_lt = compare_keys-lt;
  compare_gt = compare_keys-gt;
  compare_eq = compare_keys-eq;
  consecutive_less = λ a b h. absurd (none_consecutive h);
  nothing_between = λ a b c h. absurd (none_consecutive h);
}

abbrev to_milliseconds : ℤ → ℤ
to_milliseconds (pos n) = pos (n * 1000)
to_milliseconds (negsuc n) = negsuc (n * 1000 + 999)

abbrev mutual
  size : GcRule → ℕ
  size (max_age d) = 4
  size (max_num_versions n) = 2
  size (intersection rs) = size_of_rules rs
  size (union rs) = size_of_rules rs
  size rule_not_set = 0

  size_of_rules : Rules → ℕ
  size_of_rules nil = 0
  size_of_rules (cons r rs) = size r + 4 + size_of_rules rs

abbrev protobuf : Protobuf
protobuf = record {
  duration_to_milliseconds = λ d. to_milliseconds d.seconds +ℤ truncate_div d.nanos 1000000;
  byte_size_long = size;
}
