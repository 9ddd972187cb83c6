-- ===== src/StringRangeSet/Compare.antt =====
-- `CompareRangeValues` is a total order of the values, with infinity last.
use Prim.Native.Nat.{Ordering}
use bigtable_emulator.Common.{true, ◌≡◌, ◌≢◌, refl, ap, arith, if◌then◌else◌, Bool-cases, inl, inr}
use bigtable_emulator.Common.Bytes.{Bytes, less_bytes, bytes_order, eq_of_eq_bytes}
use bigtable_emulator.External.{RowKeys}
use bigtable_emulator.StringRangeSet.{
  Value, infinity, finite, is_infinity, eq_value, compare_range_values, consecutive_row_keys,
}

abbrev flip : Ordering → Ordering
flip Ordering.lt = Ordering.gt
flip Ordering.eq = Ordering.eq
flip Ordering.gt = Ordering.lt

module _ (keys : RowKeys) where
  -- What the comparison of two keys is, by their order.
  pub key-cases :
      (a b : Bytes)
      → keys.compare_row_key a b ≡ (
          if less_bytes a b
          then Ordering.lt
          else if less_bytes b a
          then Ordering.gt
          else Ordering.eq)
  key-cases a b = elim (Bool-cases (less_bytes a b)) [
    | inl h ↦ rw h (keys.compare_lt a b h)
    | inr h ↦ elim (Bool-cases (less_bytes b a)) [
      | inl k ↦ rw (h, k) (keys.compare_gt a b k)
      | inr k ↦ let e : a ≡ b = bytes_order.less_connex a b h k in rw (h, k, e) (keys.compare_eq b)
    ]
  ]

  pub compare_refl : (a : Value) → compare_range_values keys a a ≡ Ordering.eq
  unfolding compare_range_values
  compare_refl infinity = refl
  compare_refl (finite k) = keys.compare_eq k

  pub eq_of_compare : (a b : Value) → compare_range_values keys a b ≡ Ordering.eq → a ≡ b
  unfolding compare_range_values
  eq_of_compare infinity infinity h = refl
  eq_of_compare infinity (finite k) h = ground arith
  eq_of_compare (finite k) infinity h = ground arith
  eq_of_compare (finite k) (finite j) h =
      ap finite (
        bytes_order.less_connex k j (ground (arith, key-cases k j)) (ground (arith, key-cases k j)))

  pub compare_flip :
      (a b : Value) → compare_range_values keys b a ≡ flip (compare_range_values keys a b)
  unfolding compare_range_values
  compare_flip infinity infinity = refl
  compare_flip infinity (finite k) = refl
  compare_flip (finite k) infinity = refl
  compare_flip (finite k) (finite j) =
      ground (
        arith,
        key-cases k j,
        key-cases j k,
        bytes_order.less_trans k j k,
        bytes_order.less_irrefl k,
      )

  pub compare_trans :
      (a b c : Value)
      → compare_range_values keys a b ≡ Ordering.lt
      → compare_range_values keys b c ≡ Ordering.lt
      → compare_range_values keys a c ≡ Ordering.lt
  unfolding compare_range_values
  compare_trans infinity infinity c h k = ground arith
  compare_trans infinity (finite j) c h k = ground arith
  compare_trans (finite i) infinity infinity h k = ground arith
  compare_trans (finite i) infinity (finite c) h k = ground arith
  compare_trans (finite i) (finite j) infinity h k = refl
  compare_trans (finite i) (finite j) (finite c) h k =
      ground (arith, key-cases i j, key-cases j c, key-cases i c, bytes_order.less_trans i j c)

  pub eq_of_eq_value : (a b : Value) → eq_value a b ≡ true → a ≡ b
  eq_of_eq_value infinity infinity h = refl
  eq_of_eq_value infinity (finite k) h = ground arith
  eq_of_eq_value (finite k) infinity h = ground arith
  eq_of_eq_value (finite k) (finite j) h = ap finite (eq_of_eq_bytes k j h)

  -- Nothing lies between consecutive keys.
  pub consecutive_next :
      (a b c : Value)
      → consecutive_row_keys keys a b ≡ true
      → compare_range_values keys c a ≡ Ordering.gt
      → compare_range_values keys c b ≢ Ordering.lt
  unfolding consecutive_row_keys compare_range_values
  consecutive_next infinity b c h k = ground arith
  consecutive_next (finite i) infinity c h k = ground arith
  consecutive_next (finite i) (finite j) infinity h k = ground arith
  consecutive_next (finite i) (finite j) (finite c) h k =
      ground (arith, key-cases c i, key-cases c j, keys.nothing_between i j c)

  pub consecutive_lt :
      (a b : Value)
      → consecutive_row_keys keys a b ≡ true
      → compare_range_values keys a b ≡ Ordering.lt
  unfolding consecutive_row_keys compare_range_values
  consecutive_lt infinity b h = ground arith
  consecutive_lt (finite i) infinity h = ground arith
  consecutive_lt (finite i) (finite j) h = keys.compare_lt i j (keys.consecutive_less i j h)

  pub infinity_last :
      (a : Value) (k : Bytes)
      → is_infinity a ≡ true
      → compare_range_values keys (finite k) a ≡ Ordering.lt
  unfolding compare_range_values
  infinity_last infinity k h = refl
  infinity_last (finite j) k h = ground arith
