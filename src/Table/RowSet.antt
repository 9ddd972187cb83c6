-- ===== src/Table/RowSet.antt =====
-- `CreateStringRangeSet` of table.cc: the keys and the ranges of a request as one set of ranges.
use bigtable_emulator.Common.{
  Bool, true, false, not, ◌&&◌, List, [], ◌∷◌, Option, none, some, ◌≡◌, refl, ltb, if◌then◌else◌,
  length, arith, Bool-cases, inl, inr,
}
use bigtable_emulator.Common.Bytes.{Bytes}
use bigtable_emulator.Status.{StatusOr, StatusOr-cases, ok, err, ◌>>=◌, invalid_argument, is_ok}
use bigtable_emulator.External.{RowKeys}
use bigtable_emulator.StringRangeSet
use bigtable_emulator.StringRangeSet.{
  Range, Bound, finite, from_bounds, is_empty, sum, value_less, start_of_bound, end_of_bound,
}
use bigtable_emulator.Table.{max_row_len}

-- `google.bigtable.v2.RowRange` and `RowSet`.
pub record RowRange : Type 0 where
  pub start_key : Bound
  pub end_key : Bound

pub record RowSet : Type 0 where
  pub row_keys : List Bytes
  pub row_ranges : List RowRange

-- The range that holds one key.
abbrev pub one_key : Bytes → Range
one_key k = record { start = finite k; start_open = false; end = finite k; end_open = false }

module _ (keys : RowKeys) where
  unfoldable pub add_row_keys : List Bytes → List Range → StatusOr (List Range)
  add_row_keys [] res = ok res
  add_row_keys (k ∷ row_keys) res =
      let rest = add_row_keys row_keys (sum keys res (one_key k)) in
      if ltb max_row_len (length k)
      then err invalid_argument
      else if bigtable_emulator.Common.is_empty k
      then err invalid_argument
      else rest

  unfoldable pub add_row_ranges : List RowRange → List Range → StatusOr (List Range)
  add_row_ranges [] res = ok res
  add_row_ranges (r ∷ row_ranges) res = elim (from_bounds keys r.start_key r.end_key) [
    | err e ↦ err e
    | ok range ↦ add_row_ranges row_ranges (if is_empty keys range then res else sum keys res range)
  ]

  unfoldable pub create_string_range_set : RowSet → StatusOr (List Range)
  unfolding add_row_keys add_row_ranges
  create_string_range_set row_set = do
    res ← add_row_keys row_set.row_keys StringRangeSet.empty
    add_row_ranges row_set.row_ranges res

  -- What is in order: keys of 1 to 4096 bytes, and ranges that are not reversed.
  abbrev pub keys_in_order : List Bytes → Bool
  keys_in_order [] = true
  keys_in_order (k ∷ row_keys) =
      not (ltb max_row_len (length k))
      && (not (bigtable_emulator.Common.is_empty k) && keys_in_order row_keys)

  abbrev pub ranges_in_order : List RowRange → Bool
  ranges_in_order [] = true
  ranges_in_order (r ∷ row_ranges) =
      not (value_less keys (end_of_bound r.end_key).0 (start_of_bound r.start_key).0)
      && ranges_in_order row_ranges

  add_row_keys-accepts :
      (row_keys : List Bytes) (res : List Range)
      → is_ok (add_row_keys row_keys res) ≡ keys_in_order row_keys
  unfolding add_row_keys
  add_row_keys-accepts [] res = refl
  add_row_keys-accepts (k ∷ row_keys) res =
      ground (arith, add_row_keys-accepts row_keys (sum keys res (one_key k)))

  from_bounds-accepts :
      (s e : Bound)
      → is_ok (from_bounds keys s e) ≡ not (value_less keys (end_of_bound e).0 (start_of_bound s).0)
  unfolding from_bounds
  from_bounds-accepts s e = ground arith

  add_row_ranges-accepts :
      (row_ranges : List RowRange) (res : List Range)
      → is_ok (add_row_ranges row_ranges res) ≡ ranges_in_order row_ranges
  unfolding add_row_ranges
  add_row_ranges-accepts [] res = refl
  add_row_ranges-accepts (r ∷ row_ranges) res =
      elim (StatusOr-cases (from_bounds keys r.start_key r.end_key)) [
        | inr (e, failed) ↦ ground (arith, failed, from_bounds-accepts r.start_key r.end_key)
        | inl (range, fine) ↦ ground (
          arith,
          fine,
          from_bounds-accepts r.start_key r.end_key,
          add_row_ranges-accepts row_ranges
              (if is_empty keys range then res else sum keys res range),
        )
      ]

  -- `CreateStringRangeSet` returns no error just if every key has 1 to 4096 bytes, and no
  -- range ends before its start.
  pub create_string_range_set-accepts :
      (row_set : RowSet)
      → is_ok (create_string_range_set row_set)
        ≡ keys_in_order row_set.row_keys && ranges_in_order row_set.row_ranges
  unfolding create_string_range_set
  create_string_range_set-accepts row_set =
      elim (StatusOr-cases (add_row_keys row_set.row_keys StringRangeSet.empty)) [
        | inr (e, failed) ↦
            ground (arith, failed, add_row_keys-accepts row_set.row_keys StringRangeSet.empty)
        | inl (res, fine) ↦ ground (
          arith,
          fine,
          add_row_keys-accepts row_set.row_keys StringRangeSet.empty,
          add_row_ranges-accepts row_set.row_ranges res,
        )
      ]
