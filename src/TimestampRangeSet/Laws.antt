-- ===== src/TimestampRangeSet/Laws.antt =====
-- Time stamp ranges are a range type in the sense of `RangeSet.Laws`.
use bigtable_emulator.Common.{arith, refl}
use bigtable_emulator.RangeSet.Laws.{IsRangeType}
use bigtable_emulator.TimestampRangeSet.{
  timestamp_range, start_less, end_less, has_overlap, disjoint_and_sorted_ranges_adjacent,
  set_start, set_end, is_empty, is_below_start, is_above_end,
}

-- The operations of `TimestampRangeSet::Range` have the laws of a range type, with the time
-- stamps as its points.
pub timestamp_range-IsRangeType : IsRangeType timestamp_range
unfolding start_less end_less has_overlap disjoint_and_sorted_ranges_adjacent set_start set_end
    is_empty is_below_start is_above_end
timestamp_range-IsRangeType = record {
  start_asymm = λ a b. ground arith;
  start_trans = λ a b c. ground arith;
  below_of_less = λ a b v. ground arith;
  below_of_not_less = λ a b v. ground arith;
  above_of_less = λ a b v. ground arith;
  above_of_not_less = λ a b v. ground arith;
  overlap_left = λ a b v. ground arith;
  overlap_right = λ a b v. ground arith;
  no_overlap_left = λ a b v. ground arith;
  no_overlap_right = λ a b v. ground arith;
  overlap_of_same_start = λ a b. ground arith;
  adjacent_bound = λ a b v. ground arith;
  bounds_of_nonempty = λ a v. ground arith;
  set_start_below = λ a b v. refl;
  set_start_above = λ a b v. refl;
  set_end_below = λ a b v. refl;
  set_end_above = λ a b v. refl;
  start_less-set_start_left = λ a b c. refl;
  start_less-set_start_right = λ a b c. refl;
  start_less-set_end_left = λ a b c. refl;
  start_less-set_end_right = λ a b c. refl;
}
