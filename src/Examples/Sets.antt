-- ===== src/Examples/Sets.antt =====
-- The theorems on range sets, at concrete inputs.
use bigtable_emulator.Common.{true, false, ◌||◌, List, [], ◌∷◌, pos, ◌≡◌, refl, inr, leb_ℤ}
use bigtable_emulator.Status.{ok}
use bigtable_emulator.ColumnRow.{TimestampRange, to_millis}
use bigtable_emulator.ColumnRow.Deletion.{in_time_range}
use bigtable_emulator.RangeSet.{
  covers, is_within, extend_end, range_set_sum, upper_bound, not_after,
}
use bigtable_emulator.RangeSet.Laws.{IsRangeType}
use bigtable_emulator.RangeSet.Order.{StartsIncrease}
use bigtable_emulator.RangeSet.Sum.Points.{
  takes_detached, NonEmpty, range_set_sum-exact, range_set_sum-detached,
}
use bigtable_emulator.TimestampRangeSet
use bigtable_emulator.TimestampRangeSet.{
  Range, timestamp_range, start_less, end_less, has_overlap, is_empty,
  disjoint_and_sorted_ranges_adjacent, from_timestamp_range,
}
use bigtable_emulator.TimestampRangeSet.Laws.{timestamp_range-IsRangeType}
use bigtable_emulator.TimestampRangeSet.Conversion.{
  is_within-from_timestamp_range, is_within-from_timestamp_range_unbounded,
}
use bigtable_emulator.StringRangeSet.{string_range}
use bigtable_emulator.StringRangeSet.Laws.{string_range-IsRangeType}
use bigtable_emulator.Examples.{row_keys}

abbrev two_ranges : List Range
two_ranges = record { start = pos 1; end = pos 3 } ∷ record { start = pos 5; end = pos 7 } ∷ []

abbrev across : Range
across = record { start = pos 2; end = pos 6 }

abbrev between : Range
between = record { start = pos 4; end = pos 5 }

two_ranges-StartsIncrease : StartsIncrease timestamp_range timestamp_range-IsRangeType two_ranges
unfolding start_less
two_ranges-StartsIncrease = ((refl, tt), (tt, tt))

two_ranges-NonEmpty : NonEmpty timestamp_range two_ranges
unfolding is_empty
two_ranges-NonEmpty = (refl, (refl, tt))

across-touches : takes_detached timestamp_range two_ranges across ≡ false
unfolding upper_bound not_after start_less has_overlap disjoint_and_sorted_ranges_adjacent
across-touches = refl

across-is_full : is_empty across ≡ false
unfolding is_empty
across-is_full = refl

range_set_sum-exact_example :
    covers timestamp_range (range_set_sum timestamp_range two_ranges across) (pos 4)
    ≡ (covers timestamp_range two_ranges (pos 4) || is_within timestamp_range across (pos 4))
range_set_sum-exact_example =
    range_set_sum-exact timestamp_range timestamp_range-IsRangeType two_ranges across
      two_ranges-StartsIncrease two_ranges-NonEmpty across-is_full (pos 4) across-touches

abbrev later_range : List Range
later_range = record { start = pos 5; end = pos 7 } ∷ []

abbrev apart : Range
apart = record { start = pos 1; end = pos 2 }

later_range-StartsIncrease : StartsIncrease timestamp_range timestamp_range-IsRangeType later_range
later_range-StartsIncrease = (tt, tt)

later_range-NonEmpty : NonEmpty timestamp_range later_range
unfolding is_empty
later_range-NonEmpty = (refl, tt)

apart-is_full : is_empty apart ≡ false
unfolding is_empty
apart-is_full = refl

apart-is_detached : takes_detached timestamp_range later_range apart ≡ true
unfolding upper_bound not_after start_less has_overlap disjoint_and_sorted_ranges_adjacent
apart-is_detached = refl

apart-upper_bound : upper_bound timestamp_range apart later_range ≡ later_range
unfolding upper_bound start_less
apart-upper_bound = refl

range_set_sum-detached_example :
    covers timestamp_range (range_set_sum timestamp_range later_range apart) (pos 3) ≡ (
      covers timestamp_range later_range (pos 3)
      || is_within timestamp_range
          (extend_end timestamp_range apart (record { start = pos 5; end = pos 7 }))
          (pos 3))
range_set_sum-detached_example =
    range_set_sum-detached timestamp_range timestamp_range-IsRangeType later_range apart
      later_range-StartsIncrease later_range-NonEmpty apart-is_full (pos 3)
      (record { start = pos 5; end = pos 7 }) [] apart-is_detached apart-upper_bound

string_range-IsRangeType_example : IsRangeType (string_range row_keys)
string_range-IsRangeType_example = string_range-IsRangeType row_keys

abbrev in_microseconds : TimestampRange
in_microseconds = record { start_timestamp_micros = pos 1500; end_timestamp_micros = pos 4500 }

abbrev in_milliseconds : Range
in_milliseconds = record { start = pos 1; end = pos 4 }

in_milliseconds-is_ok : from_timestamp_range in_microseconds ≡ ok in_milliseconds
unfolding from_timestamp_range
in_milliseconds-is_ok = refl

is_within-from_timestamp_range_example :
    TimestampRangeSet.is_within in_milliseconds (pos 3) ≡ in_time_range in_microseconds (pos 3)
is_within-from_timestamp_range_example =
    is_within-from_timestamp_range in_microseconds in_milliseconds (pos 3) in_milliseconds-is_ok
      (inr refl)

abbrev half_a_millisecond : TimestampRange
half_a_millisecond = record { start_timestamp_micros = pos 0; end_timestamp_micros = pos 500 }

abbrev no_end : Range
no_end = record { start = pos 0; end = pos 0 }

no_end-is_ok : from_timestamp_range half_a_millisecond ≡ ok no_end
unfolding from_timestamp_range
no_end-is_ok = refl

is_within-from_timestamp_range_unbounded_example :
    TimestampRangeSet.is_within no_end (pos 3)
    ≡ leb_ℤ (to_millis half_a_millisecond.start_timestamp_micros) (pos 3)
is_within-from_timestamp_range_unbounded_example =
    is_within-from_timestamp_range_unbounded half_a_millisecond no_end (pos 3) no_end-is_ok refl
