-- ===== src/TimestampRangeSet/Conversion.antt =====
-- `TimestampRangeSet::Range::FromTimestampRange` of range_set.cc, against the reading of a
-- `TimestampRange` in column_family.cc.
use bigtable_emulator.Common.{true, false, ℤ, pos, leb_ℤ, eqb_ℤ, ◌≡◌, ◌⊎◌, inl, inr, arith}
use bigtable_emulator.Status.{ok}
use bigtable_emulator.ColumnRow.{TimestampRange, to_millis}
use bigtable_emulator.ColumnRow.Deletion.{in_time_range}
use bigtable_emulator.TimestampRangeSet.{
  Range, from_timestamp_range, is_within, is_below_start, is_above_end,
}

-- Where `FromTimestampRange` returns a range, and the end is 0 or not 0 in milliseconds, that
-- range holds the time stamps that `DeleteTimeRange` takes to be in the range.
pub is_within-from_timestamp_range :
    (r : TimestampRange) (range : Range) (t : ℤ)
    → from_timestamp_range r ≡ ok range
    → (eqb_ℤ r.end_timestamp_micros (pos 0) ≡ true)
      ⊎ (eqb_ℤ (to_millis r.end_timestamp_micros) (pos 0) ≡ false)
    → is_within range t ≡ in_time_range r t
unfolding from_timestamp_range is_within is_below_start is_above_end
is_within-from_timestamp_range r range t h (inl e) = ground arith
is_within-from_timestamp_range r range t h (inr e) = ground arith

-- Where `FromTimestampRange` returns a range, and the end is 0 in milliseconds, that range holds
-- every time stamp from the start on.
pub is_within-from_timestamp_range_unbounded :
    (r : TimestampRange) (range : Range) (t : ℤ)
    → from_timestamp_range r ≡ ok range
    → eqb_ℤ (to_millis r.end_timestamp_micros) (pos 0) ≡ true
    → is_within range t ≡ leb_ℤ (to_millis r.start_timestamp_micros) t
unfolding from_timestamp_range is_within is_below_start is_above_end
is_within-from_timestamp_range_unbounded r range t h e = ground arith
