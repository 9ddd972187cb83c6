-- ===== src/TimestampRangeSet.antt =====
-- `class TimestampRangeSet` of range_set.h and range_set.cc: half-open ranges of time stamps, where
-- the end 0 stands for infinity.
pub mod Laws
pub mod Conversion
use bigtable_emulator.Common.{
  ℕ, ◌+◌, ◌-◌, ◌/◌, Bool, true, false, not, ◌&&◌, ◌||◌, List, [], ◌∷◌, ℤ, pos, negsuc, sub_ℕ,
  pos_part, neg_part, ltb, leb, ◌==◌, ltb_ℤ, leb_ℤ, eqb_ℤ, truncate_div, if◌then◌else◌,
}
use bigtable_emulator.Status.{StatusOr, ok, err, invalid_argument}
use bigtable_emulator.ColumnRow.{TimestampRange, to_millis}
use bigtable_emulator.RangeSet
use bigtable_emulator.RangeSet.{RangeType}

pub record Range : Type 0 where
  pub start : ℤ
  pub end : ℤ

abbrev pub zero_ms : ℤ
zero_ms = pos 0

unfoldable pub from_timestamp_range : TimestampRange → StatusOr Range
from_timestamp_range r =
    let start = to_millis r.start_timestamp_micros in
    let end = to_millis r.end_timestamp_micros in
    if not (eqb_ℤ end zero_ms) && ltb_ℤ end start
    then err invalid_argument
    else ok (record { start = start; end = end })

unfoldable pub set_start : Range → Range → Range
set_start r source = record r { start = source.start }

unfoldable pub set_end : Range → Range → Range
set_end r source = record r { end = source.end }

unfoldable pub is_below_start : Range → ℤ → Bool
is_below_start r value = ltb_ℤ value r.start

unfoldable pub is_above_end : Range → ℤ → Bool
is_above_end r value = not (eqb_ℤ r.end zero_ms) && leb_ℤ r.end value

unfoldable pub is_within : Range → ℤ → Bool
unfolding is_below_start is_above_end
is_within r value = not (is_above_end r value) && not (is_below_start r value)

-- The static `IsEmpty(start, end)`.
unfoldable pub is_empty_range : ℤ → ℤ → Bool
is_empty_range start end = if eqb_ℤ end zero_ms then false else leb_ℤ end start

unfoldable pub is_empty : Range → Bool
unfolding is_empty_range
is_empty r = is_empty_range r.start r.end

unfoldable pub start_less : Range → Range → Bool
start_less lhs rhs = ltb_ℤ lhs.start rhs.start

unfoldable pub end_less : Range → Range → Bool
end_less lhs rhs =
    if eqb_ℤ lhs.end zero_ms
    then false
    else if eqb_ℤ rhs.end zero_ms
    then true
    else ltb_ℤ lhs.end rhs.end

-- `std::max` returns its first argument where the two are equal.
unfoldable pub max_ms : ℤ → ℤ → ℤ
max_ms a b = if ltb_ℤ a b then b else a

unfoldable pub has_overlap : Range → Range → Bool
unfolding max_ms end_less is_empty_range
has_overlap lhs rhs =
    not
      (is_empty_range (max_ms lhs.start rhs.start) (if end_less lhs rhs then lhs.end else rhs.end))

unfoldable pub disjoint_and_sorted_ranges_adjacent : Range → Range → Bool
disjoint_and_sorted_ranges_adjacent lhs rhs = eqb_ℤ lhs.end rhs.start

-- `operator==`.
unfoldable pub eq_range : Range → Range → Bool
eq_range lhs rhs = eqb_ℤ lhs.start rhs.start && eqb_ℤ lhs.end rhs.end

abbrev pub timestamp_range : RangeType Range ℤ
timestamp_range = record {
  start_less = start_less;
  end_less = end_less;
  has_overlap = has_overlap;
  adjacent = disjoint_and_sorted_ranges_adjacent;
  set_start = set_start;
  set_end = set_end;
  is_empty = is_empty;
  is_below_start = is_below_start;
  is_above_end = is_above_end;
}

-- `Sum`, `Intersect`, `Empty` and `All`.
unfoldable pub sum : List Range → Range → List Range
sum disjoint_ranges inserted_range =
    RangeSet.range_set_sum timestamp_range disjoint_ranges inserted_range

unfoldable pub intersect : List Range → Range → List Range
intersect disjoint_ranges intersected_range =
    RangeSet.range_set_intersect timestamp_range disjoint_ranges intersected_range

unfoldable pub empty : List Range
empty = []

unfoldable pub all : List Range
unfolding sum
all = sum [] (record { start = zero_ms; end = zero_ms })
