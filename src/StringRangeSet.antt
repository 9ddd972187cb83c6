-- ===== src/StringRangeSet.antt =====
-- `class StringRangeSet` of range_set.h and range_set.cc: ranges of strings, each end open or
-- closed, and with infinity as a value after all strings.
pub mod Compare
pub mod Laws
use Prim.Native.Nat.{Ordering}
use bigtable_emulator.Common.{
  Bool, true, false, not, ◌&&◌, ◌||◌, List, [], ◌∷◌, Option, none, some, if◌then◌else◌,
}
use bigtable_emulator.Common.Bytes.{Bytes, eq_bytes}
use bigtable_emulator.Status.{StatusOr, ok, err, invalid_argument}
use bigtable_emulator.External.{RowKeys}
use bigtable_emulator.RangeSet
use bigtable_emulator.RangeSet.{RangeType}

-- `absl::variant<Infinity, std::string>`.
pub data Value : Type 0 where
  infinity : Value
  finite : Bytes → Value

pub record Range : Type 0 where
  pub start : Value
  pub start_open : Bool
  pub end : Value
  pub end_open : Bool

abbrev pub is_infinity : Value → Bool
is_infinity infinity = true
is_infinity (finite k) = false

-- `operator==` of two values.
abbrev pub eq_value : Value → Value → Bool
eq_value infinity infinity = true
eq_value infinity (finite k) = false
eq_value (finite k) infinity = false
eq_value (finite k) (finite j) = eq_bytes k j

abbrev pub is_lt : Ordering → Bool
is_lt o = elim o [ Ordering.lt ↦ true | _ ↦ false ]

abbrev pub is_eq : Ordering → Bool
is_eq o = elim o [ Ordering.eq ↦ true | _ ↦ false ]

abbrev pub is_gt : Ordering → Bool
is_gt o = elim o [ Ordering.gt ↦ true | _ ↦ false ]

-- `operator==` of two ranges.
unfoldable pub eq_range : Range → Range → Bool
eq_range lhs rhs =
    eq_value lhs.start rhs.start
    && (if lhs.start_open then rhs.start_open else not rhs.start_open)
    && eq_value lhs.end rhs.end
    && (if lhs.end_open then rhs.end_open else not rhs.end_open)

unfoldable pub set_start : Range → Range → Range
set_start r source = record r { start = source.start; start_open = source.start_open }

unfoldable pub set_end : Range → Range → Range
set_end r source = record r { end = source.end; end_open = source.end_open }

-- A bound of `google.bigtable.v2.RowRange`, `ValueRange` or `ColumnRange`: the protobuf `oneof`.
pub data Bound : Type 0 where
  not_set : Bound
  open_bound : Bytes → Bound
  closed_bound : Bytes → Bound

-- The start that a bound stands for, and whether it is open.
unfoldable pub start_of_bound : Bound → Value × Bool
start_of_bound not_set = (finite [], false)
start_of_bound (open_bound []) = (finite [], false)
start_of_bound (open_bound (c ∷ k)) = (finite (c ∷ k), true)
start_of_bound (closed_bound []) = (finite [], false)
start_of_bound (closed_bound (c ∷ k)) = (finite (c ∷ k), false)

unfoldable pub end_of_bound : Bound → Value × Bool
end_of_bound not_set = (infinity, false)
end_of_bound (open_bound []) = (infinity, false)
end_of_bound (open_bound (c ∷ k)) = (finite (c ∷ k), true)
end_of_bound (closed_bound []) = (infinity, false)
end_of_bound (closed_bound (c ∷ k)) = (finite (c ∷ k), false)

module _ (keys : RowKeys) where
  unfoldable pub compare_range_values : Value → Value → Ordering
  compare_range_values infinity infinity = Ordering.eq
  compare_range_values infinity (finite k) = Ordering.gt
  compare_range_values (finite k) infinity = Ordering.lt
  compare_range_values (finite k) (finite j) = keys.compare_row_key k j

  unfoldable pub consecutive_row_keys : Value → Value → Bool
  consecutive_row_keys infinity rhs = false
  consecutive_row_keys (finite k) infinity = false
  consecutive_row_keys (finite k) (finite j) = keys.consecutive_row_keys k j

  unfoldable pub value_less : Value → Value → Bool
  value_less lhs rhs = is_lt (compare_range_values lhs rhs)

  -- The common shape of `FromRowRange`, `FromValueRange` and `FromColumnRange`.
  unfoldable pub from_bounds : Bound → Bound → StatusOr Range
  unfolding start_of_bound end_of_bound value_less
  from_bounds s e =
      let (start, start_open) = start_of_bound s in
      let (end, end_open) = end_of_bound e in
      if value_less end start
      then err invalid_argument
      else ok (record { start = start; start_open = start_open; end = end; end_open = end_open })

  -- The static `IsEmpty(start, start_open, end, end_open)`.
  unfoldable pub is_empty_range : Value → Bool → Value → Bool → Bool
  is_empty_range start start_open end end_open = elim (compare_range_values start end) [
    | Ordering.gt ↦ true
    | Ordering.eq ↦ start_open || (end_open || is_infinity start)
    | Ordering.lt ↦ if start_open && end_open then consecutive_row_keys start end else false
  ]

  unfoldable pub is_empty : Range → Bool
  unfolding is_empty_range
  is_empty r = is_empty_range r.start r.start_open r.end r.end_open

  unfoldable pub is_below_start : Range → Value → Bool
  is_below_start r value = elim (compare_range_values value r.start) [
    | Ordering.lt ↦ true
    | Ordering.gt ↦ false
    | Ordering.eq ↦ r.start_open
  ]

  unfoldable pub is_above_end : Range → Value → Bool
  is_above_end r value = elim (compare_range_values value r.end) [
    | Ordering.lt ↦ false
    | Ordering.gt ↦ true
    | Ordering.eq ↦ r.end_open
  ]

  unfoldable pub is_within : Range → Value → Bool
  unfolding is_below_start is_above_end
  is_within r value = not (is_above_end r value) && not (is_below_start r value)

  unfoldable pub start_less : Range → Range → Bool
  start_less lhs rhs = elim (compare_range_values lhs.start rhs.start) [
    | Ordering.lt ↦ true
    | Ordering.gt ↦ false
    | Ordering.eq ↦ not lhs.start_open && rhs.start_open
  ]

  unfoldable pub end_less : Range → Range → Bool
  end_less lhs rhs = elim (compare_range_values lhs.end rhs.end) [
    | Ordering.lt ↦ true
    | Ordering.gt ↦ false
    | Ordering.eq ↦ lhs.end_open && not rhs.end_open
  ]

  -- The two ranges whose start and end the intersection has.
  unfoldable pub intersect_start : Range → Range → Range
  intersect_start lhs rhs = elim (compare_range_values lhs.start rhs.start) [
    | Ordering.eq ↦ if lhs.start_open then lhs else rhs
    | Ordering.gt ↦ lhs
    | Ordering.lt ↦ rhs
  ]

  unfoldable pub intersect_end : Range → Range → Range
  intersect_end lhs rhs = elim (compare_range_values lhs.end rhs.end) [
    | Ordering.eq ↦ if lhs.end_open then lhs else rhs
    | Ordering.lt ↦ lhs
    | Ordering.gt ↦ rhs
  ]

  unfoldable pub has_overlap : Range → Range → Bool
  unfolding intersect_start intersect_end is_empty_range
  has_overlap lhs rhs =
      let s = intersect_start lhs rhs in
      let e = intersect_end lhs rhs in not (is_empty_range s.start s.start_open e.end e.end_open)

  unfoldable pub disjoint_and_sorted_ranges_adjacent : Range → Range → Bool
  disjoint_and_sorted_ranges_adjacent lhs rhs =
      if not lhs.end_open && rhs.start_open && eq_value lhs.end rhs.start
      then true
      else if lhs.end_open && not rhs.start_open && eq_value lhs.end rhs.start
      then true
      else not lhs.end_open && not rhs.start_open && consecutive_row_keys lhs.end rhs.start

  -- The points are the strings.
  abbrev pub string_range : RangeType Range Bytes
  string_range = record {
    start_less = start_less;
    end_less = end_less;
    has_overlap = has_overlap;
    adjacent = disjoint_and_sorted_ranges_adjacent;
    set_start = set_start;
    set_end = set_end;
    is_empty = is_empty;
    is_below_start = λ r k. is_below_start r (finite k);
    is_above_end = λ r k. is_above_end r (finite k);
  }

  -- `Sum`, `Intersect` and `All`.
  unfoldable pub sum : List Range → Range → List Range
  sum disjoint_ranges inserted_range =
      RangeSet.range_set_sum string_range disjoint_ranges inserted_range

  unfoldable pub intersect : List Range → Range → List Range
  intersect disjoint_ranges intersected_range =
      RangeSet.range_set_intersect string_range disjoint_ranges intersected_range

  unfoldable pub all : List Range
  unfolding sum
  all = sum [] (record { start = finite []; start_open = false; end = infinity; end_open = false })

unfoldable pub empty : List Range
empty = []
