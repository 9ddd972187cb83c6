-- ===== src/FilteredMap/Strings.antt =====
-- `StringRangeFilteredMapView` of filtered_map.h over a set of ranges whose starts increase.
use bigtable_emulator.Common.{
  Bool, true, false, List, [], ◌∷◌, some, ◌≡◌, ◌≢◌, refl, ap, ◌∙◌, arith, All, keep,
}
use bigtable_emulator.Common.Bytes.{Bytes, bytes_order, less_bytes}
use bigtable_emulator.External.{RowKeys}
use bigtable_emulator.StdMap.{IsSorted, lower_bound, upper_bound}
use bigtable_emulator.RangeSet.{covers}
use bigtable_emulator.RangeSet.Order.{StartsIncrease, All-map}
use bigtable_emulator.StringRangeSet.{
  Value, Range, infinity, finite, compare_range_values, is_below_start, is_above_end, string_range,
}
use bigtable_emulator.StringRangeSet.Compare.{key-cases}
use bigtable_emulator.StringRangeSet.Laws.{string_range-IsRangeType}
use bigtable_emulator.FilteredMap.{seek_string, string_view, string_range_filtered_map_view}
use bigtable_emulator.FilteredMap.Ranges.{IsMonotone, drop_before, covered, Ordered, Seeks}
use bigtable_emulator.FilteredMap.Iteration.{view_lem}

-- What the constructors of `StringRangeSet::Range` make of a row range.
abbrev pub StartsAreFinite : List Range → Type 0
StartsAreFinite = All (λ f. f.start ≢ infinity)

abbrev range : Value → Bool → Value → Bool → Range
range s s_open e e_open = record { start = s; start_open = s_open; end = e; end_open = e_open }

module _ (keys : RowKeys) where
  below_mono :
      (s : Value) (s_open : Bool) (e : Value) (e_open : Bool) (j k : Bytes)
      → less_bytes j k ≡ true
      → is_below_start keys (range s s_open e e_open) (finite k) ≡ true
      → is_below_start keys (range s s_open e e_open) (finite j) ≡ true
  unfolding is_below_start compare_range_values
  below_mono infinity s_open e e_open j k h b = refl
  below_mono (finite s) s_open e e_open j k h b = ground (
    arith,
    b,
    key-cases keys j s,
    key-cases keys k s,
    bytes_order.less_trans j k s,
    bytes_order.less_connex k s,
  )

  above_mono :
      (s : Value) (s_open : Bool) (e : Value) (e_open : Bool) (j k : Bytes)
      → less_bytes j k ≡ true
      → is_above_end keys (range s s_open e e_open) (finite j) ≡ true
      → is_above_end keys (range s s_open e e_open) (finite k) ≡ true
  unfolding is_above_end compare_range_values
  above_mono s s_open infinity e_open j k h b = absurd (ground arith)
  above_mono s s_open (finite e) e_open j k h b = ground (
    arith,
    b,
    key-cases keys j e,
    key-cases keys k e,
    bytes_order.less_trans e j k,
    bytes_order.less_connex j e,
    bytes_order.less_trans k e k,
    bytes_order.less_irrefl k,
  )

  string_view-IsMonotone : (V : Type 0) → IsMonotone (string_view {V = V} keys)
  string_view-IsMonotone V = record {
    before_mono = λ f j k. below_mono f.start f.start_open f.end f.end_open j k;
    past_mono = λ f j k. above_mono f.start f.start_open f.end f.end_open j k;
  }

  module _ (V : Type 0) where
    abbrev drop_below : Range → List (Bytes × V) → List (Bytes × V)
    drop_below = drop_before (string_view keys)

    drop-upper :
        (s : Bytes) (e : Value) (e_open : Bool) (m : List (Bytes × V))
        → upper_bound s m ≡ drop_below (range (finite s) true e e_open) m
    unfolding is_below_start compare_range_values upper_bound
    drop-upper s e e_open [] = refl
    drop-upper s e e_open ((k, v) ∷ m) = ground (
      arith,
      key-cases keys k s,
      drop-upper s e e_open m,
      bytes_order.less_trans s k s,
      bytes_order.less_irrefl s,
    )

    drop-lower :
        (s : Bytes) (e : Value) (e_open : Bool) (m : List (Bytes × V))
        → lower_bound s m ≡ drop_below (range (finite s) false e e_open) m
    unfolding is_below_start compare_range_values lower_bound
    drop-lower s e e_open [] = refl
    drop-lower s e e_open ((k, v) ∷ m) = ground (arith, key-cases keys k s, drop-lower s e e_open m)

    seek_string_lem :
        (s : Value) (s_open : Bool) (e : Value) (e_open : Bool) (m : List (Bytes × V))
        → s ≢ infinity
        → seek_string (range s s_open e e_open) m ≡ some (drop_below (range s s_open e e_open) m)
    unfolding seek_string
    seek_string_lem infinity s_open e e_open m h = absurd (h refl)
    seek_string_lem (finite s) true e e_open m h = ap some (drop-upper s e e_open m)
    seek_string_lem (finite s) false e e_open m h = ap some (drop-lower s e e_open m)

    seeks :
        (m : List (Bytes × V)) (fs : List Range)
        → StartsAreFinite fs
        → Seeks (string_view keys) m fs
    seeks m [] h = tt
    seeks m (f ∷ fs) h =
        (λ k b. seek_string_lem f.start f.start_open f.end f.end_open m h.0, seeks m fs h.1)

    ordered :
        (fs : List Range)
        → StartsIncrease (string_range keys) (string_range-IsRangeType keys) fs
        → Ordered (string_view {V = V} keys) fs
    ordered [] s = tt
    ordered (f ∷ fs) s = (
      All-map _ _ fs (λ g h k. (string_range-IsRangeType keys).below_of_less f g k h) s.0,
      ordered fs s.1,
    )

    covered-covers :
        (fs : List Range) (k : Bytes)
        → covered (string_view {V = V} keys) fs k ≡ covers (string_range keys) fs k
    covered-covers [] k = refl
    covered-covers (f ∷ fs) k = ground (arith, covered-covers fs k)

    keep-covers :
        (fs : List Range) (m : List (Bytes × V))
        → keep (λ e. covered (string_view {V = V} keys) fs e.0) m
          ≡ keep (λ e. covers (string_range keys) fs e.0) m
    keep-covers fs [] = refl
    keep-covers fs ((k, v) ∷ m) = ground (arith, keep-covers fs m, covered-covers fs k)

    -- Over a sorted map and a set of ranges whose starts increase and are finite, an
    -- iteration through `StringRangeFilteredMapView` ends, with no exception, after the
    -- entries whose keys are in some range, in their order.
    pub string_range_filtered_map_view_lem :
        (m : List (Bytes × V)) (fs : List Range)
        → IsSorted m
        → StartsIncrease (string_range keys) (string_range-IsRangeType keys) fs
        → StartsAreFinite fs
        → string_range_filtered_map_view keys m fs
          ≡ some (keep (λ e. covers (string_range keys) fs e.0) m)
    unfolding string_range_filtered_map_view
    string_range_filtered_map_view_lem m fs s i h =
        view_lem (string_view keys) (string_view-IsMonotone V) m s fs (ordered fs i) (seeks m fs h)
        ∙ ap some (keep-covers fs m)
