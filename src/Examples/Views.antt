-- ===== src/Examples/Views.antt =====
-- The theorems on the filtered views of a map, at concrete inputs.
use bigtable_emulator.Common.{
  ℕ, true, false, List, [], ◌∷◌, some, ℤ, pos, ◌≡◌, ◌≢◌, refl, keep, all_of, leb, arith,
  freshest_first,
}
use bigtable_emulator.Common.Bytes.{Bytes, bytes_order}
use bigtable_emulator.StdMap.{IsSorted}
use bigtable_emulator.RangeSet.{covers}
use bigtable_emulator.RangeSet.Order.{StartsIncrease}
use bigtable_emulator.StringRangeSet
use bigtable_emulator.StringRangeSet.{infinity, finite, string_range}
use bigtable_emulator.StringRangeSet.Laws.{string_range-IsRangeType}
use bigtable_emulator.TimestampRangeSet
use bigtable_emulator.TimestampRangeSet.{timestamp_range}
use bigtable_emulator.FilteredMap.{
  string_range_filtered_map_view, timestamp_range_filtered_map_view, regex_filtered_map_view,
}
use bigtable_emulator.FilteredMap.Strings.{StartsAreFinite, string_range_filtered_map_view_lem}
use bigtable_emulator.FilteredMap.Timestamps.{Disjoint, timestamp_range_filtered_map_view_lem}
use bigtable_emulator.FilteredMap.Regexes.{regex_filtered_map_view_lem}
use bigtable_emulator.Examples.{row_keys}

abbrev letters : List (Bytes × ℕ)
letters = ([], 0) ∷ (1 ∷ [], 1) ∷ (1 ∷ 1 ∷ [], 2) ∷ (4 ∷ [], 3) ∷ (7 ∷ [], 4) ∷ []

letters-IsSorted : IsSorted letters
letters-IsSorted = (
  (refl, (refl, (refl, (refl, tt)))),
  ((refl, (refl, (refl, tt))), ((refl, (refl, tt)), ((refl, tt), (tt, tt)))),
)

abbrev two_ranges : List StringRangeSet.Range
two_ranges =
    record { start = finite (1 ∷ []); start_open = true; end = finite (2 ∷ []); end_open = false }
    ∷ record { start = finite (7 ∷ []); start_open = false; end = infinity; end_open = false }
    ∷ []

two_ranges-StartsIncrease :
    StartsIncrease (string_range row_keys) (string_range-IsRangeType row_keys) two_ranges
unfolding StringRangeSet.start_less StringRangeSet.compare_range_values
two_ranges-StartsIncrease = ((refl, tt), (tt, tt))

finite-differs : (k : Bytes) → finite k ≢ infinity
finite-differs k h = absurd (ground arith)

two_ranges-StartsAreFinite : StartsAreFinite two_ranges
two_ranges-StartsAreFinite = (finite-differs (1 ∷ []), (finite-differs (7 ∷ []), tt))

string_range_filtered_map_view_lem_example :
    string_range_filtered_map_view row_keys letters two_ranges
    ≡ some (keep (λ e. covers (string_range row_keys) two_ranges e.0) letters)
string_range_filtered_map_view_lem_example =
    string_range_filtered_map_view_lem row_keys ℕ letters two_ranges letters-IsSorted
      two_ranges-StartsIncrease two_ranges-StartsAreFinite

abbrev cells : List (ℤ × Bytes)
cells = (pos 8, []) ∷ (pos 6, []) ∷ (pos 3, []) ∷ (pos 1, []) ∷ []

cells-IsSorted : IsSorted cells
cells-IsSorted = ((refl, (refl, (refl, tt))), ((refl, (refl, tt)), ((refl, tt), (tt, tt))))

abbrev times : List TimestampRangeSet.Range
times = record { start = pos 1; end = pos 2 } ∷ record { start = pos 5; end = pos 7 } ∷ []

times-Disjoint : Disjoint times
unfolding TimestampRangeSet.start_less TimestampRangeSet.has_overlap TimestampRangeSet.is_empty
times-Disjoint = (refl, (((refl, (refl, refl)), tt), (refl, (tt, tt))))

timestamp_range_filtered_map_view_lem_example :
    timestamp_range_filtered_map_view cells times
    ≡ some (keep (λ e. covers timestamp_range times e.0) cells)
timestamp_range_filtered_map_view_lem_example =
    timestamp_range_filtered_map_view_lem Bytes cells times cells-IsSorted times-Disjoint

abbrev numbers : List (ℕ × ℕ)
numbers = (1, 0) ∷ (5, 1) ∷ (3, 2) ∷ []

regex_filtered_map_view_lem_example :
    regex_filtered_map_view leb (3 ∷ 4 ∷ []) numbers
    ≡ some (keep (λ e. all_of (λ bound. leb e.0 bound) (3 ∷ 4 ∷ [])) numbers)
regex_filtered_map_view_lem_example = regex_filtered_map_view_lem leb (3 ∷ 4 ∷ []) numbers
