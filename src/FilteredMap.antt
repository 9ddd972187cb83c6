-- ===== src/FilteredMap.antt =====
-- filtered_map.h: views of a sorted map that skip the entries outside a range set, or with a key
-- that fails a regular expression. An iterator of the map is the list of the entries from it on, an
-- iterator of the range set the list of its ranges from it on. The two classes for ranges have the
-- same text but for the direction; what differs is the record `ViewKind`.
pub mod Ranges
pub mod Iteration
pub mod Strings
pub mod Timestamps
pub mod Regexes
use bigtable_emulator.Common.{
  ℕ, zero, suc, Bool, true, false, not, ◌&&◌, List, [], ◌∷◌, Option, none, some, ℤ, if◌then◌else◌,
  length, any_of, freshest_first,
}
use mathlib.Core.List.{reverse}
use bigtable_emulator.Common.Bytes.{Bytes, bytes_order}
use bigtable_emulator.External.{RowKeys}
use bigtable_emulator.StdMap
use bigtable_emulator.StringRangeSet
use bigtable_emulator.StringRangeSet.{infinity, finite}
use bigtable_emulator.TimestampRangeSet

-- `none` is an exception: the start of a range is taken for a string where it is infinity.
infixl 5 ◌>>=◌
abbrev pub ◌>>=◌ : {A B : Type 0} → Option A → (A → Option B) → Option B
none >>= f = none
some a >>= f = f a

-- For ranges `R` and keys `K` in the order of the iteration: whether a key comes before a range,
-- whether it comes after it, and the search for the first entry that is not before a range.
pub record ViewKind (R K V : Type 0) : Type 0 where
  pub is_before : R → K → Bool
  pub is_past : R → K → Bool
  pub seek : R → List (K × V) → Option (List (K × V))

module _ {R K V : Type 0} (o : ViewKind R K V) (unfiltered : List (K × V)) where
  open o use {is_before, is_past, seek}

  -- `AdvanceToNextRange`: the new `unfiltered_pos_`.
  unfoldable pub advance_to_next_range : List (K × V) → List R → Option (List (K × V))
  advance_to_next_range unfiltered_pos [] = some []
  advance_to_next_range [] (filter ∷ filters) = some []
  advance_to_next_range ((k, v) ∷ later) (filter ∷ filters) =
      if not (is_before filter k) then some ((k, v) ∷ later) else seek filter unfiltered

  -- `EnsureIteratorValid`: the new `unfiltered_pos_` and `filter_pos_`.
  unfoldable pub ensure_iterator_valid : List (K × V) → List R → Option (List (K × V) × List R)
  unfolding advance_to_next_range
  ensure_iterator_valid unfiltered_pos [] = some (unfiltered_pos, [])
  ensure_iterator_valid [] (filter ∷ filters) = some ([], filter ∷ filters)
  ensure_iterator_valid ((k, v) ∷ later) (filter ∷ filters) = elim (is_past filter k) [
    | false ↦ some ((k, v) ∷ later, filter ∷ filters)
    | true ↦ do
      next ← advance_to_next_range ((k, v) ∷ later) filters
      ensure_iterator_valid next filters
  ]

  -- The constructor of the iterator.
  unfoldable pub begin_at : List (K × V) → List R → Option (List (K × V) × List R)
  unfolding advance_to_next_range ensure_iterator_valid
  begin_at unfiltered_pos filters = do
    next ← advance_to_next_range unfiltered_pos filters
    ensure_iterator_valid next filters

  -- The entries that a loop from the iterator to the end visits, `++` being
  -- `EnsureIteratorValid` behind the entry; `none` too where the rounds are used up.
  unfoldable pub visit : ℕ → List (K × V) → List R → Option (List (K × V))
  unfolding ensure_iterator_valid
  visit zero unfiltered_pos filters = none
  visit (suc fuel) [] filters = some []
  visit (suc fuel) (e ∷ later) filters = do
    (next, filters') ← ensure_iterator_valid later filters
    rest ← visit fuel next filters'
    some (e ∷ rest)

  -- All entries of the view. A round for each entry and one for the end are enough.
  unfoldable pub view : List R → Option (List (K × V))
  unfolding begin_at visit
  view filters = do
    (start, filters') ← begin_at unfiltered filters
    visit (suc (length unfiltered)) start filters'

-- `StringRangeFilteredMapView`.
unfoldable pub seek_string :
    {V : Type 0} → StringRangeSet.Range → List (Bytes × V) → Option (List (Bytes × V))
seek_string filter m = elim filter.start [
  | infinity ↦ none
  | finite k ↦
      some (if not filter.start_open then StdMap.lower_bound k m else StdMap.upper_bound k m)
]

abbrev pub string_view : {V : Type 0} → RowKeys → ViewKind StringRangeSet.Range Bytes V
string_view keys = record {
  is_before = λ filter k. StringRangeSet.is_below_start keys filter (finite k);
  is_past = λ filter k. StringRangeSet.is_above_end keys filter (finite k);
  seek = seek_string;
}

unfoldable pub string_range_filtered_map_view :
    {V : Type 0}
    → RowKeys
    → List (Bytes × V)
    → List StringRangeSet.Range
    → Option (List (Bytes × V))
unfolding seek_string view
string_range_filtered_map_view keys unfiltered filter = view (string_view keys) unfiltered filter

-- `TimestampRangeFilteredMapView`: the cells are sorted from the freshest on, so the set of ranges
-- is walked through backwards.
unfoldable pub seek_timestamp :
    {V : Type 0} → TimestampRangeSet.Range → List (ℤ × V) → Option (List (ℤ × V))
seek_timestamp filter m = some (StdMap.upper_bound filter.end m)

abbrev pub timestamp_view : {V : Type 0} → ViewKind TimestampRangeSet.Range ℤ V
timestamp_view = record {
  is_before = TimestampRangeSet.is_above_end;
  is_past = TimestampRangeSet.is_below_start;
  seek = seek_timestamp;
}

unfoldable pub timestamp_range_filtered_map_view :
    {V : Type 0} → List (ℤ × V) → List TimestampRangeSet.Range → Option (List (ℤ × V))
unfolding seek_timestamp view
timestamp_range_filtered_map_view unfiltered filter =
    view timestamp_view unfiltered (reverse filter)

-- `RegexFiteredMapView`: an iterator skips the entries that fail one of the expressions. What
-- `re2::RE2::PartialMatch` says of a text and an expression is a parameter.
module _ {K V Regex : Type 0} (partial_match : K → Regex → Bool) (filters : List Regex) where
  unfoldable pub ensure_matching : List (K × V) → List (K × V)
  ensure_matching [] = []
  ensure_matching ((k, v) ∷ later) =
      let skipped = ensure_matching later in
      if any_of (λ filter. not (partial_match k filter)) filters then skipped else (k, v) ∷ later

  -- The entries from the iterator on, by `++` as long as there are any.
  unfoldable pub visit_matching : ℕ → List (K × V) → Option (List (K × V))
  unfolding ensure_matching
  visit_matching zero pos = none
  visit_matching (suc fuel) [] = some []
  visit_matching (suc fuel) (e ∷ later) = do
    rest ← visit_matching fuel (ensure_matching later)
    some (e ∷ rest)

  unfoldable pub regex_filtered_map_view : List (K × V) → Option (List (K × V))
  unfolding visit_matching ensure_matching
  regex_filtered_map_view unfiltered =
      visit_matching (suc (length unfiltered)) (ensure_matching unfiltered)
