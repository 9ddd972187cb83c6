-- ===== src/FilteredMap/Timestamps.antt =====
-- `TimestampRangeFilteredMapView` of filtered_map.h over a set of ranges no two of which overlap.
use bigtable_emulator.Common.{
  true, false, List, [], ◌∷◌, ◌++◌, some, ℤ, pos, eqb_ℤ, ◌≡◌, refl, ap, ◌∙◌, subst, sym, arith, All,
  keep, freshest_first,
}
use mathlib.Core.List.{reverse, reverse-cons}
use bigtable_emulator.StdMap.{IsSorted, upper_bound}
use bigtable_emulator.RangeSet.{covers}
use bigtable_emulator.RangeSet.Order.{append-All, All-map}
use bigtable_emulator.RangeSet.Sum.{any_of-append}
use bigtable_emulator.TimestampRangeSet.{
  Range, is_below_start, is_above_end, start_less, has_overlap, is_empty, timestamp_range,
}
use bigtable_emulator.TimestampRangeSet.Laws.{timestamp_range-IsRangeType}
use bigtable_emulator.FilteredMap.{
  seek_timestamp, timestamp_view, timestamp_range_filtered_map_view,
}
use bigtable_emulator.FilteredMap.Ranges.{IsMonotone, drop_before, covered, Ordered, Seeks}
use bigtable_emulator.FilteredMap.Iteration.{view_lem}

-- Ranges in the order of their starts, none of them empty, and no two with an overlap.
abbrev pub Apart : Range → Range → Type 0
Apart f g = (start_less f g ≡ true) × ((has_overlap f g ≡ false) × (is_empty g ≡ false))

abbrev pub Disjoint : List Range → Type 0
Disjoint [] = Unit {0}
Disjoint (f ∷ fs) = (is_empty f ≡ false) × (All (λ g. Apart f g) fs × Disjoint fs)

timestamp_view-IsMonotone : (V : Type 0) → IsMonotone (timestamp_view {V = V})
unfolding is_below_start is_above_end
timestamp_view-IsMonotone V = record {
  before_mono = λ f j k h b. ground arith;
  past_mono = λ f j k h b. ground arith;
}

-- What is at or after the end of a range is so for each range that comes earlier.
earlier_ends :
    (f g : Range) (t : ℤ)
    → is_empty f ≡ false
    → Apart f g
    → is_above_end g t ≡ true
    → is_above_end f t ≡ true
earlier_ends f g t full apart h =
    timestamp_range-IsRangeType.no_overlap_left f g t apart.1.0 full apart.1.1 apart.0
      (timestamp_range-IsRangeType.bounds_of_nonempty g t apart.1.1 h)

module _ (V : Type 0) where
  drop-upper :
      (f : Range) (m : List (ℤ × V))
      → eqb_ℤ f.end (pos 0) ≡ false
      → upper_bound f.end m ≡ drop_before timestamp_view f m
  unfolding is_above_end upper_bound
  drop-upper f [] h = refl
  drop-upper f ((t, v) ∷ m) h = ground (arith, drop-upper f m h)

  seeks : (m : List (ℤ × V)) (fs : List Range) → Seeks timestamp_view m fs
  unfolding seek_timestamp is_above_end
  seeks m [] = tt
  seeks m (f ∷ fs) = (λ t b. ap some (drop-upper f m (ground arith)), seeks m fs)

  abbrev Above : Range → Range → Type 0
  Above f g = (t : ℤ) → is_above_end f t ≡ true → is_above_end g t ≡ true

  Ordered-append :
      (fs : List Range) (g : Range)
      → Ordered (timestamp_view {V = V}) fs
      → All (λ f. Above f g) fs
      → Ordered (timestamp_view {V = V}) (fs ++ (g ∷ []))
  Ordered-append [] g s a = (tt, tt)
  Ordered-append (f ∷ fs) g s a =
      (append-All (λ h. Above f h) fs (g ∷ []) s.0 (a.0, tt), Ordered-append fs g s.1 a.1)

  All-reverse :
      (P : Range → Type 0) (fs : List Range) → All (λ f. P f) fs → All (λ f. P f) (reverse fs)
  All-reverse P [] a = tt
  All-reverse P (f ∷ fs) a =
      subst (All (λ g. P g)) (sym (reverse-cons f fs))
        (append-All P (reverse fs) (f ∷ []) (All-reverse P fs a.1) (a.0, tt))

  ordered : (fs : List Range) → Disjoint fs → Ordered (timestamp_view {V = V}) (reverse fs)
  ordered [] s = tt
  ordered (f ∷ fs) s =
      subst (λ x. Ordered (timestamp_view {V = V}) x) (sym (reverse-cons f fs))
        (Ordered-append (reverse fs) f (ordered fs s.1.1) (
          All-reverse (λ g. Above g f) fs
            (All-map (λ g. Apart f g) (λ g. Above g f) fs (λ g a t. earlier_ends f g t s.0 a)
              s.1.0)))

  covered-reverse :
      (fs : List Range) (t : ℤ)
      → covered (timestamp_view {V = V}) (reverse fs) t ≡ covers timestamp_range fs t
  covered-reverse [] t = refl
  covered-reverse (f ∷ fs) t =
      ap (λ x. covered (timestamp_view {V = V}) x t) (reverse-cons f fs)
      ∙ ground (
        arith,
        any_of-append timestamp_range timestamp_range-IsRangeType t (reverse fs) (f ∷ []),
        covered-reverse fs t,
      )

  keep-covers :
      (fs : List Range) (m : List (ℤ × V))
      → keep (λ e. covered (timestamp_view {V = V}) (reverse fs) e.0) m
        ≡ keep (λ e. covers timestamp_range fs e.0) m
  keep-covers fs [] = refl
  keep-covers fs ((t, v) ∷ m) = ground (arith, keep-covers fs m, covered-reverse fs t)

  -- Over a sorted column and a set of ranges that are in order, not empty and have no overlap,
  -- an iteration through `TimestampRangeFilteredMapView` ends after the cells whose time
  -- stamps are in some range, from the freshest on.
  pub timestamp_range_filtered_map_view_lem :
      (m : List (ℤ × V)) (fs : List Range)
      → IsSorted m
      → Disjoint fs
      → timestamp_range_filtered_map_view m fs ≡ some (keep (λ e. covers timestamp_range fs e.0) m)
  unfolding timestamp_range_filtered_map_view
  timestamp_range_filtered_map_view_lem m fs s d =
      view_lem timestamp_view (timestamp_view-IsMonotone V) m s (reverse fs) (ordered fs d)
        (seeks m (reverse fs))
      ∙ ap some (keep-covers fs m)
