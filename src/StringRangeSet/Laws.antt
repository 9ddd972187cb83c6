-- ===== src/StringRangeSet/Laws.antt =====
-- String ranges are a range type in the sense of `RangeSet.Laws`.
use Prim.Native.Nat.{Ordering}
use bigtable_emulator.Common.{Bool, true, false, ◌≡◌, ◌⊎◌, inl, inr, subst, refl, arith}
use bigtable_emulator.Common.Bytes.{Bytes}
use bigtable_emulator.External.{RowKeys}
use bigtable_emulator.RangeSet.Laws.{IsRangeType}
use bigtable_emulator.StringRangeSet.{
  Value, finite, compare_range_values, Range, set_start, set_end, is_empty_range, is_empty,
  is_below_start, is_above_end, start_less, end_less, intersect_start, intersect_end, has_overlap,
  disjoint_and_sorted_ranges_adjacent, string_range,
}
use bigtable_emulator.StringRangeSet.Compare.{
  eq_of_compare, compare_flip, compare_trans, eq_of_eq_value, consecutive_next, consecutive_lt,
  infinity_last,
}

module _ (keys : RowKeys) where
  abbrev cmp : Value → Value → Ordering
  cmp = compare_range_values keys

  start_asymm : (a b : Range) → start_less keys a b ≡ true → start_less keys b a ≡ false
  unfolding start_less
  start_asymm a b h = ground (arith, compare_flip keys a.start b.start)

  start_trans :
      (a b c : Range)
      → start_less keys a b ≡ true
      → start_less keys c b ≡ false
      → start_less keys a c ≡ true
  unfolding start_less
  start_trans a b c h k = ground (
    arith,
    compare_flip keys b.start c.start,
    compare_flip keys a.start c.start,
    compare_trans keys a.start b.start c.start,
    eq_of_compare keys a.start b.start,
    eq_of_compare keys c.start b.start,
  )

  below_of_less :
      (a b : Range) (v : Value)
      → start_less keys a b ≡ true
      → is_below_start keys a v ≡ true
      → is_below_start keys b v ≡ true
  unfolding start_less is_below_start
  below_of_less a b v h k = ground (
    arith,
    compare_trans keys v a.start b.start,
    eq_of_compare keys v a.start,
    eq_of_compare keys a.start b.start,
  )

  below_of_not_less :
      (a b : Range) (v : Value)
      → start_less keys a b ≡ false
      → is_below_start keys b v ≡ true
      → is_below_start keys a v ≡ true
  unfolding start_less is_below_start
  below_of_not_less a b v h k = ground (
    arith,
    compare_flip keys a.start b.start,
    compare_trans keys v b.start a.start,
    eq_of_compare keys v b.start,
    eq_of_compare keys a.start b.start,
  )

  above_of_less :
      (a b : Range) (v : Value)
      → end_less keys a b ≡ true
      → is_above_end keys b v ≡ true
      → is_above_end keys a v ≡ true
  unfolding end_less is_above_end
  above_of_less a b v h k = ground (
    arith,
    compare_flip keys v b.end,
    compare_flip keys v a.end,
    compare_trans keys a.end b.end v,
    eq_of_compare keys v b.end,
    eq_of_compare keys a.end b.end,
  )

  above_of_not_less :
      (a b : Range) (v : Value)
      → end_less keys a b ≡ false
      → is_above_end keys a v ≡ true
      → is_above_end keys b v ≡ true
  unfolding end_less is_above_end
  above_of_not_less a b v h k = ground (
    arith,
    compare_flip keys a.end b.end,
    compare_flip keys v a.end,
    compare_flip keys v b.end,
    compare_trans keys b.end a.end v,
    eq_of_compare keys v a.end,
    eq_of_compare keys a.end b.end,
  )

  -- A start and an end that leave room between them: what is above the end is not below the start.
  room_between :
      (s : Value) (s_open : Bool) (e : Value) (e_open : Bool) (v : Value)
      → is_empty_range keys s s_open e e_open ≡ false
      → is_above_end keys (record { start = s; start_open = s_open; end = e; end_open = e_open }) v
        ≡ true
      → is_below_start keys
          (record { start = s; start_open = s_open; end = e; end_open = e_open })
          v
        ≡ false
  unfolding is_empty_range is_above_end is_below_start
  room_between s s_open e e_open v h k = ground (
    arith,
    compare_flip keys v e,
    compare_flip keys v s,
    compare_trans keys s e v,
    eq_of_compare keys v e,
    eq_of_compare keys s e,
  )

  bounds_of_nonempty :
      (a : Range) (v : Value)
      → is_empty keys a ≡ false
      → is_above_end keys a v ≡ true
      → is_below_start keys a v ≡ false
  unfolding is_empty
  bounds_of_nonempty a v h k = room_between a.start a.start_open a.end a.end_open v h k

  adjacent_bound :
      (a b : Range) (v : Value)
      → disjoint_and_sorted_ranges_adjacent keys a b ≡ true
      → is_above_end keys a v ≡ true
      → is_below_start keys b v ≡ false
  unfolding disjoint_and_sorted_ranges_adjacent is_above_end is_below_start
  adjacent_bound a b v h k = ground (
    arith,
    eq_of_eq_value keys a.end b.start,
    consecutive_next keys a.end b.start v,
    consecutive_lt keys a.end b.start,
    eq_of_compare keys v a.end,
  )

  start-cases : (a b : Range) → (intersect_start keys a b ≡ a) ⊎ (intersect_start keys a b ≡ b)
  unfolding intersect_start
  start-cases a b = ground arith

  end-cases : (a b : Range) → (intersect_end keys a b ≡ a) ⊎ (intersect_end keys a b ≡ b)
  unfolding intersect_end
  end-cases a b = ground arith

  -- The intersection starts no earlier, and ends no later, than either range.
  below-intersect_start :
      (a b : Range) (v : Value)
      → is_below_start keys (intersect_start keys a b) v ≡ false
      → (is_below_start keys a v ≡ false) × (is_below_start keys b v ≡ false)
  unfolding intersect_start is_below_start
  below-intersect_start a b v h = ground (
    arith,
    compare_flip keys a.start b.start,
    compare_flip keys v a.start,
    compare_flip keys v b.start,
    compare_trans keys v a.start b.start,
    compare_trans keys v b.start a.start,
    compare_trans keys a.start b.start v,
    compare_trans keys b.start a.start v,
    eq_of_compare keys v a.start,
    eq_of_compare keys v b.start,
    eq_of_compare keys a.start b.start,
  )

  above-intersect_end :
      (a b : Range) (v : Value)
      → (is_above_end keys a v ≡ true) ⊎ (is_above_end keys b v ≡ true)
      → is_above_end keys (intersect_end keys a b) v ≡ true
  unfolding intersect_end is_above_end
  above-intersect_end a b v h = ground (
    arith,
    compare_flip keys a.end b.end,
    compare_flip keys v a.end,
    compare_flip keys v b.end,
    compare_trans keys v a.end b.end,
    compare_trans keys v b.end a.end,
    compare_trans keys a.end b.end v,
    compare_trans keys b.end a.end v,
    eq_of_compare keys v a.end,
    eq_of_compare keys v b.end,
    eq_of_compare keys a.end b.end,
  )

  overlap_bounds :
      (a b : Range) (v : Value)
      → has_overlap keys a b ≡ true
      → (is_above_end keys a v ≡ true) ⊎ (is_above_end keys b v ≡ true)
      → (is_below_start keys a v ≡ false) × (is_below_start keys b v ≡ false)
  unfolding has_overlap is_above_end is_below_start
  overlap_bounds a b v h k =
      let s = intersect_start keys a b in
      let e = intersect_end keys a b in
      below-intersect_start a b v (
        room_between s.start s.start_open e.end e.end_open v (ground arith)
          (above-intersect_end a b v k))

  later_start : (a b : Range) → start_less keys a b ≡ true → intersect_start keys a b ≡ b
  unfolding start_less intersect_start
  later_start a b h = ground arith

  later_start_right : (a b : Range) → start_less keys a b ≡ true → intersect_start keys b a ≡ b
  unfolding start_less intersect_start
  later_start_right a b h = ground (arith, compare_flip keys a.start b.start)

  -- Without room between them, what is not below the start is above the end.
  no_room_between :
      (s : Range) (e : Range) (k : Bytes)
      → is_empty_range keys s.start s.start_open e.end e.end_open ≡ true
      → is_below_start keys s (finite k) ≡ false
      → is_above_end keys e (finite k) ≡ true
  unfolding is_empty_range is_above_end is_below_start
  no_room_between s e k h b = ground (
    arith,
    compare_flip keys (finite k) e.end,
    compare_flip keys (finite k) s.start,
    compare_flip keys s.start e.end,
    compare_trans keys e.end s.start (finite k),
    eq_of_compare keys (finite k) s.start,
    eq_of_compare keys s.start e.end,
    consecutive_next keys s.start e.end (finite k),
    infinity_last keys s.start k,
  )

  no_overlap_left :
      (a b : Range) (k : Bytes)
      → has_overlap keys a b ≡ false
      → is_empty keys b ≡ false
      → start_less keys a b ≡ true
      → is_below_start keys b (finite k) ≡ false
      → is_above_end keys a (finite k) ≡ true
  unfolding has_overlap is_empty
  no_overlap_left a b k h full less below = elim (end-cases a b) [
    | inl ends ↦
        subst (λ e. is_above_end keys e (finite k) ≡ true) ends
          (no_room_between b (intersect_end keys a b) k (ground (arith, later_start a b less))
            below)
    | inr ends ↦ absurd (ground (arith, later_start a b less, ends))
  ]

  no_overlap_right :
      (a b : Range) (k : Bytes)
      → has_overlap keys b a ≡ false
      → is_empty keys b ≡ false
      → start_less keys a b ≡ true
      → is_below_start keys b (finite k) ≡ false
      → is_above_end keys a (finite k) ≡ true
  unfolding has_overlap is_empty
  no_overlap_right a b k h full less below = elim (end-cases b a) [
    | inr ends ↦
        subst (λ e. is_above_end keys e (finite k) ≡ true) ends
          (no_room_between b (intersect_end keys b a) k (ground (arith, later_start_right a b less))
            below)
    | inl ends ↦ absurd (ground (arith, later_start_right a b less, ends))
  ]

  same_start :
      (a b : Range)
      → start_less keys a b ≡ false
      → start_less keys b a ≡ false
      → (a.start ≡ b.start) × (a.start_open ≡ b.start_open)
  unfolding start_less
  same_start a b h k =
      ground (arith, compare_flip keys a.start b.start, eq_of_compare keys a.start b.start)

  overlap_of_same_start :
      (a b : Range)
      → start_less keys a b ≡ false
      → start_less keys b a ≡ false
      → is_empty keys a ≡ false
      → is_empty keys b ≡ false
      → has_overlap keys a b ≡ true
  unfolding has_overlap is_empty
  overlap_of_same_start a b h k full_a full_b =
      ground (arith, same_start a b h k, start-cases a b, end-cases a b)

  -- The operations of `StringRangeSet::Range` have the laws of a range type, with the strings
  -- as its points.
  pub string_range-IsRangeType : IsRangeType (string_range keys)
  unfolding set_start set_end start_less is_below_start is_above_end
  string_range-IsRangeType = record {
    start_asymm = start_asymm;
    start_trans = start_trans;
    below_of_less = λ a b v. below_of_less a b (finite v);
    below_of_not_less = λ a b v. below_of_not_less a b (finite v);
    above_of_less = λ a b v. above_of_less a b (finite v);
    above_of_not_less = λ a b v. above_of_not_less a b (finite v);
    overlap_left = λ a b v h k. (overlap_bounds a b (finite v) h (inl k)).1;
    overlap_right = λ a b v h k. (overlap_bounds a b (finite v) h (inr k)).0;
    no_overlap_left = λ a b v h _ full. no_overlap_left a b v h full;
    no_overlap_right = λ a b v h _ full. no_overlap_right a b v h full;
    overlap_of_same_start = overlap_of_same_start;
    adjacent_bound = λ a b v. adjacent_bound a b (finite v);
    bounds_of_nonempty = λ a v. bounds_of_nonempty a (finite v);
    set_start_below = λ a b v. refl;
    set_start_above = λ a b v. refl;
    set_end_below = λ a b v. refl;
    set_end_above = λ a b v. refl;
    start_less-set_start_left = λ a b c. refl;
    start_less-set_start_right = λ a b c. refl;
    start_less-set_end_left = λ a b c. refl;
    start_less-set_end_right = λ a b c. refl;
  }
