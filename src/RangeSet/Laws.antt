-- ===== src/RangeSet/Laws.antt =====
-- What the templates of range_set.cc ask of a range type: a range holds the points from its start
-- on and before its end, and the operations compare, join and move these bounds. The laws are
-- stated point by point, so that they need no order on the points.
use bigtable_emulator.Common.{true, false, ◌≡◌}
use bigtable_emulator.RangeSet.{RangeType}

module _ {R V : Type 0} (o : RangeType R V) where
  open o use {
    start_less, end_less, has_overlap, adjacent, set_start, set_end, is_empty, is_below_start,
    is_above_end,
  }

  pub record IsRangeType : Type 0 where
    -- `StartLess` is a strict order of the starts, up to starts that are equivalent.
    pub start_asymm : (a b : R) → start_less a b ≡ true → start_less b a ≡ false
    pub start_trans :
        (a b c : R) → start_less a b ≡ true → start_less c b ≡ false → start_less a c ≡ true
    -- An earlier start has fewer points below it, an earlier end more points above it.
    pub below_of_less :
        (a b : R) (v : V)
        → start_less a b ≡ true
        → is_below_start a v ≡ true
        → is_below_start b v ≡ true
    pub below_of_not_less :
        (a b : R) (v : V)
        → start_less a b ≡ false
        → is_below_start b v ≡ true
        → is_below_start a v ≡ true
    pub above_of_less :
        (a b : R) (v : V) → end_less a b ≡ true → is_above_end b v ≡ true → is_above_end a v ≡ true
    pub above_of_not_less :
        (a b : R) (v : V) → end_less a b ≡ false → is_above_end a v ≡ true → is_above_end b v ≡ true
    -- Each of two overlapping ranges starts before the other ends.
    pub overlap_left :
        (a b : R) (v : V)
        → has_overlap a b ≡ true
        → is_above_end a v ≡ true
        → is_below_start b v ≡ false
    pub overlap_right :
        (a b : R) (v : V)
        → has_overlap a b ≡ true
        → is_above_end b v ≡ true
        → is_below_start a v ≡ false
    -- No point is in two ranges that do not overlap, and the one that starts earlier ends first.
    pub no_overlap_left :
        (a b : R) (v : V)
        → has_overlap a b ≡ false
        → is_empty a ≡ false
        → is_empty b ≡ false
        → start_less a b ≡ true
        → is_below_start b v ≡ false
        → is_above_end a v ≡ true
    pub no_overlap_right :
        (a b : R) (v : V)
        → has_overlap b a ≡ false
        → is_empty a ≡ false
        → is_empty b ≡ false
        → start_less a b ≡ true
        → is_below_start b v ≡ false
        → is_above_end a v ≡ true
    pub overlap_of_same_start :
        (a b : R)
        → start_less a b ≡ false
        → start_less b a ≡ false
        → is_empty a ≡ false
        → is_empty b ≡ false
        → has_overlap a b ≡ true
    -- A range starts where the one that it is adjacent to ends.
    pub adjacent_bound :
        (a b : R) (v : V)
        → adjacent a b ≡ true
        → is_above_end a v ≡ true
        → is_below_start b v ≡ false
    -- A range that is not empty starts before it ends.
    pub bounds_of_nonempty :
        (a : R) (v : V) → is_empty a ≡ false → is_above_end a v ≡ true → is_below_start a v ≡ false
    -- The setters copy one bound and keep the other.
    pub set_start_below : (a b : R) (v : V) → is_below_start (set_start a b) v ≡ is_below_start b v
    pub set_start_above : (a b : R) (v : V) → is_above_end (set_start a b) v ≡ is_above_end a v
    pub set_end_below : (a b : R) (v : V) → is_below_start (set_end a b) v ≡ is_below_start a v
    pub set_end_above : (a b : R) (v : V) → is_above_end (set_end a b) v ≡ is_above_end b v
    pub start_less-set_start_left : (a b c : R) → start_less (set_start a b) c ≡ start_less b c
    pub start_less-set_start_right : (a b c : R) → start_less c (set_start a b) ≡ start_less c b
    pub start_less-set_end_left : (a b c : R) → start_less (set_end a b) c ≡ start_less a c
    pub start_less-set_end_right : (a b c : R) → start_less c (set_end a b) ≡ start_less c a
