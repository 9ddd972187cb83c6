-- ===== src/RangeSet/Sum.antt =====
-- `RangeSetSumImpl`: which points the set holds after a range was added.
pub mod Points
use bigtable_emulator.Common.{
  Bool, true, false, not, ◌&&◌, ◌||◌, List, [], ◌∷◌, ◌++◌, Option, none, some, ◌≡◌, refl, sym, ap,
  ◌∙◌, if◌then◌else◌, any_of, All, arith, Bool-cases, Option-cases, inl, inr,
}
use mathlib.Core.List.{append-nil}
use bigtable_emulator.RangeSet.{
  RangeType, unsnoc, is_within, covers, insert, not_after, upper_bound, extend_end, extend_start,
  absorb, replace_from, range_set_sum,
}
use bigtable_emulator.RangeSet.Laws.{IsRangeType}
use bigtable_emulator.RangeSet.Order.{
  All-append, append-All, All-map, unsnoc-none, unsnoc-some, AllStartAfter, StartsIncrease,
  AllStartAfter-weaken, not_after-append, not_after-All, upper_bound-All, insert-between,
}

module _ {R V : Type 0} (o : RangeType R V) (l : IsRangeType o) where
  open o use {
    start_less, end_less, has_overlap, adjacent, set_start, set_end, is_empty, is_below_start,
    is_above_end,
  }

  pub any_of-append :
      (v : V) (xs ys : List R) → covers o (xs ++ ys) v ≡ (covers o xs v || covers o ys v)
  any_of-append v [] ys = refl
  any_of-append v (x ∷ xs) ys = ground (arith, any_of-append v xs ys)

  -- The points of a range extended to the end of a later one that it touches.
  pub within-extend_end :
      (x r : R) (v : V)
      → start_less r x ≡ false
      → (has_overlap r x || adjacent x r) ≡ true
      → is_within o (extend_end o x r) v ≡ (is_within o x v || is_within o r v)
  within-extend_end x r v s h = ground (
    arith,
    l.below_of_not_less r x v,
    l.above_of_less x r v,
    l.above_of_not_less x r v,
    l.overlap_left r x v,
    l.overlap_right r x v,
    l.adjacent_bound x r v,
    l.set_end_below x r v,
    l.set_end_above x r v,
  )

  -- The same for a range that starts at or before it, and whose start it takes.
  pub within-extend_both :
      (p x : R) (v : V)
      → start_less x p ≡ false
      → (has_overlap p x || adjacent p x) ≡ true
      → is_within o (extend_end o (extend_start o x p) p) v ≡ (is_within o x v || is_within o p v)
  within-extend_both p x v s h = ground (
    arith,
    l.below_of_less p x v,
    l.below_of_not_less p x v,
    l.below_of_not_less x p v,
    l.above_of_less x p v,
    l.above_of_not_less x p v,
    l.above_of_less (set_start x p) p v,
    l.above_of_not_less (set_start x p) p v,
    l.overlap_left p x v,
    l.overlap_right p x v,
    l.adjacent_bound p x v,
    l.set_start_below x p v,
    l.set_start_above x p v,
    l.set_end_below x p v,
    l.set_end_above x p v,
    l.set_end_below (set_start x p) p v,
    l.set_end_above (set_start x p) p v,
  )

  start_less-extend_end : (x r s : R) → start_less s (extend_end o x r) ≡ start_less s x
  start_less-extend_end x r s = ground (arith, l.start_less-set_end_right x r s)

  extend_end-start_less : (x r s : R) → start_less (extend_end o x r) s ≡ start_less x s
  extend_end-start_less x r s = ground (arith, l.start_less-set_end_left x r s)

  -- The loop only moves the end of the range.
  pub start_less-absorb : (x s : R) (rs : List R) → start_less s (absorb o x rs).0 ≡ start_less s x
  unfolding absorb
  start_less-absorb x s [] = refl
  start_less-absorb x s (r ∷ rs) =
      ground (arith, start_less-absorb (extend_end o x r) s rs, start_less-extend_end x r s)

  pub absorb-start_less : (x s : R) (rs : List R) → start_less (absorb o x rs).0 s ≡ start_less x s
  unfolding absorb
  absorb-start_less x s [] = refl
  absorb-start_less x s (r ∷ rs) =
      ground (arith, absorb-start_less (extend_end o x r) s rs, extend_end-start_less x r s)

  NoneBefore : R → List R → Type 0
  NoneBefore x = All (λ r. start_less r x ≡ false)

  NoneBefore-extend_end :
      (x r : R) (rs : List R) → NoneBefore x rs → NoneBefore (extend_end o x r) rs
  unfolding NoneBefore
  NoneBefore-extend_end x r [] h = tt
  NoneBefore-extend_end x r (s ∷ rs) h =
      (start_less-extend_end x r s ∙ h.0, NoneBefore-extend_end x r rs h.1)

  -- The loop loses no point, and adds none: each range that it takes in touches the range.
  covers-absorb :
      (x : R) (rs : List R) (v : V)
      → NoneBefore x rs
      → (is_within o (absorb o x rs).0 v || covers o (absorb o x rs).1 v)
        ≡ (is_within o x v || covers o rs v)
  unfolding absorb NoneBefore
  covers-absorb x [] v h = refl
  covers-absorb x (r ∷ rs) v h = ground (
    arith,
    covers-absorb (extend_end o x r) rs v (NoneBefore-extend_end x r rs h.1),
    within-extend_end x r v h.0,
  )

  All-absorb {ℓ} : (P : R → Type ℓ) (x : R) (rs : List R) → All P rs → All P (absorb o x rs).1
  unfolding absorb
  All-absorb P x [] h = tt
  All-absorb P x (r ∷ rs) h = elim (Bool-cases (has_overlap r x || adjacent x r)) [
    | inl e ↦ rw (e, absorb) (All-absorb P (extend_end o x r) rs h.1)
    | inr e ↦ rw (e, absorb) h
  ]

  pub covers-insert_between :
      (x : R) (before after : List R) (v : V)
      → All (λ r. start_less r x ≡ true) before
      → AllStartAfter o l x after
      → covers o (insert o x (before ++ after)) v
        ≡ (covers o before v || (is_within o x v || covers o after v))
  covers-insert_between x before after v b a =
      rw (insert-between o l x before after b a, any_of-append v before (x ∷ after))

  NoneBefore-of_AllStartAfter : (x : R) (rs : List R) → AllStartAfter o l x rs → NoneBefore x rs
  unfolding NoneBefore
  NoneBefore-of_AllStartAfter x [] h = tt
  NoneBefore-of_AllStartAfter x (r ∷ rs) h =
      (l.start_asymm x r h.0, NoneBefore-of_AllStartAfter x rs h.1)

  -- The start of the range that the first round builds.
  abbrev pub joined : R → R → R
  joined x r = extend_end o (extend_start o x r) r

  pub covers-replace_from :
      (kept after : List R) (r x : R) (v : V)
      → All (λ k. start_less k (extend_start o x r) ≡ true) kept
      → AllStartAfter o l (extend_start o x r) after
      → covers o (replace_from o kept (r ∷ after) x) v
        ≡ (covers o kept v || (is_within o (joined x r) v || covers o after v))
  unfolding replace_from
  covers-replace_from kept after r x v b a =
      covers-insert_between (absorb o x1 after).0 kept (absorb o x1 after).1 v kept_before
        rest_after
      ∙ ap (λ c. covers o kept v || c)
          (covers-absorb x1 after v (NoneBefore-of_AllStartAfter x1 after after_x1))
    where
      x1 : R
      x1 = joined x r

      kept_before : All (λ k. start_less k (absorb o x1 after).0 ≡ true) kept
      kept_before =
          All-map (λ k. start_less k (extend_start o x r) ≡ true)
            (λ k. start_less k (absorb o x1 after).0 ≡ true) kept
            (λ k h.
              start_less-absorb x1 k after ∙ (start_less-extend_end (extend_start o x r) r k ∙ h))
            b

      after_x1 : AllStartAfter o l x1 after
      after_x1 =
          All-map (λ s. start_less (extend_start o x r) s ≡ true) (λ s. start_less x1 s ≡ true)
            after (λ s h. extend_end-start_less (extend_start o x r) r s ∙ h) a

      rest_after : AllStartAfter o l (absorb o x1 after).0 (absorb o x1 after).1
      rest_after =
          All-map (λ s. start_less x1 s ≡ true) (λ s. start_less (absorb o x1 after).0 s ≡ true)
            (absorb o x1 after).1 (λ s h. absorb-start_less x1 s after ∙ h)
            (All-absorb (λ s. start_less x1 s ≡ true) x1 after after_x1)

  pub before_extend_start :
      (x p : R) (before : List R)
      → start_less x p ≡ false
      → All (λ r. start_less r p ≡ true) before
      → All (λ r. start_less r (extend_start o x p) ≡ true) before
  before_extend_start x p [] h b = tt
  before_extend_start x p (r ∷ before) h b = (
    ground (arith, l.start_trans r p x b.0 h, l.start_less-set_start_right x p r),
    before_extend_start x p before h b.1,
  )

  pub after_extend_start :
      (x p : R) (after : List R)
      → start_less x p ≡ false
      → AllStartAfter o l x after
      → AllStartAfter o l (extend_start o x p) after
  after_extend_start x p [] h a = tt
  after_extend_start x p (s ∷ after) h a = (
    ground (
      arith,
      l.start_asymm x s a.0,
      l.start_trans p x s,
      l.start_trans x s p,
      l.start_less-set_start_left x p s,
    ),
    after_extend_start x p after h a.1,
  )

  pub within-reach :
      (x r : R) (v : V)
      → start_less r x ≡ false
      → is_within o r v ≡ true
      → is_within o (extend_end o x r) v ≡ true
  within-reach x r v s h = ground (
    arith,
    l.below_of_not_less r x v,
    l.above_of_not_less x r v,
    l.set_end_below x r v,
    l.set_end_above x r v,
  )

  -- With nothing to remove the range is inserted as it is.
  pub covers-replace_from_nil :
      (kept : List R) (x : R) (v : V)
      → All (λ k. start_less k x ≡ true) kept
      → covers o (replace_from o kept [] x) v ≡ (covers o kept v || (is_within o x v || false))
  unfolding replace_from
  covers-replace_from_nil kept x v b =
      ap (λ q. covers o (insert o x q) v) (sym (append-nil kept))
      ∙ covers-insert_between x kept [] v b tt
