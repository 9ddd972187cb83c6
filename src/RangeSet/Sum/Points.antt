-- ===== src/RangeSet/Sum/Points.antt =====
-- The points that a set holds after `RangeSetSumImpl`, on each of its branches.
use bigtable_emulator.Common.{
  Bool, true, false, not, ◌&&◌, ◌||◌, List, [], ◌∷◌, ◌++◌, none, some, ◌≡◌, refl, sym, ap, ◌∙◌,
  subst, if◌then◌else◌, All, arith, Bool-cases, Option-cases, List-cases, inl, inr,
}
use bigtable_emulator.RangeSet.{
  RangeType, unsnoc, is_within, covers, not_after, upper_bound, extend_end, extend_start,
  replace_from, range_set_sum,
}
use bigtable_emulator.RangeSet.Laws.{IsRangeType}
use bigtable_emulator.RangeSet.Order.{
  All-append, append-All, unsnoc-none, unsnoc-some, AllStartAfter, StartsIncrease, not_after-append,
  not_after-All, upper_bound-All, before_last, StartsIncrease-left, before_weaken,
}
use bigtable_emulator.RangeSet.Sum.{
  any_of-append, within-extend_end, within-extend_both, covers-replace_from, before_extend_start,
  after_extend_start, within-reach, covers-replace_from_nil,
}

module _ {R V : Type 0} (o : RangeType R V) where
  open o use {has_overlap, adjacent, is_empty}

  -- Two ranges that overlap, or the first of which ends where the second starts.
  abbrev pub touches : R → R → Bool
  touches p x = has_overlap p x || adjacent p x

  -- Whether the last range that does not start after `x` touches it.
  abbrev pub previous_touches : List R → R → Bool
  previous_touches rs x = elim (unsnoc (not_after o x rs)) [
    | none ↦ false
    | some (before, previous) ↦ touches previous x
  ]

  -- Whether the next range after `x` is apart from it, and is the one that the loop starts with.
  abbrev pub takes_detached : List R → R → Bool
  takes_detached rs x = elim (upper_bound o x rs) [
    | [] ↦ false
    | r ∷ after ↦ not (previous_touches rs x) && not (has_overlap r x || adjacent x r)
  ]

  abbrev pub NonEmpty : List R → Type 0
  NonEmpty = All (λ r. is_empty r ≡ false)

module _ {R V : Type 0} (o : RangeType R V) (l : IsRangeType o) (rs : List R) (x : R) where
  open o use {start_less, has_overlap, adjacent, is_empty}

  module _ (increase : StartsIncrease o l rs) (full : NonEmpty o rs)
      (x_full : is_empty x ≡ false) where
    covers-parts :
        (v : V) → covers o rs v ≡ (covers o (not_after o x rs) v || covers o (upper_bound o x rs) v)
    covers-parts v =
        sym (ap (λ q. covers o q v) (not_after-append o l x rs))
        ∙ any_of-append o l v (not_after o x rs) (upper_bound o x rs)

    after_x : AllStartAfter o l x (upper_bound o x rs)
    after_x = upper_bound-All o l x rs increase

    module _ (before : List R) (p : R) (last : unsnoc (not_after o x rs) ≡ some (before, p)) where
      split : not_after o x rs ≡ before ++ (p ∷ [])
      split = unsnoc-some (not_after o x rs) before p last

      p_not_after : start_less x p ≡ false
      p_not_after =
          (All-append (λ r. start_less x r ≡ false) before (p ∷ [])
            (subst (All (λ r. start_less x r ≡ false)) split (not_after-All o l x rs))).1.0

      before_p : All (λ r. start_less r p ≡ true) before
      before_p = before_last o l before p (
          subst (StartsIncrease o l) split (
            StartsIncrease-left o l (not_after o x rs) (upper_bound o x rs)
              (subst (StartsIncrease o l) (sym (not_after-append o l x rs)) increase)))

      p_full : is_empty p ≡ false
      p_full =
          (All-append (λ r. is_empty r ≡ false) before (p ∷ [])
            (subst (NonEmpty o) split
              (All-append (λ r. is_empty r ≡ false) (not_after o x rs) (upper_bound o x rs)
                (subst (NonEmpty o) (sym (not_after-append o l x rs)) full)).0)).1.0

      -- With the previous range taken in, the set holds the points of both.
      covers-sum_touching :
          (v : V)
          → touches o p x ≡ true
          → covers o (replace_from o before (p ∷ upper_bound o x rs) x) v
            ≡ (covers o rs v || is_within o x v)
      covers-sum_touching v t =
          covers-replace_from o l before (upper_bound o x rs) p x v
            (before_extend_start o l x p before p_not_after before_p)
            (after_extend_start o l x p (upper_bound o x rs) p_not_after after_x)
          ∙ ground (
            arith,
            covers-parts v,
            ap (λ q. covers o q v) split,
            any_of-append o l v before (p ∷ []),
            within-extend_both o l p x v p_not_after t,
          )

      -- Without a previous range that touches it, every range before `x` starts before it.
      starts_before : touches o p x ≡ false → All (λ r. start_less r x ≡ true) (not_after o x rs)
      starts_before t = subst (All (λ r. start_less r x ≡ true)) (sym split) (
          append-All (λ r. start_less r x ≡ true) before (p ∷ [])
            (before_weaken o l before p x p_not_after before_p)
            (ground (arith, l.overlap_of_same_start p x, p_full, p_not_after), tt))

    unmoved : {r : R} → start_less r x ≡ false → extend_start o x r ≡ x
    unmoved late = ground arith

    -- The first round extends `x` to the end of the next range, if there is one.
    abbrev reach : V → Bool
    reach v = elim (upper_bound o x rs) [
      | [] ↦ is_within o x v
      | r ∷ after ↦ is_within o (extend_end o x r) v
    ]

    covers-sum_apart :
        (v : V)
        → All (λ r. start_less r x ≡ true) (not_after o x rs)
        → covers o (replace_from o (not_after o x rs) (upper_bound o x rs) x) v
          ≡ (covers o rs v || reach v)
    covers-sum_apart v b = go (upper_bound o x rs) refl
      where
        go :
            (u : List R)
            → upper_bound o x rs ≡ u
            → covers o (replace_from o (not_after o x rs) u x) v ≡ (covers o rs v || reach v)
        go [] e =
            covers-replace_from_nil o l (not_after o x rs) x v b ∙ ground (arith, e, covers-parts v)
        go (r ∷ after) e =
            let a = subst (AllStartAfter o l x) e after_x in
            let late = l.start_asymm x r a.0 in
            covers-replace_from o l (not_after o x rs) after r x v
              (subst (λ y. All (λ k. start_less k y ≡ true) (not_after o x rs)) (sym (unmoved late))
                b)
              (subst (λ y. AllStartAfter o l y after) (sym (unmoved late)) a.1)
            ∙ ground (arith, e, late, covers-parts v, within-reach o l x r v)

    covers-range_set_sum :
        (v : V)
        → covers o (range_set_sum o rs x) v ≡ (
            if previous_touches o rs x
            then covers o rs v || is_within o x v
            else covers o rs v || reach v)
    unfolding range_set_sum
    covers-range_set_sum v = elim (Option-cases (unsnoc (not_after o x rs))) [
      | inl e ↦
          let empty = unsnoc-none (not_after o x rs) e in
          rw (e, range_set_sum, previous_touches)
            (subst
              (λ q.
                covers o (replace_from o q (upper_bound o x rs) x) v ≡ (covers o rs v || reach v))
              empty (covers-sum_apart v (subst (All (λ r. start_less r x ≡ true)) (sym empty) tt)))
      | inr ((before, p), e) ↦ elim (Bool-cases (touches o p x)) [
        | inl t ↦ rw (e, range_set_sum, previous_touches, t) (covers-sum_touching before p e v t)
        | inr t ↦
            rw (e, range_set_sum, previous_touches, t)
              (covers-sum_apart v (starts_before before p e t))
      ]
    ]

    -- Over a range type with the laws, for a set of ranges that are not empty and whose
    -- starts increase, and a range that is not empty: unless `takes_detached` holds, the set
    -- after `RangeSetSumImpl` holds a point just if the set did or the added range does.
    pub range_set_sum-exact :
        (v : V)
        → takes_detached o rs x ≡ false
        → covers o (range_set_sum o rs x) v ≡ (covers o rs v || is_within o x v)
    range_set_sum-exact v h = elim (List-cases (upper_bound o x rs)) [
      | inl e ↦ ground (arith, e, covers-range_set_sum v)
      | inr (r, after, e) ↦
          let a = subst (AllStartAfter o l x) e after_x in
          ground (
            arith,
            e,
            h,
            covers-range_set_sum v,
            covers-parts v,
            within-extend_end o l x r v (l.start_asymm x r a.0),
          )
    ]

    -- Over a range type with the laws, for a set of ranges that are not empty and whose
    -- starts increase, and a range `x` that is not empty: where `takes_detached` holds, and
    -- `r` is the first range that starts after `x`, the set after `RangeSetSumImpl` holds a
    -- point just if the set did or `x`, extended to the end of `r`, does.
    pub range_set_sum-detached :
        (v : V) (r : R) (after : List R)
        → takes_detached o rs x ≡ true
        → upper_bound o x rs ≡ r ∷ after
        → covers o (range_set_sum o rs x) v ≡ (covers o rs v || is_within o (extend_end o x r) v)
    range_set_sum-detached v r after h e = ground (arith, e, h, covers-range_set_sum v)
