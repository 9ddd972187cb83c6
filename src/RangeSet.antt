-- ===== src/RangeSet.antt =====
-- The range sets of range_set.h and range_set.cc. This file holds the two templates, over the
-- operations of a range type; `TimestampRangeSet` and `StringRangeSet` are the two instances. A
-- `std::set<Range, StartLess>` is the list of its ranges in the order of `StartLess`.
pub mod Laws
pub mod Order
pub mod Sum
use bigtable_emulator.Common.{
  Bool, true, false, not, ◌&&◌, ◌||◌, List, [], ◌∷◌, ◌++◌, Option, none, some, ℕ, zero, suc,
  if◌then◌else◌, any_of, length,
}

-- What the templates use of a range type `R`, with its points `V`.
pub record RangeType (R V : Type 0) : Type 0 where
  pub start_less : R → R → Bool
  pub end_less : R → R → Bool
  pub has_overlap : R → R → Bool
  pub adjacent : R → R → Bool
  pub set_start : R → R → R
  pub set_end : R → R → R
  pub is_empty : R → Bool
  pub is_below_start : R → V → Bool
  pub is_above_end : R → V → Bool

abbrev pub unsnoc {ℓ} : {A : Type ℓ} → List A → Option (List A × A)
unsnoc [] = none
unsnoc (x ∷ xs) = elim (unsnoc xs) [ none ↦ some ([], x) | some (ys, y) ↦ some (x ∷ ys, y) ]

module _ {R V : Type 0} (o : RangeType R V) where
  open o use {
    start_less, end_less, has_overlap, adjacent, set_start, set_end, is_below_start, is_above_end,
  }

  abbrev pub is_within : R → V → Bool
  is_within r v = not (is_above_end r v) && not (is_below_start r v)

  -- Whether some range of the set holds the point.
  abbrev pub covers : List R → V → Bool
  covers rs v = any_of (λ r. is_within r v) rs

  -- `std::set::insert`, which does nothing where an equivalent range is present.
  unfoldable pub insert : R → List R → List R
  insert x [] = x ∷ []
  insert x (r ∷ rs) =
      if start_less x r then x ∷ r ∷ rs else if start_less r x then r ∷ insert x rs else r ∷ rs

  -- The ranges before `upper_bound(x)`, and those from there on.
  unfoldable pub not_after : R → List R → List R
  not_after x [] = []
  not_after x (r ∷ rs) = if start_less x r then [] else r ∷ not_after x rs

  unfoldable pub upper_bound : R → List R → List R
  upper_bound x [] = []
  upper_bound x (r ∷ rs) = if start_less x r then r ∷ rs else upper_bound x rs

  -- `if (EndLess()(x, r)) x.set_end(r)`.
  abbrev pub extend_end : R → R → R
  extend_end x r = if end_less x r then set_end x r else x

  -- `if (StartLess()(r, x)) x.set_start(r)`.
  abbrev pub extend_start : R → R → R
  extend_start x r = if start_less r x then set_start x r else x

  -- The rest of the `do … while` after its first round: the range as extended, and what stays.
  unfoldable pub absorb : R → List R → R × List R
  absorb x [] = (x, [])
  absorb x (r ∷ rs) =
      let more = absorb (extend_end x r) rs in
      if has_overlap r x || adjacent x r then more else (x, r ∷ rs)

  -- From the first range to remove on. The first round of the loop is not guarded.
  unfoldable pub replace_from : List R → List R → R → List R
  unfolding absorb insert
  replace_from kept [] x = insert x kept
  replace_from kept (r ∷ rs) x =
      let (x', rest) = absorb (extend_end (extend_start x r) r) rs in insert x' (kept ++ rest)

  -- `RangeSetSumImpl`.
  unfoldable pub range_set_sum : List R → R → List R
  unfolding replace_from not_after upper_bound
  range_set_sum rs x = elim (unsnoc (not_after x rs)) [
    | none ↦ replace_from [] (upper_bound x rs) x
    | some (before, previous) ↦
        if has_overlap previous x || adjacent previous x
        then replace_from before (previous ∷ upper_bound x rs) x
        else replace_from (not_after x rs) (upper_bound x rs) x
  ]

  -- The ranges of the set before `x`, and those that are not.
  unfoldable pub before : R → List R → List R
  before x [] = []
  before x (r ∷ rs) = if start_less r x then r ∷ before x rs else []

  unfoldable pub not_before : R → List R → List R
  not_before x [] = []
  not_before x (r ∷ rs) = if start_less r x then not_before x rs else r ∷ rs

  -- An iterator into a set: what is before it, what it points to, and what follows.
  abbrev pub Iterator : Type 0
  Iterator = List R × R × List R

  -- `emplace(x).first`: the iterator to `x`, or to the range that is equivalent to it.
  unfoldable pub emplace : R → List R → Iterator
  unfolding before not_before
  emplace x rs = elim (not_before x rs) [
    | [] ↦ (before x rs, x, [])
    | r ∷ later ↦ if start_less x r then (before x rs, x, r ∷ later) else (before x rs, r, later)
  ]

  -- The two updates of a range that overlaps `x`: it is erased, changed and emplaced again.
  unfoldable pub clip_start : R → Iterator → Iterator
  unfolding emplace
  clip_start x (done, r, rs) =
      if start_less r x then emplace (set_start r x) (done ++ rs) else (done, r, rs)

  unfoldable pub clip_end : R → Iterator → Iterator
  unfolding emplace
  clip_end x (done, r, rs) =
      if end_less x r then emplace (set_end r x) (done ++ rs) else (done, r, rs)

  -- The loop of `RangeSetIntersectImpl`: the ranges before the iterator, those from it on, and a
  -- bound on the rounds left.
  unfoldable pub intersect_loop : ℕ → R → List R → List R → List R
  unfolding clip_start clip_end
  intersect_loop zero x done rs = done ++ rs
  intersect_loop (suc fuel) x done [] = done
  intersect_loop (suc fuel) x done (r ∷ rs) = elim (has_overlap r x) [
    | false ↦ intersect_loop fuel x done rs
    | true ↦
        let (done', r', rs') = clip_end x (clip_start x (done, r, rs)) in
        intersect_loop fuel x (done' ++ (r' ∷ [])) rs'
  ]

  -- `RangeSetIntersectImpl`. Every round passes a range, so as many rounds as ranges are enough.
  unfoldable pub range_set_intersect : List R → R → List R
  unfolding intersect_loop
  range_set_intersect rs x = intersect_loop (length rs) x [] rs
