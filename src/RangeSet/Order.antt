-- ===== src/RangeSet/Order.antt =====
-- The order of the ranges in a set: what its search and its insertion do to an ordered list.
use bigtable_emulator.Common.{
  true, false, List, [], ◌∷◌, ◌++◌, none, some, ◌≡◌, refl, All, arith, Option-cases, inl, inr,
}
use bigtable_emulator.RangeSet.{RangeType, unsnoc, insert, not_after, upper_bound}
use bigtable_emulator.RangeSet.Laws.{IsRangeType}

pub All-append {ℓ κ} :
    {A : Type ℓ} (P : A → Type κ) (xs ys : List A) → All P (xs ++ ys) → All P xs × All P ys
All-append P [] ys h = (tt, h)
All-append P (x ∷ xs) ys h = let rest = All-append P xs ys h.1 in ((h.0, rest.0), rest.1)

pub All-map {ℓ κ} :
    {A : Type ℓ} (P Q : A → Type κ) (xs : List A) → ((x : A) → P x → Q x) → All P xs → All Q xs
All-map P Q [] f h = tt
All-map P Q (x ∷ xs) f h = (f x h.0, All-map P Q xs f h.1)

pub append-All {ℓ κ} :
    {A : Type ℓ} (P : A → Type κ) (xs ys : List A) → All P xs → All P ys → All P (xs ++ ys)
append-All P [] ys h k = k
append-All P (x ∷ xs) ys h k = (h.0, append-All P xs ys h.1 k)

pub unsnoc-none {ℓ} : {A : Type ℓ} (xs : List A) → unsnoc xs ≡ none → xs ≡ []
unsnoc-none [] h = refl
unsnoc-none (x ∷ xs) h = elim (Option-cases (unsnoc xs)) [
  | inl e ↦ absurd (ground arith)
  | inr (p, e) ↦ absurd (ground arith)
]

pub unsnoc-some {ℓ} :
    {A : Type ℓ} (xs ys : List A) (y : A) → unsnoc xs ≡ some (ys, y) → xs ≡ ys ++ (y ∷ [])
unsnoc-some [] ys y h = absurd (ground arith)
unsnoc-some (x ∷ xs) ys y h = elim (Option-cases (unsnoc xs)) [
  | inl e ↦ let empty = unsnoc-none xs e in ground (arith, e, empty)
  | inr ((zs, z), e) ↦ let rest = unsnoc-some xs zs z e in ground (arith, e, rest)
]

module _ {R V : Type 0} (o : RangeType R V) (l : IsRangeType o) where
  open o use {start_less, end_less, set_start, set_end}

  -- Every start of the list is after that of `r`.
  abbrev pub AllStartAfter : R → List R → Type 0
  AllStartAfter r = All (λ s. start_less r s ≡ true)

  abbrev pub StartsIncrease : List R → Type 0
  StartsIncrease [] = Unit {0}
  StartsIncrease (r ∷ rs) = AllStartAfter r rs × StartsIncrease rs

  pub AllStartAfter-weaken :
      (q r : R) (rs : List R) → start_less r q ≡ false → AllStartAfter r rs → AllStartAfter q rs
  AllStartAfter-weaken q r [] h a = tt
  AllStartAfter-weaken q r (s ∷ rs) h a =
      (ground (arith, l.start_trans r s q), AllStartAfter-weaken q r rs h a.1)

  pub not_after-append : (x : R) (rs : List R) → not_after o x rs ++ upper_bound o x rs ≡ rs
  unfolding not_after upper_bound
  not_after-append x [] = refl
  not_after-append x (r ∷ rs) = ground (arith, not_after-append x rs)

  pub not_after-All : (x : R) (rs : List R) → All (λ r. start_less x r ≡ false) (not_after o x rs)
  unfolding not_after
  not_after-All x [] = tt
  not_after-All x (r ∷ rs) = ground (arith, not_after-All x rs)

  pub upper_bound-All :
      (x : R) (rs : List R) → StartsIncrease rs → AllStartAfter x (upper_bound o x rs)
  unfolding upper_bound
  upper_bound-All x [] s = tt
  upper_bound-All x (r ∷ rs) s =
      ground (arith, upper_bound-All x rs s.1, l.start_asymm x r, AllStartAfter-weaken x r rs)

  -- A range with a place of its own is inserted there.
  pub insert-between :
      (x : R) (before after : List R)
      → All (λ r. start_less r x ≡ true) before
      → AllStartAfter x after
      → insert o x (before ++ after) ≡ before ++ (x ∷ after)
  unfolding insert
  insert-between x [] [] b a = refl
  insert-between x [] (s ∷ after) b a = ground arith
  insert-between x (r ∷ before) after b a =
      ground (arith, insert-between x before after b.1 a, l.start_asymm r x)

  -- In an increasing list all starts are before the last one.
  pub before_last :
      (before : List R) (p : R)
      → StartsIncrease (before ++ (p ∷ []))
      → All (λ r. start_less r p ≡ true) before
  before_last [] p s = tt
  before_last (r ∷ before) p s =
      let rest = All-append (λ q. start_less r q ≡ true) before (p ∷ []) s.0 in
      (rest.1.0, before_last before p s.1)

  pub StartsIncrease-left : (xs ys : List R) → StartsIncrease (xs ++ ys) → StartsIncrease xs
  StartsIncrease-left [] ys s = tt
  StartsIncrease-left (x ∷ xs) ys s =
      ((All-append (λ q. start_less x q ≡ true) xs ys s.0).0, StartsIncrease-left xs ys s.1)

  -- What is before `p` is before everything that is not before `p`.
  pub before_weaken :
      (before : List R) (p x : R)
      → start_less x p ≡ false
      → All (λ r. start_less r p ≡ true) before
      → All (λ r. start_less r x ≡ true) before
  before_weaken [] p x h b = tt
  before_weaken (r ∷ before) p x h b = (l.start_trans r p x b.0 h, before_weaken before p x h b.1)
