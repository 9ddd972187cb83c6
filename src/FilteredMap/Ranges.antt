-- ===== src/FilteredMap/Ranges.antt =====
-- What a view of filtered_map.h asks of its ranges, and one move to the next range.
use bigtable_emulator.Common.{
  ◌≤◌, Bool, true, false, not, ◌&&◌, List, [], ◌∷◌, ◌++◌, some, ◌≡◌, refl, ap, ◌∙◌, subst, arith,
  if◌then◌else◌, length, any_of, All, keep, Less, Bool-cases, inl, inr,
}
use bigtable_emulator.StdMap.{IsSorted, AllAfter}
use bigtable_emulator.FilteredMap.{ViewKind, advance_to_next_range}

module _ {R K V : Type 0} ⦃order : Less K⦄ (o : ViewKind R K V) where
  open o use {is_before, is_past, seek}

  -- A key before a range has only such keys before it, and a key past one only such behind it.
  pub record IsMonotone : Type 0 where
    pub before_mono :
        (f : R) (j k : K) → order.less j k ≡ true → is_before f k ≡ true → is_before f j ≡ true
    pub past_mono :
        (f : R) (j k : K) → order.less j k ≡ true → is_past f j ≡ true → is_past f k ≡ true

  abbrev pub drop_before : R → List (K × V) → List (K × V)
  drop_before f [] = []
  drop_before f ((k, v) ∷ m) = if is_before f k then drop_before f m else (k, v) ∷ m

  -- Whether some range has the key.
  abbrev pub covered : List R → K → Bool
  covered fs k = any_of (λ f. not (is_before f k) && not (is_past f k)) fs

  -- What is before a range is before each later one.
  abbrev pub Ordered : List R → Type 0
  Ordered [] = Unit {0}
  Ordered (f ∷ fs) =
      All (λ g. (k : K) → is_before f k ≡ true → is_before g k ≡ true) fs × Ordered fs

  -- Where some key is before a range, the search drops the entries before it.
  abbrev pub Seeks : List (K × V) → List R → Type 0
  Seeks m = All (λ f. (k : K) → is_before f k ≡ true → seek f m ≡ some (drop_before f m))

  -- The entry that an iterator points to is not before the current range.
  abbrev pub Ready : List (K × V) → List R → Type 0
  Ready [] fs = Unit {0}
  Ready (e ∷ later) [] = ⊥
  Ready (e ∷ later) (f ∷ fs) = is_before f e.0 ≡ false

  -- The entry that an iterator points to is in the current range.
  abbrev pub Pointing : List (K × V) → List R → Type 0
  Pointing [] fs = Unit {0}
  Pointing (e ∷ later) [] = ⊥
  Pointing (e ∷ later) (f ∷ fs) = (is_before f e.0 ≡ false) × (is_past f e.0 ≡ false)

  module _ (l : IsMonotone) where
    drop_before-append :
        (f : R) (before later : List (K × V)) (k : K) (v : V)
        → IsSorted (before ++ ((k, v) ∷ later))
        → is_before f k ≡ true
        → drop_before f (before ++ ((k, v) ∷ later)) ≡ drop_before f ((k, v) ∷ later)
    drop_before-append f [] later k v s h = refl
    drop_before-append f ((j, w) ∷ before) later k v s h = ground (
      arith,
      drop_before-append f before later k v s.1 h,
      AllAfter-last before later j k v s.0,
      l.before_mono f j k,
    )
      where
        AllAfter-last :
            (xs ys : List (K × V)) (i p : K) (u : V)
            → AllAfter i (xs ++ ((p, u) ∷ ys))
            → order.less i p ≡ true
        AllAfter-last [] ys i p u a = a.0
        AllAfter-last (x ∷ xs) ys i p u a = AllAfter-last xs ys i p u a.1

    -- The move to the next range drops what is before it.
    pub advance_to_next_range_lem :
        (m before pos : List (K × V)) (f : R) (fs : List R)
        → m ≡ before ++ pos
        → IsSorted m
        → Seeks m (f ∷ fs)
        → advance_to_next_range o m pos (f ∷ fs) ≡ some (drop_before f pos)
    unfolding advance_to_next_range
    advance_to_next_range_lem m before [] f fs e s q = refl
    advance_to_next_range_lem m before ((k, v) ∷ later) f fs e s q =
        elim (Bool-cases (is_before f k)) [
          | inl h ↦
              rw (h, advance_to_next_range)
                (q.0 k h
                  ∙ ap some (
                      ap (drop_before f) e
                      ∙ drop_before-append f before later k v (subst (λ x. IsSorted x) e s) h
                      ∙ rw h refl))
          | inr h ↦ rw (h, advance_to_next_range) refl
        ]

    pub drop_before-suffix :
        (f : R) (pos : List (K × V))
        → (dropped : List (K × V)) × (pos ≡ dropped ++ drop_before f pos)
    drop_before-suffix f [] = ([], refl)
    drop_before-suffix f ((k, v) ∷ m) = elim (Bool-cases (is_before f k)) [
      | inl h ↦
          let (dropped, e) = drop_before-suffix f m in ((k, v) ∷ dropped, rw h (ap (◌∷◌ (k, v)) e))
      | inr h ↦ ([], rw h refl)
    ]

    pub length-drop_before : (f : R) (pos : List (K × V)) → length (drop_before f pos) ≤ length pos
    length-drop_before f [] = omega arith
    length-drop_before f ((k, v) ∷ m) = ground (arith, length-drop_before f m)

    pub drop_before-Ready :
        (f : R) (fs : List R) (pos : List (K × V)) → Ready (drop_before f pos) (f ∷ fs)
    drop_before-Ready f fs [] = tt
    drop_before-Ready f fs ((k, v) ∷ m) = elim (Bool-cases (is_before f k)) [
      | inl h ↦ rw h (drop_before-Ready f fs m)
      | inr h ↦ rw h h
    ]

    uncovered : (fs : List R) (k : K) → All (λ f. is_before f k ≡ true) fs → covered fs k ≡ false
    uncovered [] k h = refl
    uncovered (f ∷ fs) k h = ground (arith, h.0, uncovered fs k h.1)

    uncovered_before :
        (f : R) (fs : List R) (k : K)
        → Ordered (f ∷ fs)
        → is_before f k ≡ true
        → covered (f ∷ fs) k ≡ false
    uncovered_before f fs k s h = ground (arith, h, uncovered fs k (before_all fs k h s.0))
      where
        before_all :
            (gs : List R) (j : K)
            → is_before f j ≡ true
            → All (λ g. (i : K) → is_before f i ≡ true → is_before g i ≡ true) gs
            → All (λ g. is_before g j ≡ true) gs
        before_all [] j e a = tt
        before_all (g ∷ gs) j e a = (a.0 j e, before_all gs j e a.1)

    -- No range has an entry that is dropped.
    pub keep-drop_before :
        (f : R) (fs : List R) (pos : List (K × V))
        → Ordered (f ∷ fs)
        → keep (λ e. covered (f ∷ fs) e.0) (drop_before f pos)
          ≡ keep (λ e. covered (f ∷ fs) e.0) pos
    keep-drop_before f fs [] s = refl
    keep-drop_before f fs ((k, v) ∷ m) s =
        ground (arith, keep-drop_before f fs m s, uncovered_before f fs k s)
