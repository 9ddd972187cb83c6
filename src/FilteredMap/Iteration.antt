-- ===== src/FilteredMap/Iteration.antt =====
-- The iteration of a view of filtered_map.h, one entry of the map after the other.
use bigtable_emulator.Common.{
  ℕ, zero, suc, ◌≤◌, ◌<◌, true, false, List, [], ◌∷◌, ◌++◌, some, ◌≡◌, refl, sym, ap, ◌∙◌, subst,
  arith, length, keep, Less, Bool-cases, inl, inr,
}
use mathlib.Core.List.{append_assoc, append-nil}
use bigtable_emulator.StdMap.{IsSorted, AllAfter}
use bigtable_emulator.FilteredMap.{
  ViewKind, advance_to_next_range, ensure_iterator_valid, begin_at, visit, view,
}
use bigtable_emulator.FilteredMap.Ranges.{
  IsMonotone, drop_before, covered, Ordered, Seeks, Ready, Pointing, advance_to_next_range_lem,
  drop_before-suffix, drop_before-Ready, keep-drop_before, length-drop_before,
}

module _ {R K V : Type 0} ⦃order : Less K⦄ (o : ViewKind R K V) (l : IsMonotone o)
    (m : List (K × V)) (sorted : IsSorted m) where
  open o use {is_before, is_past}

  -- An iterator whose entry is in its range, with the same entries to visit.
  record Valid (pos : List (K × V)) (fs : List R) : Type 0 where
    pos' : List (K × V)
    fs' : List R
    before : List (K × V)
    reached : ensure_iterator_valid o m pos fs ≡ some (pos', fs')
    suffix : m ≡ before ++ pos'
    same : keep (λ e. covered o fs' e.0) pos' ≡ keep (λ e. covered o fs e.0) pos
    pointing : Pointing o pos' fs'
    ordered : Ordered o fs'
    seeks : Seeks o m fs'
    shorter : length pos' ≤ length pos

  past_all :
      (f : R) (fs : List R) (pos : List (K × V)) (k : K)
      → AllAfter k pos
      → is_past f k ≡ true
      → keep (λ e. covered o fs e.0) pos ≡ keep (λ e. covered o (f ∷ fs) e.0) pos
  past_all f fs [] k a h = refl
  past_all f fs ((j, v) ∷ pos) k a h =
      ground (arith, past_all f fs pos k a.1 h, l.past_mono f k j a.0 h)

  suffix-IsSorted : (before pos : List (K × V)) → IsSorted (before ++ pos) → IsSorted pos
  suffix-IsSorted [] pos s = s
  suffix-IsSorted (e ∷ before) pos s = suffix-IsSorted before pos s.1

  -- The entry is in the current range already.
  here :
      (f : R) (fs : List R) (before : List (K × V)) (k : K) (v : V) (later : List (K × V))
      → m ≡ before ++ ((k, v) ∷ later)
      → Ordered o (f ∷ fs)
      → Seeks o m (f ∷ fs)
      → is_before f k ≡ false
      → is_past f k ≡ false
      → Valid ((k, v) ∷ later) (f ∷ fs)
  unfolding ensure_iterator_valid
  here f fs before k v later e s q r h = record {
    pos' = (k, v) ∷ later;
    fs' = f ∷ fs;
    before = before;
    reached = rw (h, ensure_iterator_valid) refl;
    suffix = e;
    same = refl;
    pointing = (r, h);
    ordered = s;
    seeks = q;
    shorter = omega arith;
  }

  nothing_kept : (pos : List (K × V)) → keep (λ e. covered o [] e.0) pos ≡ []
  nothing_kept [] = refl
  nothing_kept (e ∷ pos) = nothing_kept pos

  -- Behind a range that the entry is past, the loop goes on with the next range.
  next_range :
      (f g : R) (fs : List R) (before : List (K × V)) (k : K) (v : V) (later : List (K × V))
      → m ≡ before ++ ((k, v) ∷ later)
      → Ordered o (g ∷ fs)
      → Seeks o m (g ∷ fs)
      → is_past f k ≡ true
      → Valid (drop_before o g ((k, v) ∷ later)) (g ∷ fs)
      → Valid ((k, v) ∷ later) (f ∷ g ∷ fs)
  unfolding ensure_iterator_valid
  next_range f g fs before k v later e s q h rest = record {
    pos' = rest.pos';
    fs' = rest.fs';
    before = rest.before;
    reached =
        rw (h, ensure_iterator_valid)
          (rw (advance_to_next_range_lem o l m before ((k, v) ∷ later) g fs e sorted q)
            rest.reached);
    suffix = rest.suffix;
    same = rest.same ∙ (keep-drop_before o l g fs ((k, v) ∷ later) s ∙ past_keep);
    pointing = rest.pointing;
    ordered = rest.ordered;
    seeks = rest.seeks;
    shorter = omega (arith, rest.shorter, length-drop_before o l g ((k, v) ∷ later));
  }
    where
      past_keep :
          keep (λ x. covered o (g ∷ fs) x.0) ((k, v) ∷ later)
          ≡ keep (λ x. covered o (f ∷ g ∷ fs) x.0) ((k, v) ∷ later)
      past_keep =
          let a = suffix-IsSorted before ((k, v) ∷ later) (subst (λ x. IsSorted x) e sorted) in
          ground (arith, h, past_all f (g ∷ fs) later k a.0 h)

  -- Behind the last range, the iterator is at the end.
  past_last :
      (f : R) (before : List (K × V)) (k : K) (v : V) (later : List (K × V))
      → m ≡ before ++ ((k, v) ∷ later)
      → is_past f k ≡ true
      → Valid ((k, v) ∷ later) (f ∷ [])
  unfolding ensure_iterator_valid advance_to_next_range
  past_last f before k v later e h = record {
    pos' = [];
    fs' = [];
    before = m;
    reached = rw (h, ensure_iterator_valid) refl;
    suffix = sym (append-nil m);
    same =
        let a = suffix-IsSorted before ((k, v) ∷ later) (subst (λ x. IsSorted x) e sorted) in
        ground (arith, h, past_all f [] later k a.0 h, nothing_kept later);
    pointing = tt;
    ordered = tt;
    seeks = tt;
    shorter = omega arith;
  }

  to_valid :
      (fs : List R) (before pos : List (K × V))
      → m ≡ before ++ pos
      → Ordered o fs
      → Seeks o m fs
      → Ready o pos fs
      → Valid pos fs
  unfolding ensure_iterator_valid
  to_valid [] before [] e s q r = record {
    pos' = [];
    fs' = [];
    before = before;
    reached = refl;
    suffix = e;
    same = refl;
    pointing = tt;
    ordered = tt;
    seeks = tt;
    shorter = omega arith;
  }
  to_valid [] before (c ∷ later) e s q r = absurd r
  to_valid (f ∷ fs) before [] e s q r = record {
    pos' = [];
    fs' = f ∷ fs;
    before = before;
    reached = refl;
    suffix = e;
    same = refl;
    pointing = tt;
    ordered = s;
    seeks = q;
    shorter = omega arith;
  }
  to_valid (f ∷ []) before ((k, v) ∷ later) e s q r = elim (Bool-cases (is_past f k)) [
    | inr h ↦ here f [] before k v later e s q r h
    | inl h ↦ past_last f before k v later e h
  ]
  to_valid (f ∷ g ∷ fs) before ((k, v) ∷ later) e s q r = elim (Bool-cases (is_past f k)) [
    | inr h ↦ here f (g ∷ fs) before k v later e s q r h
    | inl h ↦
        let (dropped, d) = drop_before-suffix o l g ((k, v) ∷ later) in
        next_range f g fs before k v later e s.1 q.1 h (
          to_valid (g ∷ fs) (before ++ dropped) (drop_before o g ((k, v) ∷ later))
            (e
              ∙ (ap (λ x. before ++ x) d
                  ∙ sym (append_assoc before dropped (drop_before o g ((k, v) ∷ later)))))
            s.1 q.1 (drop_before-Ready o l g fs ((k, v) ∷ later)))
  ]

  later_suffix :
      (before : List (K × V)) (e : K × V) (later : List (K × V))
      → m ≡ before ++ (e ∷ later)
      → m ≡ (before ++ (e ∷ [])) ++ later
  later_suffix before e later h = h ∙ sym (append_assoc before (e ∷ []) later)

  later_Ready :
      (before later : List (K × V)) (k : K) (v : V) (fs : List R)
      → m ≡ before ++ ((k, v) ∷ later)
      → Pointing o ((k, v) ∷ later) fs
      → Ready o later fs
  later_Ready before [] k v fs e p = tt
  later_Ready before ((j, w) ∷ later) k v [] e p = absurd p
  later_Ready before ((j, w) ∷ later) k v (f ∷ fs) e p =
      let a = suffix-IsSorted before ((k, v) ∷ (j, w) ∷ later) (subst (λ x. IsSorted x) e sorted) in
      ground (arith, p.0, l.before_mono f k j a.0.0)

  keep-pointed :
      (k : K) (v : V) (later : List (K × V)) (fs : List R)
      → Pointing o ((k, v) ∷ later) fs
      → keep (λ e. covered o fs e.0) ((k, v) ∷ later) ≡ (k, v) ∷ keep (λ e. covered o fs e.0) later
  keep-pointed k v later [] p = absurd p
  keep-pointed k v later (f ∷ fs) p = ground (arith, p.0, p.1)

  visit_lem :
      (fuel : ℕ) (fs : List R) (before pos : List (K × V))
      → length pos < fuel
      → m ≡ before ++ pos
      → Ordered o fs
      → Seeks o m fs
      → Pointing o pos fs
      → visit o m fuel pos fs ≡ some (keep (λ e. covered o fs e.0) pos)
  unfolding visit
  visit_lem zero fs before pos h e s q p = absurd (omega arith)
  visit_lem (suc fuel) fs before [] h e s q p = refl
  visit_lem (suc fuel) fs before ((k, v) ∷ later) h e s q p =
      let next =
        to_valid fs (before ++ ((k, v) ∷ [])) later (later_suffix before (k, v) later e) s q
          (later_Ready before later k v fs e p) in
      rw
        (
          next.reached,
          visit_lem fuel next.fs' next.before next.pos' (omega (arith, h, next.shorter)) next.suffix
              next.ordered next.seeks next.pointing,
        )
        (ap some (ap (λ x. (k, v) ∷ x) next.same ∙ sym (keep-pointed k v later fs p)))

  -- A view has the entries whose keys are in some range, in their order, and no others.
  pub view_lem :
      (fs : List R)
      → Ordered o fs
      → Seeks o m fs
      → view o m fs ≡ some (keep (λ e. covered o fs e.0) m)
  unfolding view begin_at visit ensure_iterator_valid advance_to_next_range
  view_lem [] s q = ap some (sym (nothing_kept m))
  view_lem (f ∷ fs) s q =
      let (dropped, d) = drop_before-suffix o l f m in
      let start =
        to_valid (f ∷ fs) dropped (drop_before o f m) d s q (drop_before-Ready o l f fs m) in
      rw
        (
          advance_to_next_range_lem o l m [] m f fs refl sorted q,
          start.reached,
          visit_lem (suc (length m)) start.fs' start.before start.pos'
              (omega (arith, start.shorter, length-drop_before o l f m)) start.suffix start.ordered
              start.seeks start.pointing,
        )
        (ap some (start.same ∙ keep-drop_before o l f fs m s))
