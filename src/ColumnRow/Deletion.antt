-- ===== src/ColumnRow/Deletion.antt =====
-- `ColumnRow::DeleteTimeRange` deletes the cells in its range and no others.
use bigtable_emulator.Common.{
  Bool, true, false, not, ◌&&◌, ◌||◌, [], ◌∷◌, ◌++◌, map, ◌≡◌, refl, ℤ, pos, ltb_ℤ, leb_ℤ, eqb_ℤ,
  freshest_first, keep, arith, Bool-cases, inl, inr,
}
use bigtable_emulator.Common.Bytes.{Bytes}
use bigtable_emulator.StdMap
use bigtable_emulator.StdMap.{IsSorted, AllAfter}
use bigtable_emulator.ColumnRow.{
  Cell, ColumnRow, TimestampRange, to_millis, delete_while, delete_time_range,
}

abbrev pub to_cell : ℤ × Bytes → Cell
to_cell e = record { timestamp = e.0; value = e.1 }

-- The time stamps of a range: from its start on, and before its end unless that is 0.
abbrev pub in_time_range : TimestampRange → ℤ → Bool
in_time_range r t =
    leb_ℤ (to_millis r.start_timestamp_micros) t
    && (eqb_ℤ r.end_timestamp_micros (pos 0) || ltb_ℤ t (to_millis r.end_timestamp_micros))

-- From `start` on, and before `end` if there is one.
abbrev within : ℤ → Bool → ℤ → ℤ → Bool
within start unbounded end t = leb_ℤ start t && (unbounded || ltb_ℤ t end)

module _ (start : ℤ) (unbounded : Bool) (end : ℤ) where
  abbrev chosen : ColumnRow → ColumnRow
  chosen = keep (λ e. within start unbounded end e.0)

  abbrev others : ColumnRow → ColumnRow
  others = keep (λ e. not (within start unbounded end e.0))

  chosen-stale :
      (t : ℤ) (cells : ColumnRow) → leb_ℤ start t ≡ false → AllAfter t cells → chosen cells ≡ []
  chosen-stale t [] h a = refl
  chosen-stale t ((u, v) ∷ cells) h a = ground (arith, chosen-stale t cells h a.1)

  others-stale :
      (t : ℤ) (cells : ColumnRow) → leb_ℤ start t ≡ false → AllAfter t cells → others cells ≡ cells
  others-stale t [] h a = refl
  others-stale t ((u, v) ∷ cells) h a = ground (arith, others-stale t cells h a.1)

  -- Where every cell is before the end, the loop takes the cells of the range off the front.
  delete_while-deleted :
      (cells : ColumnRow)
      → IsSorted cells
      → keep (λ e. not (unbounded || ltb_ℤ e.0 end)) cells ≡ []
      → (delete_while start cells).0 ≡ map to_cell (chosen cells)
  unfolding delete_while
  delete_while-deleted [] s b = refl
  delete_while-deleted ((t, v) ∷ cells) s b =
      ground (arith, delete_while-deleted cells s.1, chosen-stale t cells)

  delete_while-rest :
      (cells : ColumnRow)
      → IsSorted cells
      → keep (λ e. not (unbounded || ltb_ℤ e.0 end)) cells ≡ []
      → (delete_while start cells).1 ≡ others cells
  unfolding delete_while
  delete_while-rest [] s b = refl
  delete_while-rest ((t, v) ∷ cells) s b =
      ground (arith, delete_while-rest cells s.1, others-stale t cells)

module _ (start end : ℤ) where
  before_end :
      (t : ℤ) (cells : ColumnRow)
      → ltb_ℤ t end ≡ true
      → AllAfter t cells
      → keep (λ e. not (ltb_ℤ e.0 end)) cells ≡ []
  before_end t [] h a = refl
  before_end t ((u, v) ∷ cells) h a = ground (arith, before_end t cells h a.1)

  upper_bound-before :
      (cells : ColumnRow)
      → IsSorted cells
      → keep (λ e. not (ltb_ℤ e.0 end)) (StdMap.upper_bound end cells) ≡ []
  unfolding StdMap.upper_bound
  upper_bound-before [] s = refl
  upper_bound-before ((t, v) ∷ cells) s =
      ground (arith, upper_bound-before cells s.1, before_end t cells)

  upper_bound-IsSorted :
      (cells : ColumnRow) → IsSorted cells → IsSorted (StdMap.upper_bound end cells)
  unfolding StdMap.upper_bound
  upper_bound-IsSorted [] s = tt
  upper_bound-IsSorted ((t, v) ∷ cells) s = ground (arith, upper_bound-IsSorted cells s.1)

  chosen-upper_bound :
      (cells : ColumnRow)
      → chosen start false end (StdMap.upper_bound end cells) ≡ chosen start false end cells
  unfolding StdMap.upper_bound
  chosen-upper_bound [] = refl
  chosen-upper_bound ((t, v) ∷ cells) = ground (arith, chosen-upper_bound cells)

  others-upper_bound :
      (cells : ColumnRow)
      → StdMap.up_to end cells ++ others start false end (StdMap.upper_bound end cells)
        ≡ others start false end cells
  unfolding StdMap.upper_bound StdMap.up_to
  others-upper_bound [] = refl
  others-upper_bound ((t, v) ∷ cells) = ground (arith, others-upper_bound cells)

keep-nothing : (cells : ColumnRow) → keep (λ e. false) cells ≡ []
keep-nothing [] = refl
keep-nothing (c ∷ cells) = keep-nothing cells

-- On a sorted column, `DeleteTimeRange` keeps the cells with a time stamp outside the range, and
-- returns the others, both in their order.
pub delete_time_range_lem :
    (r : TimestampRange) (cells : ColumnRow)
    → IsSorted cells
    → delete_time_range r cells ≡ (
      keep (λ e. not (in_time_range r e.0)) cells,
      map to_cell (keep (λ e. in_time_range r e.0) cells),
    )
unfolding delete_time_range
delete_time_range_lem r cells s = elim (Bool-cases (eqb_ℤ r.end_timestamp_micros (pos 0))) [
  | inl e ↦ rw (
    e,
    delete_while-deleted start true end cells s (keep-nothing cells),
    delete_while-rest start true end cells s (keep-nothing cells),
  )
  | inr e ↦
      let sorted = upper_bound-IsSorted start end cells s in
      let before = upper_bound-before start end cells s in
      let found = StdMap.upper_bound end cells in
      rw (
        e,
        delete_while-deleted start false end found sorted before,
        delete_while-rest start false end found sorted before,
        chosen-upper_bound start end cells,
        others-upper_bound start end cells,
      )
]
  where
    start : ℤ
    start = to_millis r.start_timestamp_micros

    end : ℤ
    end = to_millis r.end_timestamp_micros
