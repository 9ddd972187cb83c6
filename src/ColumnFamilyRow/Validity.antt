-- ===== src/ColumnFamilyRow/Validity.antt =====
-- The invariant of `ColumnFamilyRow`: sorted qualifiers, sorted time stamps, and no empty column;
-- and the operations of column_family.cc against it.
use bigtable_emulator.Common.{
  [], ◌∷◌, none, some, ◌≡◌, refl, sym, subst, ℤ, arith, freshest_first, Option-cases, Bool-cases,
  inl, inr,
}
use bigtable_emulator.Common.Bytes.{Bytes, bytes_order}
use bigtable_emulator.Status.{StatusOr, ok}
use bigtable_emulator.External.{BigEndian}
use bigtable_emulator.StdMap
use bigtable_emulator.StdMap.{find, IsSorted, AllAfter}
use bigtable_emulator.StdMap.Sorted.{put-IsSorted, erase-IsSorted}
use bigtable_emulator.StdMap.Values.{AllValues, AllValues-find, AllValues-put, AllValues-erase}
use bigtable_emulator.ColumnRow
use bigtable_emulator.ColumnRow.{ColumnRow, TimestampRange, has_cells}
use bigtable_emulator.ColumnRow.Reads.{delete_time_range-IsSorted}
use bigtable_emulator.ColumnRow.Validity
use bigtable_emulator.ColumnRow.Validity.{IsFilled}
use bigtable_emulator.GcRule
use bigtable_emulator.GcRule.{GcRule, Protobuf, check_gc_rule_is_valid}
use bigtable_emulator.GcRule.Equivalence.{run_gc-IsSorted}
use bigtable_emulator.ColumnFamilyRow.{
  ColumnFamilyRow, column, set_cell, update_cell, increment, append, store_column, delete_column,
  delete_time_stamp, run_gc,
}

pub record IsValid (columns : ColumnFamilyRow) : Type 0 where
  pub sorted : IsSorted columns
  pub filled : AllValues IsFilled columns

pub AllValues-IsSorted :
    (columns : ColumnFamilyRow) → AllValues IsFilled columns → AllValues IsSorted columns
AllValues-IsSorted [] a = tt
AllValues-IsSorted ((q, c) ∷ columns) a = (a.0.sorted, AllValues-IsSorted columns a.1)

column_missing :
    (q : Bytes) (columns : ColumnFamilyRow) → find q columns ≡ none → column q columns ≡ []
column_missing q columns h = ground arith

column_found :
    (q : Bytes) (c : ColumnRow) (columns : ColumnFamilyRow)
    → find q columns ≡ some c
    → column q columns ≡ c
column_found q c columns h = ground arith

-- `columns_[q]` is a sorted column, and an empty one only where it was missing.
column-IsSorted :
    (q : Bytes) (columns : ColumnFamilyRow) → IsValid columns → IsSorted (column q columns)
column-IsSorted q columns h = elim (Option-cases (find q columns)) [
  | inl missing ↦ subst IsSorted (sym (column_missing q columns missing)) tt
  | inr (c, found) ↦
      subst IsSorted (sym (column_found q c columns found))
        (AllValues-find IsFilled q c columns h.filled found).sorted
]

put-IsValid :
    (q : Bytes) (c : ColumnRow) (columns : ColumnFamilyRow)
    → IsFilled c
    → IsValid columns
    → IsValid (StdMap.put q c columns)
put-IsValid q c columns f h = record {
  sorted = put-IsSorted q c columns h.sorted;
  filled = AllValues-put IsFilled q c columns f h.filled;
}

module _ (q : Bytes) (columns : ColumnFamilyRow) (h : IsValid columns) where
  pub set_cell-IsValid : (t : ℤ) (v : Bytes) → IsValid (set_cell q t v columns).0
  unfolding set_cell
  set_cell-IsValid t v =
      put-IsValid q _ columns
        (ColumnRow.Validity.set_cell-IsFilled t v (column q columns) (column-IsSorted q columns h))
        h

  pub update_cell-IsValid :
      (f : Bytes → Bytes → StatusOr Bytes) (t : ℤ) (v : Bytes)
      → IsValid (update_cell f q t v columns).0
  unfolding update_cell
  update_cell-IsValid f t v =
      put-IsValid q _ columns
        (ColumnRow.Validity.update_cell-IsFilled f t v (column q columns)
          (column-IsSorted q columns h))
        h

  pub increment-IsValid : (be : BigEndian) (now n : ℤ) → IsValid (increment be now q n columns).0
  unfolding increment
  increment-IsValid be now n =
      put-IsValid q _ columns
        (ColumnRow.Validity.increment-IsFilled be now n (column q columns)
          (column-IsSorted q columns h))
        h

  pub append-IsValid : (now : ℤ) (v : Bytes) → IsValid (append now q v columns).0
  unfolding append
  append-IsValid now v =
      put-IsValid q _ columns
        (ColumnRow.Validity.append-IsFilled now v (column q columns) (column-IsSorted q columns h))
        h

  store_column-IsValid : (c : ColumnRow) → IsSorted c → IsValid (store_column q c columns)
  unfolding store_column
  store_column-IsValid [] s = record {
    sorted = erase-IsSorted q columns h.sorted;
    filled = AllValues-erase IsFilled q columns h.filled;
  }
  store_column-IsValid (c ∷ cells) s =
      put-IsValid q (c ∷ cells) columns (record { sorted = s; some_cell = refl }) h

  pub delete_column-IsValid : (r : TimestampRange) → IsValid (delete_column q r columns).0
  unfolding delete_column
  delete_column-IsValid r = elim (Option-cases (find q columns)) [
    | inl missing ↦ rw (missing, delete_column) h
    | inr (c, found) ↦
        rw (found, delete_column)
          (store_column-IsValid _ (
            delete_time_range-IsSorted r c
              (AllValues-find IsFilled q c columns h.filled found).sorted))
  ]

  pub delete_time_stamp-IsValid : (t : ℤ) → IsValid (delete_time_stamp q t columns).0
  unfolding delete_time_stamp
  delete_time_stamp-IsValid t = elim (Option-cases (find q columns)) [
    | inl missing ↦ rw (missing, delete_time_stamp) h
    | inr (c, found) ↦
        rw (found, delete_time_stamp)
          (store_column-IsValid _ (
            ColumnRow.Validity.delete_time_stamp-IsSorted t c
              (AllValues-find IsFilled q c columns h.filled found).sorted))
  ]

run_gc-AllAfter :
    (pb : Protobuf) (now : ℤ) (rule : GcRule) (q : Bytes) (columns : ColumnFamilyRow)
    → AllAfter q columns
    → AllAfter q (run_gc pb now rule columns)
unfolding run_gc
run_gc-AllAfter pb now rule q [] a = tt
run_gc-AllAfter pb now rule q ((p, c) ∷ columns) a =
    ground (arith, run_gc-AllAfter pb now rule q columns a.1)

pub run_gc-IsValid :
    (pb : Protobuf) (now : ℤ) (rule : GcRule) (columns : ColumnFamilyRow)
    → check_gc_rule_is_valid pb rule ≡ ok tt
    → IsValid columns
    → IsValid (run_gc pb now rule columns)
unfolding run_gc
run_gc-IsValid pb now rule [] ok_rule h = h
run_gc-IsValid pb now rule ((q, c) ∷ columns) ok_rule h =
    let rest =
      run_gc-IsValid pb now rule columns ok_rule
        (record { sorted = h.sorted.1; filled = h.filled.1 }) in
    elim (Bool-cases (has_cells (GcRule.run_gc pb now rule c))) [
      | inl e ↦
          rw (e, run_gc)
            (record {
              sorted = (run_gc-AllAfter pb now rule q columns h.sorted.0, rest.sorted);
              filled = (
                record {
                  sorted = run_gc-IsSorted pb now rule c h.filled.0.sorted ok_rule;
                  some_cell = e;
                },
                rest.filled,
              );
            })
      | inr e ↦ rw (e, run_gc) rest
    ]
