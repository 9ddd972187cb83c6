-- ===== src/ColumnFamily/Validity.antt =====
-- The invariant of `ColumnFamily`: sorted row keys, valid rows, no empty row, and a garbage
-- collection rule that passed the validation; and the operations of column_family.cc against it.
use bigtable_emulator.Common.{
  true, List, [], ◌∷◌, none, some, ◌≡◌, refl, sym, subst, ℤ, arith, Option-cases, Bool-cases, inl,
  inr,
}
use bigtable_emulator.Common.Bytes.{Bytes, bytes_order}
use bigtable_emulator.Status.{ok}
use bigtable_emulator.External.{BigEndian}
use bigtable_emulator.StdMap
use bigtable_emulator.StdMap.{find, IsSorted, AllAfter}
use bigtable_emulator.StdMap.Sorted.{put-IsSorted, erase-IsSorted}
use bigtable_emulator.StdMap.Values.{AllValues, AllValues-find, AllValues-put, AllValues-erase}
use bigtable_emulator.ColumnRow.{TimestampRange}
use bigtable_emulator.ColumnFamilyRow
use bigtable_emulator.ColumnFamilyRow.{ColumnFamilyRow, has_columns}
use bigtable_emulator.ColumnFamilyRow.Validity as RowValidity
use bigtable_emulator.GcRule.{GcRule, Protobuf, check_gc_rule_is_valid}
use bigtable_emulator.ColumnFamily.{
  ColumnFamily, Rows, row, set_cell, update_cell, increment, append, delete_row, store_row,
  delete_column, delete_time_stamp, run_gc_rows, run_gc, clear, apply_update,
}

pub record IsFilled (columns : ColumnFamilyRow) : Type 0 where
  pub valid : RowValidity.IsValid columns
  pub some_column : has_columns columns ≡ true

pub record IsValid (pb : Protobuf) (cf : ColumnFamily) : Type 0 where
  pub sorted : IsSorted cf.rows
  pub filled : AllValues IsFilled cf.rows
  pub checked : (rule : GcRule) → cf.gc_rule ≡ some rule → check_gc_rule_is_valid pb rule ≡ ok tt

row_missing : (r : Bytes) (rows : Rows) → find r rows ≡ none → row r rows ≡ []
row_missing r rows h = ground arith

row_found :
    (r : Bytes) (columns : ColumnFamilyRow) (rows : Rows)
    → find r rows ≡ some columns
    → row r rows ≡ columns
row_found r columns rows h = ground arith

no_columns : RowValidity.IsValid []
no_columns = record { sorted = tt; filled = tt }

module _ (pb : Protobuf) (r : Bytes) (cf : ColumnFamily) (h : IsValid pb cf) where
  row-IsValid : RowValidity.IsValid (row r cf.rows)
  row-IsValid = elim (Option-cases (find r cf.rows)) [
    | inl missing ↦ subst RowValidity.IsValid (sym (row_missing r cf.rows missing)) no_columns
    | inr (columns, found) ↦
        subst RowValidity.IsValid (sym (row_found r columns cf.rows found))
          (AllValues-find IsFilled r columns cf.rows h.filled found).valid
  ]

  put-IsValid :
      (columns : ColumnFamilyRow)
      → IsFilled columns
      → IsValid pb (record cf { rows = StdMap.put r columns cf.rows })
  put-IsValid columns f = record {
    sorted = put-IsSorted r columns cf.rows h.sorted;
    filled = AllValues-put IsFilled r columns cf.rows f h.filled;
    checked = h.checked;
  }

  erase-IsValid : IsValid pb (record cf { rows = StdMap.erase r cf.rows })
  erase-IsValid = record {
    sorted = erase-IsSorted r cf.rows h.sorted;
    filled = AllValues-erase IsFilled r cf.rows h.filled;
    checked = h.checked;
  }

  store_row-IsValid :
      (columns : ColumnFamilyRow)
      → RowValidity.IsValid columns
      → IsValid pb (store_row r columns cf)
  unfolding store_row
  store_row-IsValid [] v = erase-IsValid
  store_row-IsValid (c ∷ columns) v =
      put-IsValid (c ∷ columns) (record { valid = v; some_column = refl })

has_columns-put :
    (q : Bytes) (c : List (ℤ × Bytes)) (columns : ColumnFamilyRow)
    → has_columns (StdMap.put q c columns) ≡ true
unfolding StdMap.put
has_columns-put q c [] = refl
has_columns-put q c ((p, d) ∷ columns) = ground arith

module _ (pb : Protobuf) (r q : Bytes) (cf : ColumnFamily) (h : IsValid pb cf) where
  pub set_cell-IsValid : (t : ℤ) (v : Bytes) → IsValid pb (set_cell r q t v cf).0
  unfolding set_cell ColumnFamilyRow.set_cell
  set_cell-IsValid t v = put-IsValid pb r cf h _ (record {
    valid = RowValidity.set_cell-IsValid q (row r cf.rows) (row-IsValid pb r cf h) t v;
    some_column = has_columns-put q _ (row r cf.rows);
  })

  pub update_cell-IsValid :
      (be : BigEndian) (t : ℤ) (v : Bytes) → IsValid pb (update_cell be r q t v cf).0
  unfolding update_cell ColumnFamilyRow.update_cell
  update_cell-IsValid be t v = put-IsValid pb r cf h _ (record {
    valid =
        RowValidity.update_cell-IsValid q (row r cf.rows) (row-IsValid pb r cf h)
          (apply_update be cf.update_cell_fn) t v;
    some_column = has_columns-put q _ (row r cf.rows);
  })

  pub increment-IsValid : (be : BigEndian) (now n : ℤ) → IsValid pb (increment be now r q n cf).0
  unfolding increment ColumnFamilyRow.increment
  increment-IsValid be now n = put-IsValid pb r cf h _ (record {
    valid = RowValidity.increment-IsValid q (row r cf.rows) (row-IsValid pb r cf h) be now n;
    some_column = has_columns-put q _ (row r cf.rows);
  })

  pub append-IsValid : (now : ℤ) (v : Bytes) → IsValid pb (append now r q v cf).0
  unfolding append ColumnFamilyRow.append
  append-IsValid now v = put-IsValid pb r cf h _ (record {
    valid = RowValidity.append-IsValid q (row r cf.rows) (row-IsValid pb r cf h) now v;
    some_column = has_columns-put q _ (row r cf.rows);
  })

  pub delete_column-IsValid : (range : TimestampRange) → IsValid pb (delete_column r q range cf).0
  unfolding delete_column
  delete_column-IsValid range = elim (Option-cases (find r cf.rows)) [
    | inl missing ↦ rw (missing, delete_column) h
    | inr (columns, found) ↦
        rw (found, delete_column)
          (store_row-IsValid pb r cf h _ (
            RowValidity.delete_column-IsValid q columns
              (AllValues-find IsFilled r columns cf.rows h.filled found).valid range))
  ]

  pub delete_time_stamp-IsValid : (t : ℤ) → IsValid pb (delete_time_stamp r q t cf).0
  unfolding delete_time_stamp
  delete_time_stamp-IsValid t = elim (Option-cases (find r cf.rows)) [
    | inl missing ↦ rw (missing, delete_time_stamp) h
    | inr (columns, found) ↦
        rw (found, delete_time_stamp)
          (store_row-IsValid pb r cf h _ (
            RowValidity.delete_time_stamp-IsValid q columns
              (AllValues-find IsFilled r columns cf.rows h.filled found).valid t))
  ]

pub delete_row-IsValid :
    (pb : Protobuf) (r : Bytes) (cf : ColumnFamily) → IsValid pb cf → IsValid pb (delete_row r cf).0
unfolding delete_row
delete_row-IsValid pb r cf h = elim (Option-cases (find r cf.rows)) [
  | inl missing ↦ rw (missing, delete_row) h
  | inr (columns, found) ↦ rw (found, delete_row) (erase-IsValid pb r cf h)
]

module _ (pb : Protobuf) (now : ℤ) (rule : GcRule) where
  run_gc_rows-AllAfter :
      (r : Bytes) (rows : Rows) → AllAfter r rows → AllAfter r (run_gc_rows pb now rule rows)
  unfolding run_gc_rows
  run_gc_rows-AllAfter r [] a = tt
  run_gc_rows-AllAfter r ((p, c) ∷ rows) a = ground (arith, run_gc_rows-AllAfter r rows a.1)

  module _ (checked : check_gc_rule_is_valid pb rule ≡ ok tt) where
    run_gc_rows-valid :
        (rows : Rows)
        → IsSorted rows
        → AllValues IsFilled rows
        → IsSorted (run_gc_rows pb now rule rows)
          × AllValues IsFilled (run_gc_rows pb now rule rows)
    unfolding run_gc_rows
    run_gc_rows-valid [] s f = (tt, tt)
    run_gc_rows-valid ((r, c) ∷ rows) s f =
        let rest = run_gc_rows-valid rows s.1 f.1 in
        elim (Bool-cases (has_columns (ColumnFamilyRow.run_gc pb now rule c))) [
          | inl e ↦
              rw (e, run_gc_rows)
                (
                  (run_gc_rows-AllAfter r rows s.0, rest.0),
                  (
                    record {
                      valid = RowValidity.run_gc-IsValid pb now rule c checked f.0.valid;
                      some_column = e;
                    },
                    rest.1,
                  ),
                )
          | inr e ↦ rw (e, run_gc_rows) rest
        ]

pub run_gc-IsValid :
    (pb : Protobuf) (now : ℤ) (cf : ColumnFamily) → IsValid pb cf → IsValid pb (run_gc pb now cf)
unfolding run_gc
run_gc-IsValid pb now cf h = elim (Option-cases cf.gc_rule) [
  | inl e ↦ rw (e, run_gc) h
  | inr (rule, e) ↦
      let rest = run_gc_rows-valid pb now rule (h.checked rule e) cf.rows h.sorted h.filled in
      rw (e, run_gc) (record { sorted = rest.0; filled = rest.1; checked = h.checked })
]

pub clear-IsValid : (pb : Protobuf) (cf : ColumnFamily) → IsValid pb cf → IsValid pb (clear cf)
unfolding clear
clear-IsValid pb cf h = record { sorted = tt; filled = tt; checked = h.checked }
