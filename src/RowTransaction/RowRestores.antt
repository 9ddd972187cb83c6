-- ===== src/RowTransaction/RowRestores.antt =====
-- The entries that the deletion of a row pushes, against the cells that it deleted.
use bigtable_emulator.Common.{
  true, ◌&&◌, List, [], ◌∷◌, Option, none, some, ◌≡◌, refl, ℤ, arith, freshest_first, if◌then◌else◌,
  Option-cases, inl, inr, ◌∙◌,
}
use bigtable_emulator.Common.Bytes.{Bytes, bytes_order}
use bigtable_emulator.StdMap.{find, IsSorted}
use bigtable_emulator.StdMap.Lookup.{same, find-put, find_of_AllAfter, find_of_before}
use bigtable_emulator.StdMap.Sorted.{put-IsSorted}
use bigtable_emulator.StdMap.Values.{AllValues, AllValues-find}
use bigtable_emulator.GcRule.{Protobuf}
use bigtable_emulator.ColumnRow
use bigtable_emulator.ColumnRow.{Cell, unbounded}
use bigtable_emulator.ColumnRow.Deletion.{in_time_range}
use bigtable_emulator.ColumnFamilyRow.{ColumnFamilyRow}
use bigtable_emulator.ColumnFamilyRow.Reads as RowReads
use bigtable_emulator.ColumnFamilyRow.Validity.{AllValues-IsSorted}
use bigtable_emulator.ColumnFamily
use bigtable_emulator.ColumnFamily.{ColumnFamily, delete_all_columns}
use bigtable_emulator.ColumnFamily.Validity.{IsValid, IsFilled}
use bigtable_emulator.ColumnFamily.Reads.{read}
use bigtable_emulator.RowTransaction.{Families, Context, UndoEntry, push_cells, push_columns}
use bigtable_emulator.RowTransaction.Rollback.{read_cell, same_key}
use bigtable_emulator.RowTransaction.Reverts.{has_family, revert_all}
use bigtable_emulator.RowTransaction.Restores.{
  find_cell, or_else, find_cell-delete_time_range, restore_cells, revert_all-push_cells,
  has-restore_cells, read-restore_cells,
}

abbrev pub Columns : Type 0
Columns = List (Bytes × List Cell)

abbrev pub find_deleted : Bytes → ℤ → Columns → Option Bytes
find_deleted q t columns = elim (find q columns) [ none ↦ none | some cells ↦ find_cell t cells ]

delete_all_columns-IsSorted : (columns : ColumnFamilyRow) → IsSorted (delete_all_columns columns)
unfolding delete_all_columns
delete_all_columns-IsSorted [] = tt
delete_all_columns-IsSorted ((q, cells) ∷ columns) = ground (
  arith,
  delete_all_columns-IsSorted columns,
  put-IsSorted q (ColumnRow.delete_time_range unbounded cells).1 (delete_all_columns columns),
)

-- The columns that `DeleteRow` returns hold the cells that its range finds.
find_deleted-delete_all_columns :
    (q : Bytes) (t : ℤ) (columns : ColumnFamilyRow)
    → IsSorted columns
    → AllValues IsSorted columns
    → find_deleted q t (delete_all_columns columns)
      ≡ (if in_time_range unbounded t then RowReads.read q t columns else none)
unfolding delete_all_columns find
find_deleted-delete_all_columns q t [] s h = ground arith
find_deleted-delete_all_columns q t ((q', cells) ∷ columns) s h = ground (
  arith,
  find_deleted-delete_all_columns q t columns s.1 h.1,
  find_cell-delete_time_range unbounded t cells h.0,
  bytes_order.less_connex q q',
  find_of_AllAfter q' columns s.0,
  find_of_before q q' columns s.0,
  find-put q q' (ColumnRow.delete_time_range unbounded cells).1 (delete_all_columns columns),
)

pub find_deleted-delete_row :
    (pb : Protobuf) (r q : Bytes) (t : ℤ) (cf : ColumnFamily)
    → IsValid pb cf
    → find_deleted q t (ColumnFamily.delete_row r cf).1
      ≡ (if in_time_range unbounded t then read r q t cf else none)
unfolding ColumnFamily.delete_row find
find_deleted-delete_row pb r q t cf h = elim (Option-cases (find r cf.rows)) [
  | inl missing ↦ ground (arith, missing)
  | inr (columns, found) ↦
      let v = (AllValues-find IsFilled r columns cf.rows h.filled found).valid in
      ground (
        arith,
        found,
        find_deleted-delete_all_columns q t columns v.sorted (AllValues-IsSorted columns v.filled),
      )
]

pub delete_row-IsSorted :
    (r : Bytes) (cf : ColumnFamily) → IsSorted (ColumnFamily.delete_row r cf).1
unfolding ColumnFamily.delete_row
delete_row-IsSorted r cf = elim (Option-cases (find r cf.rows)) [
  | inl missing ↦ rw (missing, ColumnFamily.delete_row) tt
  | inr (columns, found) ↦ rw (found, ColumnFamily.delete_row) (delete_all_columns-IsSorted columns)
]

module _ (pb : Protobuf) (c : Context) (key : Bytes) where
  abbrev pub restore_columns : Columns → Families → Families
  restore_columns [] families = families
  restore_columns ((q, cells) ∷ columns) families =
      restore_cells pb c key q cells (restore_columns columns families)

  pub revert_all-push_columns :
      (columns : Columns) (log : List UndoEntry) (families : Families)
      → revert_all pb c (push_columns key columns log) families
        ≡ revert_all pb c log (restore_columns columns families)
  unfolding push_columns
  revert_all-push_columns [] log families = refl
  revert_all-push_columns ((q, cells) ∷ columns) log families =
      revert_all-push_columns columns (push_cells key q cells log) families
      ∙ revert_all-push_cells pb c key q cells log (restore_columns columns families)

  pub has-restore_columns :
      (f : Bytes) (columns : Columns) (families : Families)
      → has_family f (restore_columns columns families) ≡ has_family f families
  has-restore_columns f [] families = refl
  has-restore_columns f ((q, cells) ∷ columns) families =
      has-restore_cells pb c key f q cells (restore_columns columns families)
      ∙ has-restore_columns f columns families

  pub read-restore_columns :
      (f r q' : Bytes) (t : ℤ) (columns : Columns) (families : Families)
      → IsSorted columns
      → has_family key families ≡ true
      → read_cell f r q' t (restore_columns columns families) ≡ (
          if same f key && same r c.row_key
          then or_else (find_deleted q' t columns) (read_cell f r q' t families)
          else read_cell f r q' t families)
  unfolding find
  read-restore_columns f r q' t [] families s h = ground arith
  read-restore_columns f r q' t ((q, cells) ∷ columns) families s h = ground (
    arith,
    read-restore_cells pb c key f r q' t q cells (restore_columns columns families),
    read-restore_columns f r q' t columns families s.1 h,
    has-restore_columns key columns families,
    same_key q' q,
    find_of_AllAfter q columns s.0,
    find_of_before q' q columns s.0,
  )
