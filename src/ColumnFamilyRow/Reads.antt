-- ===== src/ColumnFamilyRow/Reads.antt =====
-- The view of `ColumnFamilyRow` as a map from qualifiers and time stamps to values, and what each
-- operation does to it.
use bigtable_emulator.Common.{
  Bool, true, ◌&&◌, [], ◌∷◌, Option, none, some, ◌≡◌, refl, ℤ, arith, if◌then◌else◌, freshest_first,
  Option-cases, inl, inr,
}
use bigtable_emulator.Common.Bytes.{Bytes, bytes_order}
use bigtable_emulator.StdMap
use bigtable_emulator.StdMap.{find, IsSorted}
use bigtable_emulator.StdMap.Lookup.{same, find-put, find-erase}
use bigtable_emulator.StdMap.Values.{AllValues, AllValues-find}
use bigtable_emulator.ColumnRow
use bigtable_emulator.ColumnRow.{ColumnRow, TimestampRange, has_cells}
use bigtable_emulator.ColumnRow.Deletion.{in_time_range}
use bigtable_emulator.ColumnRow.Reads.{find-delete_time_range, find-delete_time_stamp}
use bigtable_emulator.ColumnFamilyRow.{
  ColumnFamilyRow, column, set_cell, store_column, delete_column, delete_time_stamp,
}

abbrev pub read : Bytes → ℤ → ColumnFamilyRow → Option Bytes
read q t columns = find t (column q columns)

-- Whether two addresses in a row are the same.
abbrev pub same_cell : Bytes → ℤ → Bytes → ℤ → Bool
same_cell q t q' t' = same q q' && same t t'

pub set_cell-old :
    (q : Bytes) (t : ℤ) (v : Bytes) (columns : ColumnFamilyRow)
    → (set_cell q t v columns).1 ≡ read q t columns
unfolding set_cell ColumnRow.set_cell
set_cell-old q t v columns = refl

pub read-set_cell :
    (q : Bytes) (t : ℤ) (q' : Bytes) (t' : ℤ) (v : Bytes) (columns : ColumnFamilyRow)
    → read q t (set_cell q' t' v columns).0
      ≡ (if same_cell q t q' t' then some v else read q t columns)
unfolding set_cell ColumnRow.set_cell
read-set_cell q t q' t' v columns = ground (
  arith,
  find-put q q' (StdMap.put t' v (column q' columns)) columns,
  find-put t t' v (column q' columns),
  bytes_order.less_connex q q',
)

read-store_column :
    (q : Bytes) (t : ℤ) (q' : Bytes) (cells : ColumnRow) (columns : ColumnFamilyRow)
    → IsSorted columns
    → read q t (store_column q' cells columns)
      ≡ (if same q q' then find t cells else read q t columns)
unfolding store_column find
read-store_column q t q' [] columns s = ground (arith, find-erase q q' columns s)
read-store_column q t q' (c ∷ cells) columns s = ground (arith, find-put q q' (c ∷ cells) columns)

read_missing :
    (q : Bytes) (t : ℤ) (q' : Bytes) (columns : ColumnFamilyRow)
    → find q' columns ≡ none
    → same q q' ≡ true
    → read q t columns ≡ none
unfolding find
read_missing q t q' columns missing h =
    let e : q ≡ q' = ground (arith, bytes_order.less_connex q q') in rw e (ground (arith, missing))

pub read-delete_column :
    (q : Bytes) (t : ℤ) (q' : Bytes) (r : TimestampRange) (columns : ColumnFamilyRow)
    → IsSorted columns
    → AllValues IsSorted columns
    → read q t (delete_column q' r columns).0
      ≡ (if same q q' && in_time_range r t then none else read q t columns)
unfolding delete_column
read-delete_column q t q' r columns s a = elim (Option-cases (find q' columns)) [
  | inl missing ↦ rw (missing, delete_column) (ground (arith, read_missing q t q' columns missing))
  | inr (cells, found) ↦ ground (
    arith,
    found,
    read-store_column q t q' (ColumnRow.delete_time_range r cells).0 columns s,
    find-delete_time_range r t cells (AllValues-find IsSorted q' cells columns a found),
    bytes_order.less_connex q q',
  )
]

pub read-delete_time_stamp :
    (q : Bytes) (t : ℤ) (q' : Bytes) (t' : ℤ) (columns : ColumnFamilyRow)
    → IsSorted columns
    → AllValues IsSorted columns
    → read q t (delete_time_stamp q' t' columns).0
      ≡ (if same_cell q t q' t' then none else read q t columns)
unfolding delete_time_stamp
read-delete_time_stamp q t q' t' columns s a = elim (Option-cases (find q' columns)) [
  | inl missing ↦
      rw (missing, delete_time_stamp) (ground (arith, read_missing q t q' columns missing))
  | inr (cells, found) ↦ ground (
    arith,
    found,
    read-store_column q t q' (ColumnRow.delete_time_stamp t' cells).0 columns s,
    find-delete_time_stamp t t' cells (AllValues-find IsSorted q' cells columns a found),
    bytes_order.less_connex q q',
  )
]
