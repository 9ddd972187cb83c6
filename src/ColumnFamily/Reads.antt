-- ===== src/ColumnFamily/Reads.antt =====
-- The view of `ColumnFamily` as a map from row keys, qualifiers and time stamps to values, and
-- what each operation does to it.
use bigtable_emulator.Common.{
  true, ◌&&◌, [], ◌∷◌, Option, none, some, ◌≡◌, ℤ, arith, if◌then◌else◌, freshest_first,
  Option-cases, inl, inr,
}
use bigtable_emulator.Common.Bytes.{Bytes, bytes_order}
use bigtable_emulator.StdMap.{find, IsSorted}
use bigtable_emulator.StdMap.Lookup.{same, find-put, find-erase}
use bigtable_emulator.StdMap.Values.{AllValues-find}
use bigtable_emulator.ColumnRow.{TimestampRange}
use bigtable_emulator.ColumnRow.Deletion.{in_time_range}
use bigtable_emulator.ColumnFamilyRow
use bigtable_emulator.ColumnFamilyRow.{ColumnFamilyRow}
use bigtable_emulator.ColumnFamilyRow.Reads as RowReads
use bigtable_emulator.ColumnFamilyRow.Reads.{same_cell}
use bigtable_emulator.ColumnFamilyRow.Validity.{AllValues-IsSorted}
use bigtable_emulator.GcRule.{Protobuf}
use bigtable_emulator.ColumnFamily.{
  ColumnFamily, row, set_cell, delete_row, store_row, delete_column, delete_time_stamp,
}
use bigtable_emulator.ColumnFamily.Validity.{IsValid, IsFilled}

abbrev pub read : Bytes → Bytes → ℤ → ColumnFamily → Option Bytes
read r q t cf = RowReads.read q t (row r cf.rows)

-- `SetCell` returns the value that its cell had, if any. After it, that cell reads the new
-- value, and every other cell of the column family reads what it did.
pub read-set_cell :
    (r q : Bytes) (t : ℤ) (r' q' : Bytes) (t' : ℤ) (v : Bytes) (cf : ColumnFamily)
    → ((set_cell r' q' t' v cf).1 ≡ read r' q' t' cf)
      × (read r q t (set_cell r' q' t' v cf).0
          ≡ (if same r r' && same_cell q t q' t' then some v else read r q t cf))
unfolding set_cell
read-set_cell r q t r' q' t' v cf = (
  RowReads.set_cell-old q' t' v columns,
  ground (
    arith,
    find-put r r' (ColumnFamilyRow.set_cell q' t' v columns).0 cf.rows,
    RowReads.read-set_cell q t q' t' v columns,
    bytes_order.less_connex r r',
  ),
)
  where
    columns : ColumnFamilyRow
    columns = row r' cf.rows

read_missing :
    (r q : Bytes) (t : ℤ) (r' : Bytes) (cf : ColumnFamily)
    → find r' cf.rows ≡ none
    → same r r' ≡ true
    → read r q t cf ≡ none
unfolding find
read_missing r q t r' cf missing h =
    let e : r ≡ r' = ground (arith, bytes_order.less_connex r r') in rw e (ground (arith, missing))

read-store_row :
    (r q : Bytes) (t : ℤ) (r' : Bytes) (columns : ColumnFamilyRow) (cf : ColumnFamily)
    → IsSorted cf.rows
    → read r q t (store_row r' columns cf)
      ≡ (if same r r' then RowReads.read q t columns else read r q t cf)
unfolding store_row find
read-store_row r q t r' [] cf s = ground (arith, find-erase r r' cf.rows s)
read-store_row r q t r' (c ∷ columns) cf s = ground (arith, find-put r r' (c ∷ columns) cf.rows)

module _ (pb : Protobuf) (cf : ColumnFamily) (h : IsValid pb cf) where
  -- In a valid column family, after `DeleteColumn` the cells of its row and column with a time
  -- stamp in the range read nothing, and every other cell reads what it did.
  pub read-delete_column :
      (r q : Bytes) (t : ℤ) (r' q' : Bytes) (range : TimestampRange)
      → read r q t (delete_column r' q' range cf).0
        ≡ (if same r r' && (same q q' && in_time_range range t) then none else read r q t cf)
  unfolding delete_column
  read-delete_column r q t r' q' range = elim (Option-cases (find r' cf.rows)) [
    | inl missing ↦ rw (missing, delete_column) (ground (arith, read_missing r q t r' cf missing))
    | inr (columns, found) ↦
        let valid = (AllValues-find IsFilled r' columns cf.rows h.filled found).valid in
        ground (
          arith,
          found,
          read-store_row r q t r' (ColumnFamilyRow.delete_column q' range columns).0 cf h.sorted,
          RowReads.read-delete_column q t q' range columns valid.sorted
              (AllValues-IsSorted columns valid.filled),
          bytes_order.less_connex r r',
        )
  ]

  -- In a valid column family, after `DeleteTimeStamp` its cell reads nothing, and every other
  -- cell reads what it did.
  pub read-delete_time_stamp :
      (r q : Bytes) (t : ℤ) (r' q' : Bytes) (t' : ℤ)
      → read r q t (delete_time_stamp r' q' t' cf).0
        ≡ (if same r r' && same_cell q t q' t' then none else read r q t cf)
  unfolding delete_time_stamp
  read-delete_time_stamp r q t r' q' t' = elim (Option-cases (find r' cf.rows)) [
    | inl missing ↦
        rw (missing, delete_time_stamp) (ground (arith, read_missing r q t r' cf missing))
    | inr (columns, found) ↦
        let valid = (AllValues-find IsFilled r' columns cf.rows h.filled found).valid in
        ground (
          arith,
          found,
          read-store_row r q t r' (ColumnFamilyRow.delete_time_stamp q' t' columns).0 cf h.sorted,
          RowReads.read-delete_time_stamp q t q' t' columns valid.sorted
              (AllValues-IsSorted columns valid.filled),
          bytes_order.less_connex r r',
        )
  ]

  -- In a valid column family, after `DeleteRow` the cells of its row read nothing, and every
  -- other cell reads what it did.
  pub read-delete_row :
      (r q : Bytes) (t : ℤ) (r' : Bytes)
      → read r q t (delete_row r' cf).0 ≡ (if same r r' then none else read r q t cf)
  unfolding delete_row find
  read-delete_row r q t r' = elim (Option-cases (find r' cf.rows)) [
    | inl missing ↦ rw (missing, delete_row) (ground (arith, read_missing r q t r' cf missing))
    | inr (columns, found) ↦
        rw (found, delete_row) (ground (arith, find-erase r r' cf.rows h.sorted))
  ]
