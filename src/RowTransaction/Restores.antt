-- ===== src/RowTransaction/Restores.antt =====
-- The entries that a deletion pushes, against the cells that it deleted.
use bigtable_emulator.Common.{
  true, ◌&&◌, List, [], ◌∷◌, map, keep, Option, none, some, ◌≡◌, refl, ℤ, arith, freshest_first,
  if◌then◌else◌, Option-cases, inl, inr, ap, ◌∙◌,
}
use bigtable_emulator.Common.Bytes.{Bytes, bytes_order}
use bigtable_emulator.StdMap.{find, AllAfter, IsSorted}
use bigtable_emulator.StdMap.Lookup.{same}
use bigtable_emulator.StdMap.Keep.{find-keep, keep-IsSorted}
use bigtable_emulator.StdMap.Values.{AllValues-find}
use bigtable_emulator.GcRule.{Protobuf}
use bigtable_emulator.ColumnRow.{Cell, ColumnRow, TimestampRange, delete_time_range}
use bigtable_emulator.ColumnRow.Deletion.{in_time_range, to_cell, delete_time_range_lem}
use bigtable_emulator.ColumnFamilyRow
use bigtable_emulator.ColumnFamilyRow.{ColumnFamilyRow}
use bigtable_emulator.ColumnFamilyRow.Validity.{AllValues-IsSorted}
use bigtable_emulator.ColumnFamily
use bigtable_emulator.ColumnFamily.{ColumnFamily}
use bigtable_emulator.ColumnFamily.Validity.{IsValid, IsFilled}
use bigtable_emulator.ColumnFamily.Reads.{read}
use bigtable_emulator.RowTransaction.{Families, Context, UndoEntry, restore_value, push_cells}
use bigtable_emulator.RowTransaction.Rollback.{read_cell}
use bigtable_emulator.RowTransaction.Reverts.{
  has_family, revert, revert_all, has-change_family, read-restore_value,
}

abbrev pub find_cell : ℤ → List Cell → Option Bytes
find_cell t [] = none
find_cell t (cell ∷ cells) = if same t cell.timestamp then some cell.value else find_cell t cells

-- What a reader finds of deleted cells, or else what there is.
abbrev pub or_else : Option Bytes → Option Bytes → Option Bytes
or_else none v = v
or_else (some deleted) v = some deleted

find_of_earlier :
    (a b : ℤ) (m : ColumnRow) → AllAfter b m → freshest_first.less a b ≡ true → find a m ≡ none
unfolding find
find_of_earlier a b [] h k = refl
find_of_earlier a b ((u, v) ∷ m) h k = ground (arith, find_of_earlier a b m h.1 k, h.0)

find_cell-map :
    (t : ℤ) (cells : ColumnRow) → IsSorted cells → find_cell t (map to_cell cells) ≡ find t cells
unfolding find
find_cell-map t [] s = refl
find_cell-map t ((u, v) ∷ cells) s = ground (
  arith,
  find_cell-map t cells s.1,
  freshest_first.less_connex t u,
  find_of_earlier t u cells s.0,
)

pub find_cell-delete_time_range :
    (range : TimestampRange) (t : ℤ) (cells : ColumnRow)
    → IsSorted cells
    → find_cell t (delete_time_range range cells).1
      ≡ (if in_time_range range t then find t cells else none)
find_cell-delete_time_range range t cells s =
    ap (λ x. find_cell t x.1) (delete_time_range_lem range cells s)
    ∙ (find_cell-map t (keep (λ e. in_time_range range e.0) cells)
          (keep-IsSorted (in_time_range range) cells s)
        ∙ find-keep (in_time_range range) t cells s)

-- The cells that `DeleteColumn` returns are the ones that it hides.
pub find_cell-delete_column :
    (pb : Protobuf) (r q : Bytes) (range : TimestampRange) (t : ℤ) (cf : ColumnFamily)
    → IsValid pb cf
    → find_cell t (ColumnFamily.delete_column r q range cf).1
      ≡ (if in_time_range range t then read r q t cf else none)
unfolding ColumnFamily.delete_column ColumnFamilyRow.delete_column find
find_cell-delete_column pb r q range t cf h = elim (Option-cases (find r cf.rows)) [
  | inl missing ↦ ground (arith, missing)
  | inr (columns, found) ↦ elim (Option-cases (find q columns)) [
    | inl missing ↦ ground (arith, found, missing)
    | inr (cells, found') ↦
        let v = (AllValues-find IsFilled r columns cf.rows h.filled found).valid in
        ground (
          arith,
          found,
          found',
          find_cell-delete_time_range range t cells (
              AllValues-find IsSorted q cells columns (AllValues-IsSorted columns v.filled) found'),
        )
  ]
]

module _ (pb : Protobuf) (c : Context) (key : Bytes) where
  abbrev pub restore_cells : Bytes → List Cell → Families → Families
  restore_cells q [] families = families
  restore_cells q (cell ∷ cells) families =
      revert pb c (restore_value key q cell.timestamp cell.value) (restore_cells q cells families)

  pub revert_all-push_cells :
      (q : Bytes) (cells : List Cell) (log : List UndoEntry) (families : Families)
      → revert_all pb c (push_cells key q cells log) families
        ≡ revert_all pb c log (restore_cells q cells families)
  unfolding push_cells
  revert_all-push_cells q [] log families = refl
  revert_all-push_cells q (cell ∷ cells) log families =
      revert_all-push_cells q cells (restore_value key q cell.timestamp cell.value ∷ log) families

  pub has-restore_cells :
      (f q : Bytes) (cells : List Cell) (families : Families)
      → has_family f (restore_cells q cells families) ≡ has_family f families
  has-restore_cells f q [] families = refl
  has-restore_cells f q (cell ∷ cells) families =
      has-change_family pb c f key _ (restore_cells q cells families)
      ∙ has-restore_cells f q cells families

  pub read-restore_cells :
      (f r q' : Bytes) (t : ℤ) (q : Bytes) (cells : List Cell) (families : Families)
      → has_family key families ≡ true
      → read_cell f r q' t (restore_cells q cells families) ≡ (
          if same f key && (same r c.row_key && same q' q)
          then or_else (find_cell t cells) (read_cell f r q' t families)
          else read_cell f r q' t families)
  read-restore_cells f r q' t q [] families h = ground arith
  read-restore_cells f r q' t q (cell ∷ cells) families h = ground (
    arith,
    read-restore_value pb c f r q' t key q cell.timestamp cell.value
        (restore_cells q cells families),
    read-restore_cells f r q' t q cells families h,
    has-restore_cells key q cells families,
  )
