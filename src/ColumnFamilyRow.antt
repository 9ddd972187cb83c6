-- ===== src/ColumnFamilyRow.antt =====
-- `class ColumnFamilyRow` of column_family.h and its methods in column_family.cc: the columns of
-- one row in one column family, in the order of their qualifiers. `columns_[q]` creates a missing
-- column empty; a deletion that empties a column removes it.
pub mod Validity
pub mod Reads
use bigtable_emulator.Common.{
  Bool, true, false, List, [], ◌∷◌, Option, none, some, ℤ, if◌then◌else◌,
}
use bigtable_emulator.Common.Bytes.{Bytes, bytes_order}
use bigtable_emulator.Status.{StatusOr, ok, err}
use bigtable_emulator.External.{BigEndian}
use bigtable_emulator.StdMap
use bigtable_emulator.ColumnRow
use bigtable_emulator.ColumnRow.{
  ColumnRow, Cell, ReadModifyWriteCellResult, TimestampRange, has_cells,
}
use bigtable_emulator.GcRule
use bigtable_emulator.GcRule.{GcRule, Protobuf}

abbrev pub ColumnFamilyRow : Type 0
ColumnFamilyRow = List (Bytes × ColumnRow)

abbrev pub column : Bytes → ColumnFamilyRow → ColumnRow
column column_qualifier columns = StdMap.find_or column_qualifier [] columns

unfoldable pub set_cell : Bytes → ℤ → Bytes → ColumnFamilyRow → ColumnFamilyRow × Option Bytes
set_cell column_qualifier timestamp value columns =
    let (cells, old) = ColumnRow.set_cell timestamp value (column column_qualifier columns) in
    (StdMap.put column_qualifier cells columns, old)

unfoldable pub update_cell :
    (Bytes → Bytes → StatusOr Bytes)
    → Bytes
    → ℤ
    → Bytes
    → ColumnFamilyRow
    → ColumnFamilyRow × StatusOr (Option Bytes)
update_cell update_fn column_qualifier timestamp value columns =
    let (cells, old) =
      ColumnRow.update_cell update_fn timestamp value (column column_qualifier columns) in
    (StdMap.put column_qualifier cells columns, old)

unfoldable pub increment :
    BigEndian
    → ℤ
    → Bytes
    → ℤ
    → ColumnFamilyRow
    → ColumnFamilyRow × StatusOr ReadModifyWriteCellResult
increment be system_ms column_qualifier inc_value columns =
    let (cells, result) =
      ColumnRow.increment be system_ms inc_value (column column_qualifier columns) in
    (StdMap.put column_qualifier cells columns, result)

unfoldable pub append :
    ℤ → Bytes → Bytes → ColumnFamilyRow → ColumnFamilyRow × ReadModifyWriteCellResult
append system_ms column_qualifier append_value columns =
    let (cells, result) =
      ColumnRow.append system_ms append_value (column column_qualifier columns) in
    (StdMap.put column_qualifier cells columns, result)

-- The column as a deletion left it, or nothing if that emptied it.
unfoldable pub store_column : Bytes → ColumnRow → ColumnFamilyRow → ColumnFamilyRow
store_column column_qualifier cells columns =
    if has_cells cells
    then StdMap.put column_qualifier cells columns
    else StdMap.erase column_qualifier columns

unfoldable pub delete_column :
    Bytes → TimestampRange → ColumnFamilyRow → ColumnFamilyRow × List Cell
delete_column column_qualifier time_range columns = elim (StdMap.find column_qualifier columns) [
  | none ↦ (columns, [])
  | some cells ↦
      let (rest, res) = ColumnRow.delete_time_range time_range cells in
      (store_column column_qualifier rest columns, res)
]

unfoldable pub delete_time_stamp : Bytes → ℤ → ColumnFamilyRow → ColumnFamilyRow × Option Cell
delete_time_stamp column_qualifier timestamp columns = elim (StdMap.find column_qualifier columns) [
  | none ↦ (columns, none)
  | some cells ↦
      let (rest, ret) = ColumnRow.delete_time_stamp timestamp cells in
      (store_column column_qualifier rest columns, ret)
]

unfoldable pub run_gc : Protobuf → ℤ → GcRule → ColumnFamilyRow → ColumnFamilyRow
run_gc pb now gc_rule [] = []
run_gc pb now gc_rule ((q, cells) ∷ columns) =
    let cells' = GcRule.run_gc pb now gc_rule cells in
    let rest = run_gc pb now gc_rule columns in
    if has_cells cells' then (q, cells') ∷ rest else rest

abbrev pub has_columns : ColumnFamilyRow → Bool
has_columns [] = false
has_columns (c ∷ columns) = true
