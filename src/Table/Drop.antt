-- ===== src/Table/Drop.antt =====
-- `Table::DropRowRange` of table.cc.
pub mod Prefix
use bigtable_emulator.Common.{
  Bool, true, false, List, [], ◌∷◌, ltb, ◌==◌, ◌&&◌, if◌then◌else◌, is_empty, length, ℕ,
}
use bigtable_emulator.Common.Bytes.{Bytes, bytes_order, less_bytes}
use bigtable_emulator.Status.{Status, ok, err, invalid_argument}
use bigtable_emulator.ColumnFamilyRow.{ColumnFamilyRow}
use bigtable_emulator.ColumnFamily.{ColumnFamily, Rows, clear}
use bigtable_emulator.RowTransaction.{Families}
use bigtable_emulator.Table.{max_row_len}

-- The `target` of `google.bigtable.admin.v2.DropRowRangeRequest`.
pub data Target : Type 0 where
  row_key_prefix : Bytes → Target
  delete_all_data_from_table : Bool → Target
  target_not_set : Target

-- `absl::StartsWith`, the prefix first.
abbrev pub starts_with : Bytes → Bytes → Bool
starts_with [] r = true
starts_with (x ∷ prefix) [] = false
starts_with (x ∷ prefix) (y ∷ r) = (x == y) && starts_with prefix r

-- The loop, which erases rows up to the first without the prefix.
unfoldable pub erase_while : Bytes → Rows → Rows
erase_while prefix [] = []
erase_while prefix ((r, columns) ∷ rows) =
    let rest = erase_while prefix rows in if starts_with prefix r then rest else (r, columns) ∷ rows

-- The loop from `lower_bound(row_key_prefix)`; the rows before it stay.
unfoldable pub drop_rows : Bytes → Rows → Rows
unfolding erase_while
drop_rows prefix [] = []
drop_rows prefix ((r, columns) ∷ rows) =
    let rest = drop_rows prefix rows in
    if less_bytes r prefix then (r, columns) ∷ rest else erase_while prefix ((r, columns) ∷ rows)

unfoldable pub clear_all : Families → Families
unfolding clear
clear_all [] = []
clear_all ((key, cf) ∷ families) = (key, clear cf) ∷ clear_all families

unfoldable pub drop_rows_everywhere : Bytes → Families → Families
unfolding drop_rows
drop_rows_everywhere prefix [] = []
drop_rows_everywhere prefix ((key, cf) ∷ families) =
    (key, record cf { rows = drop_rows prefix cf.rows }) ∷ drop_rows_everywhere prefix families

unfoldable pub drop_row_range : Target → Families → Families × Status
unfolding clear_all drop_rows_everywhere
drop_row_range target_not_set families = (families, err invalid_argument)
drop_row_range (delete_all_data_from_table all) families = (clear_all families, ok tt)
drop_row_range (row_key_prefix prefix) families =
    if ltb max_row_len (length prefix)
    then (families, err invalid_argument)
    else if is_empty prefix
    then (families, err invalid_argument)
    else (drop_rows_everywhere prefix families, ok tt)
