-- ===== src/CellView.antt =====
-- `class CellView` of cell_view.h: one cell of a table with its address, as a reader sees it. The
-- references that the class holds are the values that they refer to.
use bigtable_emulator.Common.{ℤ, Option, some}
use bigtable_emulator.Common.Bytes.{Bytes}

pub record CellView : Type 0 where
  pub row_key : Bytes
  pub column_family : Bytes
  pub column_qualifier : Bytes
  pub timestamp : ℤ
  pub value : Bytes
  pub label : Option Bytes

abbrev pub set_label : Bytes → CellView → CellView
set_label label c = record c { label = some label }

abbrev pub set_value : Bytes → CellView → CellView
set_value value c = record c { value = value }
