-- ===== src/RowStreamer/RoundTrip.antt =====
-- The messages of a read against a client: it gets the cells that were streamed.
use bigtable_emulator.Common.{false, List, ◌≡◌, is_empty}
use bigtable_emulator.Common.Bytes.{eq_bytes}
use bigtable_emulator.CellView.{CellView}

-- A cell whose row key is neither empty nor the name of its family or column.
pub record IsPlain (cell : CellView) : Type 0 where
  pub has_key : is_empty cell.row_key ≡ false
  pub not_family : eq_bytes cell.row_key cell.column_family ≡ false
  pub not_qualifier : eq_bytes cell.row_key cell.column_qualifier ≡ false
