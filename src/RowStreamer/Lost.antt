-- ===== src/RowStreamer/Lost.antt =====
-- The cells of a family that is named as its row: `Stream` leaves the family out.
use bigtable_emulator.Common.{List, [], ◌∷◌, ◌++◌, map, Option, none, some, ◌≡◌, if◌then◌else◌}
use bigtable_emulator.Common.Bytes.{Bytes}
use bigtable_emulator.CellView.{CellView}
use bigtable_emulator.RowStreamer.{differs}
use bigtable_emulator.RowStreamer.Client.{OpenRow, in_micros}

-- A cell of the row whose family is named as the row.
pub record IsNamedAsRow (row : Bytes) (cell : CellView) : Type 0 where
  pub same_row : cell.row_key ≡ row
  pub same_name : cell.column_family ≡ row

abbrev lost_qualifier : OpenRow → CellView → Bytes
lost_qualifier row cell =
    if differs (some row.row_key) cell.column_qualifier
    then cell.column_qualifier
    else row.qualifier

abbrev lost_cell : OpenRow → CellView → CellView
lost_cell row cell = record (in_micros cell) {
  row_key = row.row_key;
  column_family = row.family;
  column_qualifier = lost_qualifier row cell;
}

-- What the client has after such a cell: the family stays.
abbrev lost_row : OpenRow → CellView → OpenRow
lost_row row cell = record row {
  qualifier = lost_qualifier row cell;
  cells = row.cells ++ (lost_cell row cell ∷ []);
}

abbrev pub families_of : Option (List CellView) → Option (List Bytes)
families_of none = none
families_of (some cells) = some (map (λ c. c.column_family) cells)
