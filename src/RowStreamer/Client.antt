-- ===== src/RowStreamer/Client.antt =====
-- A client of the protocol of `ReadRowsResponse`, which is not of the repository: it takes over from
-- the chunk before it in the row what a chunk leaves out, and takes a row when a chunk commits it.
use bigtable_emulator.Common.{
  true, false, ◌||◌, List, [], ◌∷◌, ◌++◌, Option, none, some, ◌≡◌, refl, ap, ◌∙◌, arith,
  if◌then◌else◌, is_empty,
}
use mathlib.Core.List.{append-nil}
use bigtable_emulator.Common.Bytes.{Bytes, eq_bytes}
use bigtable_emulator.CellView.{CellView}
use bigtable_emulator.RowStreamer.{CellChunk, differs, commit, chunk_of, labels_of, to_micros}
use bigtable_emulator.RowStreamer.Chunks.{finish}

-- A row that is not committed yet: the address of its last cell, and its cells.
pub record OpenRow : Type 0 where
  pub row_key : Bytes
  pub family : Bytes
  pub qualifier : Bytes
  pub cells : List CellView

abbrev pub first_label : List Bytes → Option Bytes
first_label [] = none
first_label (label ∷ labels) = some label

-- The row with the cell of a chunk behind it, whose time stamp stays in microseconds.
abbrev pub with_cell : Bytes → Bytes → Bytes → List CellView → CellChunk → OpenRow
with_cell row family qualifier cells chunk = record {
  row_key = row;
  family = family;
  qualifier = qualifier;
  cells =
      cells
      ++ (record {
        row_key = row;
        column_family = family;
        column_qualifier = qualifier;
        timestamp = chunk.timestamp_micros;
        value = chunk.value;
        label = first_label chunk.labels;
      }
          ∷ []);
}

-- The column of a chunk behind one of the given column: a family comes with a qualifier.
abbrev column_of : Bytes × Bytes → Option Bytes → Option Bytes → Option (Bytes × Bytes)
column_of column none none = some column
column_of column none (some q) = some (column.0, q)
column_of column (some f) none = none
column_of column (some f) (some q) = some (f, q)

-- The first chunk of a row has a row key, a family and a qualifier.
abbrev first_column : Option Bytes → Option Bytes → Option (Bytes × Bytes)
first_column (some f) (some q) = some (f, q)
first_column _ _ = none

abbrev open_with : Bytes → List CellView → CellChunk → Option (Bytes × Bytes) → Option OpenRow
open_with row cells chunk none = none
open_with row cells chunk (some (f, q)) = some (with_cell row f q cells chunk)

-- What a client makes of a chunk; `none` where the protocol does not allow it.
abbrev pub receive : Option OpenRow → CellChunk → Option OpenRow
receive none chunk =
    if is_empty chunk.row_key
    then none
    else open_with chunk.row_key [] chunk (first_column chunk.family_name chunk.qualifier)
receive (some row) chunk =
    if is_empty chunk.row_key || eq_bytes row.row_key chunk.row_key
    then open_with row.row_key row.cells chunk
        (column_of (row.family, row.qualifier) chunk.family_name chunk.qualifier)
    else none

abbrev pub after : List CellView → Option (List CellView) → Option (List CellView)
after cells none = none
after cells (some rest) = some (cells ++ rest)

-- The cells of the committed rows; `none` where the read breaks the protocol or ends in a row that
-- is not committed.
unfoldable pub decode_from : Option OpenRow → List CellChunk → Option (List CellView)
decode_from none [] = some []
decode_from (some row) [] = none
decode_from row (chunk ∷ chunks) = elim (receive row chunk) [
  | none ↦ none
  | some row' ↦ elim chunk.commit_row [
    | true ↦ after row'.cells (decode_from none chunks)
    | false ↦ decode_from (some row') chunks
  ]
]

abbrev pub decode : List CellChunk → Option (List CellView)
decode chunks = decode_from none chunks

pub decode_from-committed :
    (row : Option OpenRow) (row' : OpenRow) (chunk : CellChunk) (chunks : List CellChunk)
    → receive row chunk ≡ some row'
    → chunk.commit_row ≡ true
    → decode_from row (chunk ∷ chunks) ≡ after row'.cells (decode_from none chunks)
unfolding decode_from
decode_from-committed none row' chunk chunks e c = rw (e, c, decode_from) refl
decode_from-committed (some row) row' chunk chunks e c = rw (e, c, decode_from) refl

pub decode_from-open :
    (row : Option OpenRow) (row' : OpenRow) (chunk : CellChunk) (chunks : List CellChunk)
    → receive row chunk ≡ some row'
    → chunk.commit_row ≡ false
    → decode_from row (chunk ∷ chunks) ≡ decode_from (some row') chunks
unfolding decode_from
decode_from-open none row' chunk chunks e c = rw (e, c, decode_from) refl
decode_from-open (some row) row' chunk chunks e c = rw (e, c, decode_from) refl

pub receive-commit :
    (row : Option OpenRow) (chunk : CellChunk) → receive row (commit chunk) ≡ receive row chunk
receive-commit none chunk = refl
receive-commit (some row) chunk = refl

abbrev pub in_micros : CellView → CellView
in_micros cell = record cell { timestamp = to_micros cell.timestamp }

pub label_lem : (label : Option Bytes) → first_label (labels_of label) ≡ label
label_lem none = refl
label_lem (some label) = refl

-- The row of a cell after the given cells.
abbrev pub row_of : List CellView → CellView → OpenRow
row_of cells cell = record {
  row_key = cell.row_key;
  family = cell.column_family;
  qualifier = cell.column_qualifier;
  cells = cells ++ (in_micros cell ∷ []);
}

-- A cell that starts a row, behind no cell or a cell of another row.
pub receive-first :
    (before : Option Bytes) (cell : CellView)
    → is_empty cell.row_key ≡ false
    → differs before cell.row_key ≡ true
    → receive none (chunk_of before cell) ≡ some (row_of [] cell)
unfolding chunk_of
receive-first before cell full starts = ground (arith, full, starts, label_lem cell.label)

pub chunk_of-open :
    (before : Option Bytes) (cell : CellView) → (chunk_of before cell).commit_row ≡ false
unfolding chunk_of
chunk_of-open before cell = refl

-- The end of a read, behind a chunk that is not sent yet.
pub decode_from-finish-nil :
    (row : Option OpenRow) (row' : OpenRow) (last : CellChunk) (key : Bytes)
    → receive row last ≡ some row'
    → decode_from row (finish last key []) ≡ some row'.cells
unfolding decode_from
decode_from-finish-nil row row' last key e =
    decode_from-committed row row' (commit last) [] (receive-commit row last ∙ e) refl
    ∙ ap (λ x. some x) (append-nil row'.cells)
