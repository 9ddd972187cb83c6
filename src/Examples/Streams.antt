-- ===== src/Examples/Streams.antt =====
-- The theorems on the row streamer, at concrete inputs.
use bigtable_emulator.Common.{Bool, true, List, [], ◌∷◌, none, some, pos, ◌≡◌, refl}
use bigtable_emulator.CellView.{CellView}
use bigtable_emulator.RowStreamer.{CellChunk, fresh, stream_all}
use bigtable_emulator.RowStreamer.Chunks.{concat, chunks_of, stream_all_lem}

abbrev first_cell : CellView
first_cell = record {
  row_key = 1 ∷ [];
  column_family = 6 ∷ [];
  column_qualifier = 2 ∷ [];
  timestamp = pos 4;
  value = 9 ∷ [];
  label = none;
}

abbrev second_cell : CellView
second_cell = record first_cell { column_qualifier = 3 ∷ []; value = [] }

abbrev other_row : CellView
other_row = record first_cell { row_key = 5 ∷ []; label = some (8 ∷ []) }

abbrev cells : List CellView
cells = first_cell ∷ second_cell ∷ other_row ∷ []

abbrev accepts_all : List (List CellChunk) → Bool
accepts_all responses = true

cells-accepted : (stream_all accepts_all cells fresh).1 ≡ true
unfolding stream_all
cells-accepted = refl

stream_all_lem_example : concat (stream_all accepts_all cells fresh).0.responses ≡ chunks_of cells
stream_all_lem_example = stream_all_lem accepts_all cells cells-accepted

abbrev like_its_row : CellView
like_its_row = record first_cell { column_family = 1 ∷ [] }

abbrev also_like_its_row : CellView
also_like_its_row = record like_its_row { column_qualifier = 1 ∷ [] }
