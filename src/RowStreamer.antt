-- ===== src/RowStreamer.antt =====
-- `class RowStreamer` of row_streamer.h and row_streamer.cc: the cells of a read as the chunks of
-- the messages that are written to the client. What the gRPC writer answers is a parameter, a
-- function of the messages written so far.
pub mod Chunks
pub mod Client
pub mod RoundTrip
pub mod Lost
use bigtable_emulator.Common.{
  ℕ, ◌+◌, ◌*◌, Bool, true, false, not, ◌||◌, List, [], ◌∷◌, ◌++◌, Option, none, some, ℤ, pos,
  negsuc, ltb, if◌then◌else◌, length,
}
use bigtable_emulator.Common.Bytes.{Bytes, eq_bytes}
use bigtable_emulator.CellView.{CellView}

-- `google.bigtable.v2.ReadRowsResponse.CellChunk`: an empty row key is one that is not set.
pub record CellChunk : Type 0 where
  pub row_key : Bytes
  pub family_name : Option Bytes
  pub qualifier : Option Bytes
  pub timestamp_micros : ℤ
  pub value : Bytes
  pub labels : List Bytes
  pub commit_row : Bool

-- The fields of the object, and the messages that it passed to the writer.
pub record RowStreamer : Type 0 where
  pub current_row_key : Option Bytes
  pub current_column_family : Option Bytes
  pub current_column_qualifier : Option Bytes
  pub pending_chunks : List CellChunk
  pub responses : List (List CellChunk)

abbrev pub fresh : RowStreamer
fresh = record {
  current_row_key = none;
  current_column_family = none;
  current_column_qualifier = none;
  pending_chunks = [];
  responses = [];
}

-- `duration_cast<microseconds>`.
abbrev pub to_micros : ℤ → ℤ
to_micros (pos n) = pos (n * 1000)
to_micros (negsuc n) = negsuc (n * 1000 + 999)

-- `operator!=` of an optional string and a string.
abbrev pub differs : Option Bytes → Bytes → Bool
differs none k = true
differs (some j) k = not (eq_bytes j k)

abbrev pub labels_of : Option Bytes → List Bytes
labels_of none = []
labels_of (some label) = label ∷ []

abbrev pub commit : CellChunk → CellChunk
commit chunk = record chunk { commit_row = true }

-- `back().set_commit_row(true)`, where there is a chunk.
unfoldable pub commit_last : List CellChunk → List CellChunk
commit_last [] = []
commit_last (chunk ∷ []) = commit chunk ∷ []
commit_last (chunk ∷ next ∷ chunks) = chunk ∷ commit_last (next ∷ chunks)

-- The chunk of a cell after a cell in the row `current`.
unfoldable pub chunk_of : Option Bytes → CellView → CellChunk
chunk_of current cell =
    let starts_row = differs current cell.row_key in
    record {
      row_key = if starts_row then cell.row_key else [];
      family_name =
          if starts_row || differs (some cell.row_key) cell.column_family
          then some cell.column_family
          else none;
      qualifier =
          if starts_row
            || (differs (some cell.row_key) cell.column_family
                || differs (some cell.row_key) cell.column_qualifier)
          then some cell.column_qualifier
          else none;
      timestamp_micros = to_micros cell.timestamp;
      value = cell.value;
      labels = labels_of cell.label;
      commit_row = false;
    }

-- All but the last chunk, and the last one.
unfoldable pub split_last : List CellChunk → List CellChunk × List CellChunk
split_last [] = ([], [])
split_last (chunk ∷ []) = ([], chunk ∷ [])
split_last (chunk ∷ next ∷ chunks) =
    let (before, last) = split_last (next ∷ chunks) in (chunk ∷ before, last)

-- The names of the current family and column after a cell; nothing reads them.
abbrev pub overwrite : Bool → Bytes → Option Bytes → Option Bytes
overwrite true k current = some k
overwrite false k current = current

-- `Stream` but for the flush.
unfoldable pub push_chunk : CellView → RowStreamer → RowStreamer
unfolding chunk_of commit_last
push_chunk cell s =
    let starts_row = differs s.current_row_key cell.row_key in
    let other_family = differs (some cell.row_key) cell.column_family in
    let other_column = differs (some cell.row_key) cell.column_qualifier in
    let committed = if starts_row then commit_last s.pending_chunks else s.pending_chunks in
    record s {
      current_row_key = some cell.row_key;
      current_column_family =
          overwrite (starts_row || other_family) cell.column_family s.current_column_family;
      current_column_qualifier =
          overwrite (starts_row || (other_family || other_column)) cell.column_qualifier
            s.current_column_qualifier;
      pending_chunks = committed ++ (chunk_of s.current_row_key cell ∷ []);
    }

module _ (accepts : List (List CellChunk) → Bool) where
  unfoldable pub flush : Bool → RowStreamer → RowStreamer × Bool
  unfolding commit_last split_last
  flush true s =
      let responses = s.responses ++ (commit_last s.pending_chunks ∷ []) in
      (
        record {
          current_row_key = none;
          current_column_family = none;
          current_column_qualifier = none;
          pending_chunks = [];
          responses = responses;
        },
        accepts responses,
      )
  flush false s =
      let (before, last) = split_last s.pending_chunks in
      let responses = s.responses ++ (before ∷ []) in
      (record s { pending_chunks = last; responses = responses }, accepts responses)

  unfoldable pub stream : CellView → RowStreamer → RowStreamer × Bool
  unfolding flush push_chunk
  stream cell s =
      let s' = push_chunk cell s in
      if ltb 200 (length s'.pending_chunks) then flush false s' else (s', true)

  -- The loop of `Table::ReadRows`, without a limit on the rows: it stops when the client is gone.
  unfoldable pub stream_all : List CellView → RowStreamer → RowStreamer × Bool
  unfolding stream
  stream_all [] s = flush true s
  stream_all (cell ∷ cells) s =
      let (s', going) = stream cell s in
      let rest = stream_all cells s' in if going then rest else (s', false)
