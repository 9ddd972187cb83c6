-- ===== src/RowStreamer/Chunks.antt =====
-- The chunks that a read writes, whatever the messages that they are batched into.
use bigtable_emulator.Common.{
  Bool, true, false, List, [], ◌∷◌, ◌++◌, none, some, ◌≡◌, inl, inr, refl, sym, ap, ◌∙◌, arith, ltb,
  if◌then◌else◌, length, Bool-cases,
}
use mathlib.Core.List.{append_assoc, append-nil}
use bigtable_emulator.Common.Bytes.{Bytes}
use bigtable_emulator.CellView.{CellView}
use bigtable_emulator.RowStreamer.{
  CellChunk, RowStreamer, fresh, differs, commit, commit_last, chunk_of, split_last, flush,
  push_chunk, stream, stream_all,
}

abbrev pub concat : List (List CellChunk) → List CellChunk
concat [] = []
concat (chunks ∷ rest) = chunks ++ concat rest

-- The chunks for the cells behind a chunk `last` that is not sent yet: a chunk is committed where
-- the next cell is in another row, and at the end.
abbrev pub finish : CellChunk → Bytes → List CellView → List CellChunk
finish last row [] = commit last ∷ []
finish last row (cell ∷ cells) =
    (if differs (some row) cell.row_key then commit last else last)
    ∷ finish (chunk_of (some row) cell) cell.row_key cells

abbrev pub chunks_of : List CellView → List CellChunk
chunks_of [] = []
chunks_of (cell ∷ cells) = finish (chunk_of none cell) cell.row_key cells

concat-append : (xs ys : List (List CellChunk)) → concat (xs ++ ys) ≡ concat xs ++ concat ys
concat-append [] ys = refl
concat-append (x ∷ xs) ys =
    ap (λ z. x ++ z) (concat-append xs ys) ∙ sym (append_assoc x (concat xs) (concat ys))

commit_last-append :
    (before : List CellChunk) (last : CellChunk)
    → commit_last (before ++ (last ∷ [])) ≡ before ++ (commit last ∷ [])
unfolding commit_last
commit_last-append [] last = refl
commit_last-append (x ∷ []) last = refl
commit_last-append (x ∷ y ∷ before) last = ap (λ z. x ∷ z) (commit_last-append (y ∷ before) last)

split_last-append :
    (before : List CellChunk) (last : CellChunk)
    → split_last (before ++ (last ∷ [])) ≡ (before, last ∷ [])
unfolding split_last
split_last-append [] last = refl
split_last-append (x ∷ []) last = refl
split_last-append (x ∷ y ∷ before) last = ground (arith, split_last-append (y ∷ before) last)

-- The chunks that were sent or wait.
abbrev sent : RowStreamer → List CellChunk
sent s = concat s.responses ++ s.pending_chunks

-- A streamer in the middle of a row, whose last chunk waits.
record Waits (s : RowStreamer) (row : Bytes) (before : List CellChunk) (last : CellChunk)
    : Type 0 where
  front : List CellChunk
  current : s.current_row_key ≡ some row
  pending : s.pending_chunks ≡ front ++ (last ∷ [])
  all : concat s.responses ++ front ≡ before

module _ (accepts : List (List CellChunk) → Bool) where
  flush-Waits :
      (s : RowStreamer) (row : Bytes) (before : List CellChunk) (last : CellChunk)
      → Waits s row before last
      → Waits (flush accepts false s).0 row before last
  unfolding flush
  flush-Waits s row before last w = record {
    front = [];
    current = w.current;
    pending = ap (λ x. (split_last x).1) w.pending ∙ ap (λ x. x.1) (split_last-append w.front last);
    all =
        append-nil (concat (s.responses ++ ((split_last s.pending_chunks).0 ∷ [])))
        ∙ (concat-append s.responses ((split_last s.pending_chunks).0 ∷ [])
            ∙ (ap (λ x. concat s.responses ++ (x ++ []))
                  (ap (λ x. (split_last x).0) w.pending
                    ∙ ap (λ x. x.0) (split_last-append w.front last))
                ∙ (ap (λ x. concat s.responses ++ x) (append-nil w.front) ∙ w.all)));
  }

  -- The last chunk, committed if the next cell starts a row.
  abbrev settled : Bytes → CellView → CellChunk → CellChunk
  settled row cell last = if differs (some row) cell.row_key then commit last else last

  push_chunk-Waits :
      (s : RowStreamer) (row : Bytes) (before : List CellChunk) (last : CellChunk) (cell : CellView)
      → Waits s row before last
      → Waits
          (push_chunk cell s)
          cell.row_key
          (before ++ (settled row cell last ∷ []))
          (chunk_of (some row) cell)
  unfolding push_chunk
  push_chunk-Waits s row before last cell w = record {
    front = w.front ++ (settled row cell last ∷ []);
    current = refl;
    pending = ground (arith, w.current, w.pending, commit_last-append w.front last);
    all =
        sym (append_assoc (concat s.responses) w.front (settled row cell last ∷ []))
        ∙ ap (λ x. x ++ (settled row cell last ∷ [])) w.all;
  }

  stream-Waits :
      (s : RowStreamer) (row : Bytes) (before : List CellChunk) (last : CellChunk) (cell : CellView)
      → Waits s row before last
      → Waits
          (stream accepts cell s).0
          cell.row_key
          (before ++ (settled row cell last ∷ []))
          (chunk_of (some row) cell)
  unfolding stream
  stream-Waits s row before last cell w =
      let p = push_chunk-Waits s row before last cell w in
      elim (Bool-cases (ltb 200 (length (push_chunk cell s).pending_chunks))) [
        | inl full ↦ rw (full, stream) (flush-Waits (push_chunk cell s) _ _ _ p)
        | inr room ↦ rw (room, stream) p
      ]

  -- The loop from the middle of a row on.
  rest_lem :
      (cells : List CellView) (s : RowStreamer) (row : Bytes) (before : List CellChunk)
      (last : CellChunk)
      → Waits s row before last
      → (stream_all accepts cells s).1 ≡ true
      → concat (stream_all accepts cells s).0.responses ≡ before ++ finish last row cells
  unfolding stream_all flush
  rest_lem [] s row before last w done =
      concat-append s.responses (commit_last s.pending_chunks ∷ [])
      ∙ (ap (λ x. concat s.responses ++ x)
            (append-nil (commit_last s.pending_chunks)
              ∙ (ap commit_last w.pending ∙ commit_last-append w.front last))
          ∙ (sym (append_assoc (concat s.responses) w.front (commit last ∷ []))
              ∙ ap (λ x. x ++ (commit last ∷ [])) w.all))
  rest_lem (cell ∷ cells) s row before last w done = elim (Bool-cases (stream accepts cell s).1) [
    | inr gone ↦ absurd (let h = rw (gone, stream_all) at done in ground arith)
    | inl going ↦
        rw (going, stream_all)
          (rest_lem cells (stream accepts cell s).0 cell.row_key _ _
              (stream-Waits s row before last cell w) (rw (going, stream_all) at done)
            ∙ append_assoc before (settled row cell last ∷ [])
                (finish (chunk_of (some row) cell) cell.row_key cells))
  ]

  first-Waits :
      (cell : CellView) → Waits (stream accepts cell fresh).0 cell.row_key [] (chunk_of none cell)
  unfolding stream push_chunk commit_last
  first-Waits cell = record { front = []; current = refl; pending = refl; all = refl }

  -- Where the client takes every message, the chunks of all the messages of a `RowStreamer`,
  -- one after the other, are those that the cells give one by one, with the last chunk of each
  -- row committing it: where the messages are cut makes no difference.
  pub stream_all_lem :
      (cells : List CellView)
      → (stream_all accepts cells fresh).1 ≡ true
      → concat (stream_all accepts cells fresh).0.responses ≡ chunks_of cells
  unfolding stream_all stream push_chunk flush commit_last
  stream_all_lem [] done = refl
  stream_all_lem (cell ∷ cells) done =
      rest_lem cells (stream accepts cell fresh).0 cell.row_key [] (chunk_of none cell)
        (first-Waits cell) done
