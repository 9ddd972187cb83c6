-- ===== src/RowTransaction/ReadModifyWrite/Results.antt =====
-- What one rule of a `ReadModifyWriteRow` computes and writes.
use bigtable_emulator.Common.{
  true, ◌&&◌, [], ◌∷◌, ◌++◌, Option, some, ◌≡◌, refl, ℤ, ltb_ℤ, arith, if◌then◌else◌,
  freshest_first, inl, inr, ap, ◌∙◌,
}
use bigtable_emulator.Common.Bytes.{Bytes, bytes_order}
use bigtable_emulator.Status.{StatusOr, StatusOr-cases, ok, err, ◌>>=◌, invalid_argument}
use bigtable_emulator.External.{BigEndian}
use bigtable_emulator.StdMap.{find, put}
use bigtable_emulator.StdMap.Lookup.{same, find-put}
use bigtable_emulator.ColumnRow
use bigtable_emulator.ColumnRow.{ColumnRow, ReadModifyWriteCellResult, add_int64}
use bigtable_emulator.ColumnFamilyRow
use bigtable_emulator.ColumnFamilyRow.{column}
use bigtable_emulator.ColumnFamilyRow.Reads.{same_cell}
use bigtable_emulator.ColumnFamily.{ColumnFamily, row, increment, append}
use bigtable_emulator.ColumnFamily.Reads.{read}
use bigtable_emulator.RowTransaction.{Context}
use bigtable_emulator.RowTransaction.ReadModifyWrite.{
  Operation, append_value, increment_amount, operation_not_set, read_modify_write,
}

-- The time stamp of the cell that is written: the clock's, unless the freshest cell is as late.
abbrev pub written_at : ℤ → ColumnRow → ℤ
written_at now [] = now
written_at now ((t, old) ∷ cells) = if ltb_ℤ t now then now else t

-- The value that is written, from that of the freshest cell.
abbrev pub value_of : BigEndian → Operation → ColumnRow → StatusOr Bytes
value_of be (append_value v) [] = ok v
value_of be (append_value v) ((t, old) ∷ cells) = ok (old ++ v)
value_of be (increment_amount n) [] = ok (be.encode_big_endian n)
value_of be (increment_amount n) ((t, old) ∷ cells) =
    be.decode_big_endian old >>= λ m. ok (be.encode_big_endian (add_int64 n m))
value_of be operation_not_set cells = err invalid_argument

-- The cells after it.
abbrev cells_after : BigEndian → ℤ → Operation → ColumnRow → ColumnRow
cells_after be now o cells = elim (value_of be o cells) [
  | err e ↦ cells
  | ok v ↦ put (written_at now cells) v cells
]

abbrev pub result_of : BigEndian → ℤ → Operation → ColumnRow → StatusOr ReadModifyWriteCellResult
result_of be now o cells = elim (value_of be o cells) [
  | err e ↦ err e
  | ok v ↦ ok (record {
    timestamp = written_at now cells;
    value = v;
    maybe_old_value = find (written_at now cells) cells;
  })
]

append-cells :
    (be : BigEndian) (now : ℤ) (v : Bytes) (cells : ColumnRow)
    → (ColumnRow.append now v cells).0 ≡ cells_after be now (append_value v) cells
unfolding ColumnRow.append ColumnRow.write_latest put
append-cells be now v [] = refl
append-cells be now v ((t, old) ∷ cells) = ground arith

append-result :
    (be : BigEndian) (now : ℤ) (v : Bytes) (cells : ColumnRow)
    → ok (ColumnRow.append now v cells).1 ≡ result_of be now (append_value v) cells
unfolding ColumnRow.append ColumnRow.write_latest find
append-result be now v [] = refl
append-result be now v ((t, old) ∷ cells) = ground arith

increment-cells :
    (be : BigEndian) (now n : ℤ) (cells : ColumnRow)
    → (ColumnRow.increment be now n cells).0 ≡ cells_after be now (increment_amount n) cells
unfolding ColumnRow.increment ColumnRow.write_latest put
increment-cells be now n [] = refl
increment-cells be now n ((t, old) ∷ cells) = elim (StatusOr-cases (be.decode_big_endian old)) [
  | inr (e, failed) ↦ ground (arith, failed)
  | inl (m, fine) ↦ ground (arith, fine)
]

increment-result :
    (be : BigEndian) (now n : ℤ) (cells : ColumnRow)
    → (ColumnRow.increment be now n cells).1 ≡ result_of be now (increment_amount n) cells
unfolding ColumnRow.increment ColumnRow.write_latest find
increment-result be now n [] = refl
increment-result be now n ((t, old) ∷ cells) = elim (StatusOr-cases (be.decode_big_endian old)) [
  | inr (e, failed) ↦ ground (arith, failed)
  | inl (m, fine) ↦ ground (arith, fine)
]

module _ (c : Context) (be : BigEndian) (now : ℤ) (name q : Bytes) (cf : ColumnFamily) where
  abbrev pub there : ColumnRow
  there = column q (row c.row_key cf.rows)

  abbrev pub call : Operation → ColumnFamily × StatusOr ReadModifyWriteCellResult
  call o =
      read_modify_write c be now
        (record { family_name = name; column_qualifier = q; operation = o }) cf

  read-stored :
      (r' q' : Bytes) (t' : ℤ) (cells : ColumnRow)
      → read r' q' t'
          (record cf { rows = put c.row_key (put q cells (row c.row_key cf.rows)) cf.rows })
        ≡ (if same r' c.row_key && same q' q then find t' cells else read r' q' t' cf)
  read-stored r' q' t' cells = ground (
    arith,
    bytes_order.less_connex r' c.row_key,
    find-put r' c.row_key (put q cells (row c.row_key cf.rows)) cf.rows,
    find-put q' q cells (row c.row_key cf.rows),
  )

  -- What a reader finds after a call, where it computes a value or fails.
  abbrev pub read_after : Bytes → Bytes → ℤ → StatusOr Bytes → Option Bytes
  read_after r' q' t' (err e) = read r' q' t' cf
  read_after r' q' t' (ok v) =
      if same r' c.row_key && same_cell q' t' q (written_at now there)
      then some v
      else read r' q' t' cf

  same_there :
      (r' q' : Bytes) (t' : ℤ)
      → (same r' c.row_key && same q' q) ≡ true
      → find t' there ≡ read r' q' t' cf
  same_there r' q' t' h =
      ground (arith, h, bytes_order.less_connex r' c.row_key, bytes_order.less_connex q' q)

  read-cells_after :
      (r' q' : Bytes) (t' : ℤ) (o : Operation)
      → (if same r' c.row_key && same q' q
          then find t' (cells_after be now o there)
          else read r' q' t' cf)
        ≡ read_after r' q' t' (value_of be o there)
  read-cells_after r' q' t' o = elim (StatusOr-cases (value_of be o there)) [
    | inr (e, failed) ↦ ground (arith, failed, same_there r' q' t')
    | inl (v, fine) ↦
        ground (arith, fine, same_there r' q' t', find-put t' (written_at now there) v there)
  ]

  -- A call of `ReadModifyWrite` for a rule returns the error or the value that the rule gives
  -- from the freshest cell of its column, with the time stamp of the clock, or of that cell
  -- where it is as late, and the value that is replaced there. After it the cell at that time
  -- stamp reads the new value and every other cell reads what it did; after an error all do.
  pub read_modify_write_lem :
      (o : Operation) (r' q' : Bytes) (t' : ℤ)
      → ((call o).1 ≡ result_of be now o there)
        × (read r' q' t' (call o).0 ≡ read_after r' q' t' (value_of be o there))
  unfolding read_modify_write increment append ColumnFamilyRow.increment ColumnFamilyRow.append
  read_modify_write_lem (append_value v) r' q' t' = (
    append-result be now v there,
    read-stored r' q' t' (ColumnRow.append now v there).0
        ∙ (ap (λ x. if same r' c.row_key && same q' q then find t' x else read r' q' t' cf)
              (append-cells be now v there)
            ∙ read-cells_after r' q' t' (append_value v)),
  )
  read_modify_write_lem (increment_amount n) r' q' t' = (
    increment-result be now n there,
    read-stored r' q' t' (ColumnRow.increment be now n there).0
        ∙ (ap (λ x. if same r' c.row_key && same q' q then find t' x else read r' q' t' cf)
              (increment-cells be now n there)
            ∙ read-cells_after r' q' t' (increment_amount n)),
  )
  read_modify_write_lem operation_not_set r' q' t' = (refl, refl)
