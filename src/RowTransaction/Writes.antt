-- ===== src/RowTransaction/Writes.antt =====
-- `UpdateCell` and `ReadModifyWrite` as the `SetCell` of the value that they compute.
use bigtable_emulator.Common.{
  List-cases, Bool-cases, ◌++◌, leb_ℤ, pos, ltb_ℤ, true, [], ◌∷◌, Option, ◌≡◌, refl, ℤ, arith,
  freshest_first, Option-cases, inl, inr, ap, subst,
}
use bigtable_emulator.Common.Bytes.{Bytes, bytes_order}
use bigtable_emulator.Status.{ok, err, StatusCode, StatusOr-cases}
use bigtable_emulator.External.{BigEndian}
use bigtable_emulator.StdMap.{find, put}
use bigtable_emulator.StdMap.Lookup.{find-put}
use bigtable_emulator.ColumnRow
use bigtable_emulator.ColumnRow.{ColumnRow, unbounded, ReadModifyWriteCellResult, add_int64}
use bigtable_emulator.ColumnRow.Deletion.{in_time_range}
use bigtable_emulator.ColumnFamilyRow
use bigtable_emulator.ColumnFamilyRow.{column}
use bigtable_emulator.ColumnFamily.{
  ColumnFamily, row, set_cell, update_cell, increment, append, apply_update,
}
use bigtable_emulator.ColumnFamily.Reads.{read}

module _ (be : BigEndian) (r q : Bytes) (t : ℤ) (v : Bytes) (cf : ColumnFamily) where
  abbrev cells : ColumnRow
  cells = column q (row r cf.rows)

  pub update_cell-set_cell :
      (old : Option Bytes)
      → (update_cell be r q t v cf).1 ≡ ok old
      → (w : Bytes) × ((set_cell r q t w cf).0 ≡ (update_cell be r q t v cf).0)
        × ((set_cell r q t w cf).1 ≡ old)
  unfolding update_cell ColumnFamilyRow.update_cell ColumnRow.update_cell set_cell
      ColumnFamilyRow.set_cell ColumnRow.set_cell
  update_cell-set_cell old h = elim (Option-cases (find t cells)) [
    | inl missing ↦ (v, ground (arith, missing), ground (arith, missing))
    | inr (o, found) ↦ elim (StatusOr-cases (apply_update be cf.update_cell_fn o v)) [
      | inl (w, e) ↦ (w, ground (arith, found, e), ground (arith, found, e))
      | inr (code, e) ↦ absurd (ground (arith, found, e))
    ]
  ]

  pub update_cell-failed :
      (code : StatusCode) (r' q' : Bytes) (t' : ℤ)
      → (update_cell be r q t v cf).1 ≡ err code
      → read r' q' t' (update_cell be r q t v cf).0 ≡ read r' q' t' cf
  unfolding update_cell ColumnFamilyRow.update_cell ColumnRow.update_cell
  update_cell-failed code r' q' t' h = elim (Option-cases (find t cells)) [
    | inl missing ↦ absurd (ground (arith, missing))
    | inr (o, found) ↦ elim (StatusOr-cases (apply_update be cf.update_cell_fn o v)) [
      | inl (w, e) ↦ absurd (ground (arith, found, e))
      | inr (code', e) ↦ ground (
        arith,
        found,
        e,
        bytes_order.less_connex r' r,
        bytes_order.less_connex q' q,
        find-put r' r (put q cells (row r cf.rows)) cf.rows,
        find-put q' q cells (row r cf.rows),
      )
    ]
  ]

pub ok-injective {ℓ} : {A : Type ℓ} (a b : A) → ok a ≡ ok b → a ≡ b
ok-injective a b h = ground (arith, h)

module _ (be : BigEndian) (now : ℤ) (now_late : leb_ℤ (pos 0) now ≡ true) where
  -- The result of `ReadModifyWrite` is a write of its value at its time stamp.
  record IsPut (before after : ColumnRow) (result : ReadModifyWriteCellResult) : Type 0 where
    same_cells : put result.timestamp result.value before ≡ after
    same_value : find result.timestamp before ≡ result.maybe_old_value
    late : in_time_range unbounded result.timestamp ≡ true

  write_latest-IsPut :
      (t : ℤ) (old : Bytes) (rest : ColumnRow) (v : Bytes)
      → IsPut
          ((t, old) ∷ rest)
          (ColumnRow.write_latest now t old rest v).0
          (ColumnRow.write_latest now t old rest v).1
  unfolding find put ColumnRow.write_latest
  write_latest-IsPut t old rest v = elim (Bool-cases (ltb_ℤ t now)) [
    | inl earlier ↦ record {
      same_cells = ground (arith, earlier);
      same_value = ground (arith, earlier);
      late = ground (arith, earlier);
    }
    | inr not_earlier ↦ record {
      same_cells = ground (arith, not_earlier);
      same_value = ground (arith, not_earlier);
      late = ground (arith, not_earlier);
    }
  ]

  append-IsPut :
      (v : Bytes) (before : ColumnRow)
      → IsPut before (ColumnRow.append now v before).0 (ColumnRow.append now v before).1
  unfolding ColumnRow.append find
  append-IsPut v [] = record { same_cells = refl; same_value = refl; late = ground arith }
  append-IsPut v ((t, old) ∷ rest) = write_latest-IsPut t old rest (old ++ v)

  increment-IsPut :
      (n : ℤ) (before : ColumnRow) (result : ReadModifyWriteCellResult)
      → (ColumnRow.increment be now n before).1 ≡ ok result
      → IsPut before (ColumnRow.increment be now n before).0 result
  unfolding ColumnRow.increment find
  increment-IsPut n [] result h =
      subst (λ x. IsPut [] (put now (be.encode_big_endian n) []) x) (ok-injective _ result h)
        (record { same_cells = refl; same_value = refl; late = ground arith })
  increment-IsPut n ((t, old) ∷ rest) result h = elim (StatusOr-cases (be.decode_big_endian old)) [
    | inl (m, e) ↦
        let h' = rw (e, ColumnRow.increment) at h in
        rw (e, ColumnRow.increment)
          (subst
            (λ x.
              IsPut ((t, old) ∷ rest)
                (ColumnRow.write_latest now t old rest (be.encode_big_endian (add_int64 n m))).0 x)
            (ok-injective _ result h')
            (write_latest-IsPut t old rest (be.encode_big_endian (add_int64 n m))))
    | inr (code, e) ↦ absurd (ground (arith, e))
  ]

  -- So it is a `SetCell` of the column family.
  pub record IsWrite (r q : Bytes) (cf cf' : ColumnFamily) (result : ReadModifyWriteCellResult)
      : Type 0 where
    pub same_family : (set_cell r q result.timestamp result.value cf).0 ≡ cf'
    pub same_old : (set_cell r q result.timestamp result.value cf).1 ≡ result.maybe_old_value
    pub late : in_time_range unbounded result.timestamp ≡ true

  module _ (r q : Bytes) (cf : ColumnFamily) where
    abbrev there : ColumnRow
    there = column q (row r cf.rows)

    pub append-IsWrite :
        (v : Bytes) → IsWrite r q cf (append now r q v cf).0 (append now r q v cf).1
    unfolding append ColumnFamilyRow.append set_cell ColumnFamilyRow.set_cell ColumnRow.set_cell
    append-IsWrite v =
        let w = append-IsPut v there in
        record {
          same_family =
              ap (λ x. record cf { rows = put r (put q x (row r cf.rows)) cf.rows }) w.same_cells;
          same_old = w.same_value;
          late = w.late;
        }

    pub increment-IsWrite :
        (n : ℤ) (result : ReadModifyWriteCellResult)
        → (increment be now r q n cf).1 ≡ ok result
        → IsWrite r q cf (increment be now r q n cf).0 result
    unfolding increment ColumnFamilyRow.increment set_cell ColumnFamilyRow.set_cell
        ColumnRow.set_cell
    increment-IsWrite n result h =
        let w = increment-IsPut n there result h in
        record {
          same_family =
              ap (λ x. record cf { rows = put r (put q x (row r cf.rows)) cf.rows }) w.same_cells;
          same_old = w.same_value;
          late = w.late;
        }

    pub increment-failed :
        (n : ℤ) (code : StatusCode) (r' q' : Bytes) (t' : ℤ)
        → (increment be now r q n cf).1 ≡ err code
        → read r' q' t' (increment be now r q n cf).0 ≡ read r' q' t' cf
    unfolding increment ColumnFamilyRow.increment ColumnRow.increment
    increment-failed n code r' q' t' h = elim (List-cases there) [
      | inl empty ↦ absurd (ground (arith, empty))
      | inr ((t, old), rest, some_cells) ↦ elim (StatusOr-cases (be.decode_big_endian old)) [
        | inl (m, e) ↦ absurd (ground (arith, some_cells, e))
        | inr (code', e) ↦ ground (
          arith,
          some_cells,
          e,
          bytes_order.less_connex r' r,
          bytes_order.less_connex q' q,
          find-put r' r (put q there (row r cf.rows)) cf.rows,
          find-put q' q there (row r cf.rows),
        )
      ]
    ]
