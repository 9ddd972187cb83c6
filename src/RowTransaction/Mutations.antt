-- ===== src/RowTransaction/Mutations.antt =====
-- Every mutation of a row keeps a transaction undoable, also where it fails.
use bigtable_emulator.Common.{
  true, List, [], ◌∷◌, Option, some, List-cases, ◌++◌, ◌≡◌, refl, ℤ, arith, Bool-cases, inl, inr,
  sym, subst,
}
use bigtable_emulator.Common.Bytes.{Bytes, bytes_order}
use bigtable_emulator.Status.{StatusOr-cases, ok}
use bigtable_emulator.External.{BigEndian}
use bigtable_emulator.StdMap.{find, put}
use bigtable_emulator.GcRule.{Protobuf}
use bigtable_emulator.ColumnRow.{Cell, unbounded, to_millis}
use bigtable_emulator.ColumnRow.Deletion.{in_time_range}
use bigtable_emulator.ColumnFamily
use bigtable_emulator.ColumnFamily.{ColumnFamily, update_cell}
use bigtable_emulator.ColumnFamily.Validity.{update_cell-IsValid}
use bigtable_emulator.RowTransaction
use bigtable_emulator.RowTransaction.{
  Families, Transaction, Context, SetCell, AddToCell, DeleteFromColumn, StorageCall,
  find_column_family, store, overridden, check_add_to_cell, is_reversed, range_or_unbounded,
  undo_write, push_cells, push_columns, delete_row_everywhere,
}
use bigtable_emulator.RowTransaction.Rollback.{find-find_column_family}
use bigtable_emulator.RowTransaction.Undoing.{Undoable, cf-IsValid, unseen-Undoable, write-Undoable}
use bigtable_emulator.RowTransaction.Writes.{update_cell-set_cell, update_cell-failed}
use bigtable_emulator.RowTransaction.Deletions.{delete_column-Undoable}
use bigtable_emulator.RowTransaction.RowDeletions.{delete_row-Undoable}
use bigtable_emulator.RowTransaction.Everywhere.{everywhere-Undoable}

store-calls :
    (c : Context) (call : StorageCall) (x : Transaction)
    → (calls : List StorageCall) × (store c call x ≡ record x { storage_calls = calls })
unfolding store
store-calls c call x = elim (Bool-cases c.has_storage) [
  | inl present ↦ (x.storage_calls ++ (call ∷ []), ground (arith, present))
  | inr absent ↦ (x.storage_calls, ground (arith, absent))
]

module _ (pb : Protobuf) (c : Context) (start : Families) (tx : Transaction)
    (u : Undoable pb c start tx) where
  store-Undoable :
      (call : StorageCall) (x : Transaction)
      → ((calls : List StorageCall)
          → Undoable pb c start
              (record { families = x.families; undo_log = x.undo_log; storage_calls = calls }))
      → Undoable pb c start (store c call x)
  store-Undoable call x k =
      let (calls, e) = store-calls c call x in subst (λ y. Undoable pb c start y) (sym e) (k calls)

  pub set_cell-Undoable :
      (m : SetCell) (ov : Option ℤ)
      → in_time_range unbounded (overridden ov (to_millis m.timestamp_micros)) ≡ true
      → Undoable pb c start (RowTransaction.set_cell c m ov tx).0
  unfolding RowTransaction.set_cell
  set_cell-Undoable m ov late =
      elim (StatusOr-cases (find_column_family c.table_name m.family_name tx.families)) [
        | inr (code, failed) ↦ rw (failed, RowTransaction.set_cell) u
        | inl ((key, cf), ok_cf) ↦
            rw (ok_cf, RowTransaction.set_cell)
              (write-Undoable pb c start tx u key cf
                (find-find_column_family c.table_name m.family_name key cf tx.families ok_cf)
                m.column_qualifier (overridden ov (to_millis m.timestamp_micros)) m.value
                m.family_name _ _ _ late refl refl)
      ]

  module _ (be : BigEndian) (m : AddToCell) (ov : Option ℤ)
      (late : in_time_range unbounded (overridden ov (to_millis m.raw_timestamp_micros))
        ≡ true) where
    added-Undoable :
        (key : Bytes) (cf : ColumnFamily) (n : ℤ) (q : Bytes)
        → find_column_family c.table_name m.family_name tx.families ≡ ok (key, cf)
        → check_add_to_cell m cf ≡ ok (n, q)
        → Undoable pb c start (RowTransaction.add_to_cell c be m ov tx).0
    unfolding RowTransaction.add_to_cell
    added-Undoable key cf n q ok_cf fine =
        let t = overridden ov (to_millis m.raw_timestamp_micros) in
        let v = be.encode_big_endian n in
        let found = find-find_column_family c.table_name m.family_name key cf tx.families ok_cf in
        elim (StatusOr-cases (update_cell be c.row_key q t v cf).1) [
          | inr (code, failed) ↦
              rw (ok_cf, fine, failed, RowTransaction.add_to_cell)
                (unseen-Undoable pb c start tx u key cf found (update_cell be c.row_key q t v cf).0
                  tx.storage_calls
                  (update_cell-IsValid pb c.row_key q cf (cf-IsValid pb c start tx u key cf found)
                    be t v)
                  (λ r' q' t'. update_cell-failed be c.row_key q t v cf code r' q' t' failed))
          | inl (old, done) ↦
              let (w, same_cf, same_old) = update_cell-set_cell be c.row_key q t v cf old done in
              rw (ok_cf, fine, done, RowTransaction.add_to_cell)
                (write-Undoable pb c start tx u key cf found q t w m.family_name
                  (update_cell be c.row_key q t v cf).0 old tx.storage_calls late same_cf same_old)
        ]

    pub add_to_cell-Undoable : Undoable pb c start (RowTransaction.add_to_cell c be m ov tx).0
    unfolding RowTransaction.add_to_cell
    add_to_cell-Undoable =
        elim (StatusOr-cases (find_column_family c.table_name m.family_name tx.families)) [
          | inr (code, failed) ↦ rw (failed, RowTransaction.add_to_cell) u
          | inl ((key, cf), ok_cf) ↦ elim (StatusOr-cases (check_add_to_cell m cf)) [
            | inr (code, failed) ↦ rw (ok_cf, failed, RowTransaction.add_to_cell) u
            | inl ((n, q), fine) ↦ added-Undoable key cf n q ok_cf fine
          ]
        ]

  pub delete_from_column-Undoable :
      (m : DeleteFromColumn) → Undoable pb c start (RowTransaction.delete_from_column c m tx).0
  unfolding RowTransaction.delete_from_column store
  delete_from_column-Undoable m =
      elim (StatusOr-cases (find_column_family c.table_name m.family_name tx.families)) [
        | inr (code, failed) ↦ rw (failed, RowTransaction.delete_from_column) u
        | inl ((key, cf), ok_cf) ↦ elim (Bool-cases (is_reversed m.time_range)) [
          | inl reversed ↦ rw (ok_cf, reversed, RowTransaction.delete_from_column) u
          | inr fine ↦
              rw (ok_cf, fine, RowTransaction.delete_from_column)
                (delete_column-Undoable pb c start tx u key cf
                  (find-find_column_family c.table_name m.family_name key cf tx.families ok_cf)
                  m.column_qualifier (range_or_unbounded m.time_range) _)
        ]
      ]

  cleared-Undoable :
      (key : Bytes) (cf : ColumnFamily) (columns : List (Bytes × List Cell))
      (calls : List StorageCall)
      → find key tx.families ≡ some cf
      → (ColumnFamily.delete_row c.row_key cf).1 ≡ columns
      → Undoable pb c start (record {
        families = put key (ColumnFamily.delete_row c.row_key cf).0 tx.families;
        undo_log = push_columns key columns tx.undo_log;
        storage_calls = calls;
      })
  unfolding push_columns
  cleared-Undoable key cf columns calls found e =
      subst
        (λ x. Undoable pb c start (record {
          families = put key (ColumnFamily.delete_row c.row_key cf).0 tx.families;
          undo_log = push_columns key x tx.undo_log;
          storage_calls = calls;
        }))
        e (delete_row-Undoable pb c start tx u key cf found calls)

  pub delete_from_family-Undoable :
      (name : Bytes) → Undoable pb c start (RowTransaction.delete_from_family c name tx).0
  unfolding RowTransaction.delete_from_family
  delete_from_family-Undoable name =
      elim (StatusOr-cases (find_column_family c.table_name name tx.families)) [
        | inr (code, failed) ↦ rw (failed, RowTransaction.delete_from_family) u
        | inl ((key, cf), ok_cf) ↦
            let found = find-find_column_family c.table_name name key cf tx.families ok_cf in
            elim (List-cases (ColumnFamily.delete_row c.row_key cf).1) [
              | inl empty ↦
                  rw (ok_cf, empty, RowTransaction.delete_from_family)
                    (cleared-Undoable key cf [] tx.storage_calls found empty)
              | inr (column, columns, filled) ↦
                  rw (ok_cf, filled, RowTransaction.delete_from_family)
                    (store-Undoable _
                      (record tx {
                        families = put key (ColumnFamily.delete_row c.row_key cf).0 tx.families;
                        undo_log = push_columns key (column ∷ columns) tx.undo_log;
                      })
                      (λ calls. cleared-Undoable key cf (column ∷ columns) calls found filled))
            ]
      ]

  pub delete_from_row-Undoable : Undoable pb c start (RowTransaction.delete_from_row c tx).0
  unfolding RowTransaction.delete_from_row
  delete_from_row-Undoable =
      elim (Bool-cases (delete_row_everywhere c tx.families tx.undo_log).1.1) [
        | inl existed ↦
            rw (existed, RowTransaction.delete_from_row)
              (store-Undoable _
                (record tx {
                  families = (delete_row_everywhere c tx.families tx.undo_log).0;
                  undo_log = (delete_row_everywhere c tx.families tx.undo_log).1.0;
                })
                (everywhere-Undoable pb c start tx u))
        | inr no_row ↦
            rw (no_row, RowTransaction.delete_from_row)
              (everywhere-Undoable pb c start tx u tx.storage_calls)
      ]
