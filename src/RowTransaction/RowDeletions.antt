-- ===== src/RowTransaction/RowDeletions.antt =====
-- The deletion of a row of one family, with the entries of its cells.
use bigtable_emulator.Common.{
  true, false, List, [], ◌∷◌, none, some, ◌≡◌, ℤ, arith, freshest_first, sym, ◌∙◌, subst,
}
use bigtable_emulator.Common.Bytes.{Bytes, bytes_order}
use bigtable_emulator.StdMap.{find, put}
use bigtable_emulator.StdMap.Sorted.{put-IsSorted}
use bigtable_emulator.StdMap.Lookup.{find-put}
use bigtable_emulator.StdMap.Values.{AllValues, AllValues-put}
use bigtable_emulator.GcRule.{Protobuf}
use bigtable_emulator.ColumnRow.{unbounded}
use bigtable_emulator.ColumnRow.Deletion.{in_time_range}
use bigtable_emulator.ColumnFamily
use bigtable_emulator.ColumnFamily.{ColumnFamily}
use bigtable_emulator.ColumnFamily.Validity.{IsValid, delete_row-IsValid}
use bigtable_emulator.ColumnFamily.Reads.{read, read-delete_row}
use bigtable_emulator.RowTransaction.{Families, Transaction, Context, StorageCall, push_columns}
use bigtable_emulator.RowTransaction.Rollback.{read_cell, same_key}
use bigtable_emulator.RowTransaction.Reverts.{has_family, Alike, revert_all, revert_all-Alike}
use bigtable_emulator.RowTransaction.Undoing.{Undoable, Alike-trans, cf-IsValid}
use bigtable_emulator.RowTransaction.Deletions.{restore_cells-AllValid}
use bigtable_emulator.RowTransaction.RowRestores.{
  Columns, find_deleted-delete_row, delete_row-IsSorted, restore_columns, revert_all-push_columns,
  has-restore_columns, read-restore_columns,
}

module _ (pb : Protobuf) (c : Context) where
  pub restore_columns-AllValid :
      (key : Bytes) (columns : Columns) (families : Families)
      → AllValues (IsValid pb) families
      → AllValues (IsValid pb) (restore_columns pb c key columns families)
  restore_columns-AllValid key [] families h = h
  restore_columns-AllValid key ((q, cells) ∷ columns) families h =
      restore_cells-AllValid pb c key q cells (restore_columns pb c key columns families)
        (restore_columns-AllValid key columns families h)

  module _ (start : Families) (tx : Transaction) (u : Undoable pb c start tx) (key : Bytes)
      (cf : ColumnFamily) (found : find key tx.families ≡ some cf) where
    abbrev deleted : ColumnFamily × Columns
    deleted = ColumnFamily.delete_row c.row_key cf

    has-put : has_family key (put key deleted.0 tx.families) ≡ true
    has-put = ground (arith, find-put key key deleted.0 tx.families, bytes_order.less_irrefl key)

    read_early : (r q : Bytes) (t : ℤ) → in_time_range unbounded t ≡ false → read r q t cf ≡ none
    read_early r q t early = ground (arith, found, u.recent key r q t early)

    read-restored :
        (f r q' : Bytes) (t : ℤ)
        → read_cell f r q' t (restore_columns pb c key deleted.1 (put key deleted.0 tx.families))
          ≡ read_cell f r q' t tx.families
    read-restored f r q' t =
        let v = cf-IsValid pb c start tx u key cf found in
        ground (
          arith,
          found,
          has-put,
          read-restore_columns pb c key f r q' t deleted.1 (put key deleted.0 tx.families)
              (delete_row-IsSorted c.row_key cf),
          find-put f key deleted.0 tx.families,
          same_key f key,
          same_key r c.row_key,
          read_early r q' t,
          read-delete_row pb cf v r q' t c.row_key,
          find_deleted-delete_row pb c.row_key q' t cf v,
        )

    restored-Alike :
        Alike (restore_columns pb c key deleted.1 (put key deleted.0 tx.families)) tx.families
    restored-Alike = record {
      has = λ f.
          has-restore_columns pb c key f deleted.1 (put key deleted.0 tx.families)
          ∙ ground (arith, found, find-put f key deleted.0 tx.families, same_key f key);
      reads = read-restored;
    }

    pub delete_row-Undoable :
        (calls : List StorageCall)
        → Undoable pb c start (record {
          families = put key deleted.0 tx.families;
          undo_log = push_columns key deleted.1 tx.undo_log;
          storage_calls = calls;
        })
    delete_row-Undoable calls =
        let v = cf-IsValid pb c start tx u key cf found in
        let after =
          AllValues-put (IsValid pb) key deleted.0 tx.families
            (delete_row-IsValid pb c.row_key cf v) u.valid in
        record {
          sorted = put-IsSorted key deleted.0 tx.families u.sorted;
          valid = after;
          recent = λ f r q' t early. ground (
            arith,
            found,
            find-put f key deleted.0 tx.families,
            same_key f key,
            read-delete_row pb cf v r q' t c.row_key,
            u.recent f r q' t early,
          );
          back =
              subst (λ x. Alike x start)
                (sym (revert_all-push_columns pb c key deleted.1 tx.undo_log _))
                (Alike-trans _ (revert_all pb c tx.undo_log tx.families) start
                  (revert_all-Alike pb c tx.undo_log _ tx.families
                    (restore_columns-AllValid key deleted.1 _ after) u.valid restored-Alike)
                  u.back);
        }
