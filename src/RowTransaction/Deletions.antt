-- ===== src/RowTransaction/Deletions.antt =====
-- A deletion with the entries of the cells that it deleted, which keeps a transaction undoable.
use bigtable_emulator.Common.{
  true, List, [], ◌∷◌, some, ◌≡◌, ℤ, arith, freshest_first, sym, ◌∙◌, subst,
}
use bigtable_emulator.Common.Bytes.{Bytes, bytes_order}
use bigtable_emulator.StdMap.{find, put}
use bigtable_emulator.StdMap.Sorted.{put-IsSorted}
use bigtable_emulator.StdMap.Lookup.{find-put}
use bigtable_emulator.StdMap.Values.{AllValues, AllValues-put}
use bigtable_emulator.GcRule.{Protobuf}
use bigtable_emulator.ColumnRow.{Cell, TimestampRange}
use bigtable_emulator.ColumnFamily
use bigtable_emulator.ColumnFamily.{ColumnFamily}
use bigtable_emulator.ColumnFamily.Validity.{IsValid, delete_column-IsValid}
use bigtable_emulator.ColumnFamily.Reads.{read-delete_column}
use bigtable_emulator.RowTransaction.{
  Families, Transaction, Context, StorageCall, push_cells, restore_value,
}
use bigtable_emulator.RowTransaction.Rollback.{read_cell, same_key}
use bigtable_emulator.RowTransaction.Reverts.{
  has_family, Alike, revert_all, revert-AllValid, revert_all-Alike,
}
use bigtable_emulator.RowTransaction.Undoing.{Undoable, Alike-trans, cf-IsValid}
use bigtable_emulator.RowTransaction.Restores.{
  find_cell-delete_column, restore_cells, revert_all-push_cells, has-restore_cells,
  read-restore_cells,
}

module _ (pb : Protobuf) (c : Context) where
  pub restore_cells-AllValid :
      (key q : Bytes) (cells : List Cell) (families : Families)
      → AllValues (IsValid pb) families
      → AllValues (IsValid pb) (restore_cells pb c key q cells families)
  restore_cells-AllValid key q [] families h = h
  restore_cells-AllValid key q (cell ∷ cells) families h =
      revert-AllValid pb c (restore_value key q cell.timestamp cell.value)
        (restore_cells pb c key q cells families) (restore_cells-AllValid key q cells families h)

  module _ (start : Families) (tx : Transaction) (u : Undoable pb c start tx) (key : Bytes)
      (cf : ColumnFamily) (found : find key tx.families ≡ some cf) (q : Bytes)
      (range : TimestampRange) where
    abbrev deleted : ColumnFamily × List Cell
    deleted = ColumnFamily.delete_column c.row_key q range cf

    has-put : has_family key (put key deleted.0 tx.families) ≡ true
    has-put = ground (arith, find-put key key deleted.0 tx.families, bytes_order.less_irrefl key)

    read-restored :
        (f r q' : Bytes) (t : ℤ)
        → read_cell f r q' t (restore_cells pb c key q deleted.1 (put key deleted.0 tx.families))
          ≡ read_cell f r q' t tx.families
    read-restored f r q' t =
        let v = cf-IsValid pb c start tx u key cf found in
        ground (
          arith,
          found,
          has-put,
          read-restore_cells pb c key f r q' t q deleted.1 (put key deleted.0 tx.families),
          find-put f key deleted.0 tx.families,
          same_key f key,
          same_key r c.row_key,
          same_key q' q,
          read-delete_column pb cf v r q' t c.row_key q range,
          find_cell-delete_column pb c.row_key q range t cf v,
        )

    restored-Alike :
        Alike (restore_cells pb c key q deleted.1 (put key deleted.0 tx.families)) tx.families
    restored-Alike = record {
      has = λ f.
          has-restore_cells pb c key f q deleted.1 (put key deleted.0 tx.families)
          ∙ ground (arith, found, find-put f key deleted.0 tx.families, same_key f key);
      reads = read-restored;
    }

    pub delete_column-Undoable :
        (calls : List StorageCall)
        → Undoable pb c start (record {
          families = put key deleted.0 tx.families;
          undo_log = push_cells key q deleted.1 tx.undo_log;
          storage_calls = calls;
        })
    delete_column-Undoable calls =
        let v = cf-IsValid pb c start tx u key cf found in
        let after =
          AllValues-put (IsValid pb) key deleted.0 tx.families
            (delete_column-IsValid pb c.row_key q cf v range) u.valid in
        record {
          sorted = put-IsSorted key deleted.0 tx.families u.sorted;
          valid = after;
          recent = λ f r q' t early. ground (
            arith,
            found,
            find-put f key deleted.0 tx.families,
            same_key f key,
            read-delete_column pb cf v r q' t c.row_key q range,
            u.recent f r q' t early,
          );
          back =
              subst (λ x. Alike x start)
                (sym (revert_all-push_cells pb c key q deleted.1 tx.undo_log _))
                (Alike-trans _ (revert_all pb c tx.undo_log tx.families) start
                  (revert_all-Alike pb c tx.undo_log _ tx.families
                    (restore_cells-AllValid key q deleted.1 _ after) u.valid restored-Alike)
                  u.back);
        }
