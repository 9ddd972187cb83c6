-- ===== src/RowTransaction/Everywhere.antt =====
-- The loop of `DeleteFromRow` over the column families, with the entries of the cells that it deletes.
use bigtable_emulator.Common.{
  true, ◌&&◌, List, [], ◌∷◌, none, ◌≡◌, refl, ℤ, arith, freshest_first, if◌then◌else◌, sym, ap, ◌∙◌,
  subst,
}
use bigtable_emulator.Common.Bytes.{Bytes, bytes_order}
use bigtable_emulator.StdMap.{find, AllAfter, IsSorted}
use bigtable_emulator.StdMap.Lookup.{same, find_of_AllAfter, find_of_before}
use bigtable_emulator.StdMap.Values.{AllValues}
use bigtable_emulator.GcRule.{Protobuf}
use bigtable_emulator.ColumnRow.{unbounded}
use bigtable_emulator.ColumnRow.Deletion.{in_time_range}
use bigtable_emulator.ColumnFamily
use bigtable_emulator.ColumnFamily.{ColumnFamily}
use bigtable_emulator.ColumnFamily.Validity.{IsValid, delete_row-IsValid}
use bigtable_emulator.ColumnFamily.Reads.{read-delete_row}
use bigtable_emulator.RowTransaction.{
  Families, Transaction, Context, UndoEntry, StorageCall, push_columns, delete_row_everywhere,
}
use bigtable_emulator.RowTransaction.Rollback.{read_cell, same_key}
use bigtable_emulator.RowTransaction.Reverts.{has_family, Alike, revert_all, revert_all-Alike}
use bigtable_emulator.RowTransaction.Undoing.{Undoable, Alike-trans}
use bigtable_emulator.RowTransaction.RowRestores.{
  find_deleted-delete_row, delete_row-IsSorted, restore_columns, revert_all-push_columns,
  has-restore_columns, read-restore_columns,
}
use bigtable_emulator.RowTransaction.Restores.{or_else}
use bigtable_emulator.RowTransaction.RowDeletions.{restore_columns-AllValid}

module _ (pb : Protobuf) (c : Context) where
  -- All the families of a table, with the row deleted or restored in each.
  abbrev restore_all : Families → Families → Families
  restore_all [] families = families
  restore_all ((key, cf) ∷ rest) families =
      restore_columns pb c key (ColumnFamily.delete_row c.row_key cf).1 (restore_all rest families)

  abbrev cleared : Families → Families
  cleared families = (delete_row_everywhere c families []).0

  cleared_of_log :
      (families : Families) (log : List UndoEntry)
      → (delete_row_everywhere c families log).0 ≡ cleared families
  unfolding delete_row_everywhere
  cleared_of_log [] log = refl
  cleared_of_log ((key, cf) ∷ families) log =
      ap (λ x. (key, (ColumnFamily.delete_row c.row_key cf).0) ∷ x)
        (cleared_of_log families (push_columns key (ColumnFamily.delete_row c.row_key cf).1 log)
          ∙ sym (
              cleared_of_log families
                (push_columns key (ColumnFamily.delete_row c.row_key cf).1 [])))

  revert_all-everywhere :
      (rest : Families) (log : List UndoEntry) (families : Families)
      → revert_all pb c (delete_row_everywhere c rest log).1.0 families
        ≡ revert_all pb c log (restore_all rest families)
  unfolding delete_row_everywhere
  revert_all-everywhere [] log families = refl
  revert_all-everywhere ((key, cf) ∷ rest) log families =
      revert_all-everywhere rest (push_columns key (ColumnFamily.delete_row c.row_key cf).1 log)
        families
      ∙ revert_all-push_columns pb c key (ColumnFamily.delete_row c.row_key cf).1 log
          (restore_all rest families)

  has-restore_all :
      (f : Bytes) (rest families : Families)
      → has_family f (restore_all rest families) ≡ has_family f families
  has-restore_all f [] families = refl
  has-restore_all f ((key, cf) ∷ rest) families =
      has-restore_columns pb c key f (ColumnFamily.delete_row c.row_key cf).1
        (restore_all rest families)
      ∙ has-restore_all f rest families

  restore_all-AllValid :
      (rest families : Families)
      → AllValues (IsValid pb) families
      → AllValues (IsValid pb) (restore_all rest families)
  restore_all-AllValid [] families h = h
  restore_all-AllValid ((key, cf) ∷ rest) families h =
      restore_columns-AllValid pb c key (ColumnFamily.delete_row c.row_key cf).1
        (restore_all rest families) (restore_all-AllValid rest families h)

  has-cleared :
      (f : Bytes) (families : Families) → has_family f (cleared families) ≡ has_family f families
  unfolding delete_row_everywhere find
  has-cleared f [] = refl
  has-cleared f ((key, cf) ∷ families) = ground (
    arith,
    has-cleared f families,
    cleared_of_log families (push_columns key (ColumnFamily.delete_row c.row_key cf).1 []),
  )

  read-cleared :
      (f r q : Bytes) (t : ℤ) (families : Families)
      → AllValues (IsValid pb) families
      → read_cell f r q t (cleared families)
        ≡ (if same r c.row_key then none else read_cell f r q t families)
  unfolding delete_row_everywhere find
  read-cleared f r q t [] h = ground arith
  read-cleared f r q t ((key, cf) ∷ families) h = ground (
    arith,
    read-cleared f r q t families h.1,
    read-delete_row pb cf h.0 r q t c.row_key,
    cleared_of_log families (push_columns key (ColumnFamily.delete_row c.row_key cf).1 []),
  )

  cleared-AllValid :
      (families : Families)
      → AllValues (IsValid pb) families
      → AllValues (IsValid pb) (cleared families)
  unfolding delete_row_everywhere
  cleared-AllValid [] h = tt
  cleared-AllValid ((key, cf) ∷ families) h = (
    delete_row-IsValid pb c.row_key cf h.0,
    subst (λ x. AllValues (IsValid pb) x)
        (sym
          (cleared_of_log families (push_columns key (ColumnFamily.delete_row c.row_key cf).1 [])))
        (cleared-AllValid families h.1),
  )

  AllAfter-cleared :
      (k : Bytes) (families : Families) → AllAfter k families → AllAfter k (cleared families)
  unfolding delete_row_everywhere
  AllAfter-cleared k [] h = tt
  AllAfter-cleared k ((key, cf) ∷ families) h = (
    h.0,
    subst (λ x. AllAfter k x)
        (sym
          (cleared_of_log families (push_columns key (ColumnFamily.delete_row c.row_key cf).1 [])))
        (AllAfter-cleared k families h.1),
  )

  cleared-IsSorted : (families : Families) → IsSorted families → IsSorted (cleared families)
  unfolding delete_row_everywhere
  cleared-IsSorted [] s = tt
  cleared-IsSorted ((key, cf) ∷ families) s =
      subst (λ x. IsSorted ((key, (ColumnFamily.delete_row c.row_key cf).0) ∷ x))
        (sym
          (cleared_of_log families (push_columns key (ColumnFamily.delete_row c.row_key cf).1 [])))
        (AllAfter-cleared key families s.0, cleared-IsSorted families s.1)

  read-restore_all :
      (f r q : Bytes) (t : ℤ) (rest families : Families)
      → IsSorted rest
      → AllValues (IsValid pb) rest
      → ((g : Bytes) → has_family g rest ≡ true → has_family g families ≡ true)
      → read_cell f r q t (restore_all rest families) ≡ (
          if same r c.row_key && in_time_range unbounded t
          then or_else (read_cell f r q t rest) (read_cell f r q t families)
          else read_cell f r q t families)
  unfolding find
  read-restore_all f r q t [] families s h has = ground arith
  read-restore_all f r q t ((key, cf) ∷ rest) families s h has = ground (
    arith,
    read-restore_columns pb c key f r q t (ColumnFamily.delete_row c.row_key cf).1
        (restore_all rest families) (delete_row-IsSorted c.row_key cf),
    has-restore_all key rest families,
    bytes_order.less_irrefl key,
    has key,
    read-restore_all f r q t rest families s.1 h.1 (λ g e. has g (
        ground (
          arith,
          e,
          find_of_AllAfter key rest s.0,
          find_of_before g key rest s.0,
          same_key g key,
          bytes_order.less_connex g key,
        ))),
    find_deleted-delete_row pb c.row_key q t cf h.0,
    same_key f key,
    same_key r c.row_key,
    find_of_AllAfter key rest s.0,
    find_of_before f key rest s.0,
  )

  module _ (start : Families) (tx : Transaction) (u : Undoable pb c start tx) where
    restored-Alike : Alike (restore_all tx.families (cleared tx.families)) tx.families
    restored-Alike = record {
      has = λ f. has-restore_all f tx.families (cleared tx.families) ∙ has-cleared f tx.families;
      reads = λ f r q t. ground (
        arith,
        read-restore_all f r q t tx.families (cleared tx.families) u.sorted u.valid
            (λ g e. has-cleared g tx.families ∙ e),
        read-cleared f r q t tx.families u.valid,
        u.recent f r q t,
      );
    }

    pub everywhere-Undoable :
        (calls : List StorageCall)
        → Undoable pb c start (record {
          families = (delete_row_everywhere c tx.families tx.undo_log).0;
          undo_log = (delete_row_everywhere c tx.families tx.undo_log).1.0;
          storage_calls = calls;
        })
    everywhere-Undoable calls =
        subst
          (λ x. Undoable pb c start (record {
            families = x;
            undo_log = (delete_row_everywhere c tx.families tx.undo_log).1.0;
            storage_calls = calls;
          }))
          (sym (cleared_of_log tx.families tx.undo_log))
          (record {
            sorted = cleared-IsSorted tx.families u.sorted;
            valid = cleared-AllValid tx.families u.valid;
            recent = λ f r q t early.
                ground (arith, read-cleared f r q t tx.families u.valid, u.recent f r q t early);
            back =
                subst (λ x. Alike x start)
                  (sym (revert_all-everywhere tx.families tx.undo_log (cleared tx.families)))
                  (Alike-trans _ (revert_all pb c tx.undo_log tx.families) start
                    (revert_all-Alike pb c tx.undo_log _ tx.families
                      (restore_all-AllValid tx.families _ (cleared-AllValid tx.families u.valid))
                      u.valid restored-Alike)
                    u.back);
          })
