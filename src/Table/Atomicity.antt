-- ===== src/Table/Atomicity.antt =====
-- The rollback of a sequence of mutations: the undo log against the table as it was at the start.
use bigtable_emulator.Common.{
  true, false, List, [], ◌∷◌, ◌≡◌, refl, ℤ, pos, negsuc, ltb_ℤ, leb_ℤ, ltb, arith, Bool-cases, inl,
  inr, ap, ◌∙◌, length,
}
use bigtable_emulator.Common.Bytes.{Bytes, bytes_order}
use bigtable_emulator.Status.{Status, StatusCode, StatusOr-cases, err}
use bigtable_emulator.External.{BigEndian}
use bigtable_emulator.StdMap.{IsSorted}
use bigtable_emulator.StdMap.Values.{AllValues}
use bigtable_emulator.GcRule.{Protobuf}
use bigtable_emulator.ColumnRow.{to_millis, unbounded}
use bigtable_emulator.ColumnRow.Deletion.{in_time_range}
use bigtable_emulator.ColumnFamily.Validity.{IsValid}
use bigtable_emulator.RowTransaction.{
  Families, Transaction, Context, SetCell, AddToCell, undo, overridden,
}
use bigtable_emulator.RowTransaction.Rollback.{read_cell}
use bigtable_emulator.RowTransaction.Reverts.{undo_all-revert_all}
use bigtable_emulator.RowTransaction.Undoing.{AfterEpoch, IsRecent, Undoable, fresh-Undoable}
use bigtable_emulator.RowTransaction.Mutations.{
  set_cell-Undoable, add_to_cell-Undoable, delete_from_column-Undoable, delete_from_family-Undoable,
  delete_from_row-Undoable,
}
use bigtable_emulator.Table.{
  Mutation, set_cell, add_to_cell, merge_to_cell, delete_from_column, delete_from_family,
  delete_from_row, mutation_not_set, do_mutation, do_mutations, do_mutations_with_possible_rollback,
  set_cell_override, add_to_cell_override, max_row_len,
}

module _ (pb : Protobuf) (c : Context) (be : BigEndian) where
  -- The time stamps that a table gives to cells are not before 0.
  set_cell-late :
      (now : ℤ) (m : SetCell)
      → leb_ℤ (pos 0) now ≡ true
      → ltb_ℤ m.timestamp_micros (negsuc 0) ≡ false
      → in_time_range unbounded
          (overridden (set_cell_override c be now m) (to_millis m.timestamp_micros))
        ≡ true
  set_cell-late now m late h = ground arith

  add_to_cell-late :
      (now : ℤ) (m : AddToCell)
      → leb_ℤ (pos 0) now ≡ true
      → in_time_range unbounded
          (overridden (add_to_cell_override c be now m) (to_millis m.raw_timestamp_micros))
        ≡ true
  add_to_cell-late now m late = ground arith

  do_mutation-Undoable :
      (now : ℤ) (late : leb_ℤ (pos 0) now ≡ true) (start : Families) (m : Mutation)
      (tx : Transaction)
      → Undoable pb c start tx
      → Undoable pb c start (do_mutation c be now m tx).0
  unfolding do_mutation
  do_mutation-Undoable now late start (set_cell m) tx u =
      elim (Bool-cases (ltb_ℤ m.timestamp_micros (negsuc 0))) [
        | inl low ↦ rw (low, do_mutation) u
        | inr fine ↦
            rw (fine, do_mutation)
              (set_cell-Undoable pb c start tx u m (set_cell_override c be now m)
                (set_cell-late now m late fine))
      ]
  do_mutation-Undoable now late start (add_to_cell m) tx u =
      add_to_cell-Undoable pb c start tx u be m (add_to_cell_override c be now m)
        (add_to_cell-late now m late)
  do_mutation-Undoable now late start merge_to_cell tx u = u
  do_mutation-Undoable now late start (delete_from_column m) tx u =
      delete_from_column-Undoable pb c start tx u m
  do_mutation-Undoable now late start (delete_from_family name) tx u =
      delete_from_family-Undoable pb c start tx u name
  do_mutation-Undoable now late start delete_from_row tx u =
      delete_from_row-Undoable pb c start tx u
  do_mutation-Undoable now late start mutation_not_set tx u = u

  pub do_mutations-Undoable :
      (start : Families) (ms : List (ℤ × Mutation)) (tx : Transaction)
      → AfterEpoch ms
      → Undoable pb c start tx
      → Undoable pb c start (do_mutations c be ms tx).0
  unfolding do_mutations
  do_mutations-Undoable start [] tx late u = u
  do_mutations-Undoable start ((now, m) ∷ ms) tx late u =
      let v = do_mutation-Undoable now late.0 start m tx u in
      elim (StatusOr-cases (do_mutation c be now m tx).1) [
        | inr (code, failed) ↦ rw (failed, do_mutations) v
        | inl (done, fine) ↦
            rw (fine, do_mutations)
              (do_mutations-Undoable start ms (do_mutation c be now m tx).0 late.1 v)
      ]

  -- Where the column families of a table are sorted by name and valid, no cell has a time
  -- stamp before 0 and the clock reads none, an error from `DoMutationsWithPossibleRollback`,
  -- whatever the mutations are and whichever it comes from, leaves every cell of the column
  -- families in memory reading what it did before.
  pub do_mutations_with_possible_rollback-failed :
      (ms : List (ℤ × Mutation)) (tx : Transaction) (code : StatusCode)
      → AfterEpoch ms
      → IsSorted tx.families
      → AllValues (IsValid pb) tx.families
      → IsRecent tx.families
      → (do_mutations_with_possible_rollback c be ms tx).1 ≡ err code
      → (f r q : Bytes) (t : ℤ)
      → read_cell f r q t (do_mutations_with_possible_rollback c be ms tx).0.families
        ≡ read_cell f r q t tx.families
  unfolding do_mutations_with_possible_rollback undo
  do_mutations_with_possible_rollback-failed ms tx code late s h early failed f r q t =
      elim (Bool-cases (ltb max_row_len (length c.row_key))) [
        | inl long ↦ rw (long, do_mutations_with_possible_rollback) refl
        | inr short ↦ elim (StatusOr-cases done.1) [
          | inl (u, fine) ↦ absurd (
              let w = rw (short, fine, do_mutations_with_possible_rollback) at failed in
              ground arith)
          | inr (e, bad) ↦
              rw (short, bad, do_mutations_with_possible_rollback)
                (ap (λ x. read_cell f r q t x)
                    (undo_all-revert_all pb c done.0.undo_log (record done.0 { undo_log = [] }))
                  ∙ undoable.back.reads f r q t)
        ]
      ]
    where
      done : Transaction × Status
      done = do_mutations c be ms (record tx { undo_log = [] })

      undoable : Undoable pb c tx.families done.0
      undoable =
          do_mutations-Undoable tx.families ms (record tx { undo_log = [] }) late
            (fresh-Undoable pb c tx.families tx.storage_calls s h early)
