-- ===== src/Table.antt =====
-- `Table::DoMutationsWithPossibleRollback` of table.cc: the mutations of one row in their order, up
-- to the first that fails.
pub mod Atomicity
pub mod Drop
pub mod Schema
pub mod Modify
pub mod RowSet
pub mod Requests
use bigtable_emulator.Common.{
  ℕ, ◌+◌, ◌-◌, ◌/◌, Bool, true, false, List, [], ◌∷◌, Option, none, some, ℤ, pos, negsuc, pos_part,
  neg_part, ltb, leb, ltb_ℤ, leb_ℤ, eqb_ℤ, ◌==◌, if◌then◌else◌, length,
}
use bigtable_emulator.Common.Bytes.{Bytes}
use bigtable_emulator.Status.{Status, ok, err, invalid_argument, unimplemented}
use bigtable_emulator.External.{BigEndian}
use bigtable_emulator.ColumnRow.{to_millis}
use bigtable_emulator.RowTransaction
use bigtable_emulator.RowTransaction.{
  Context, Families, Transaction, StorageCall, SetCell, AddToCell, DeleteFromColumn, undo,
}

-- `google.bigtable.v2.Mutation`.
pub data Mutation : Type 0 where
  set_cell : SetCell → Mutation
  add_to_cell : AddToCell → Mutation
  merge_to_cell : Mutation
  delete_from_column : DeleteFromColumn → Mutation
  delete_from_family : Bytes → Mutation
  delete_from_row : Mutation
  mutation_not_set : Mutation

-- `kMaxRowLen` of bigtable_limits.h.
abbrev pub max_row_len : ℕ
max_row_len = 4096

-- `now` is the clock's reading at the mutation; each one of a sequence comes with its own.
module _ (c : Context) (be : BigEndian) where
  -- The time of the server, where the client asks for it.
  abbrev pub set_cell_override : ℤ → SetCell → Option ℤ
  set_cell_override now m = if eqb_ℤ m.timestamp_micros (negsuc 0) then some now else none

  abbrev pub add_to_cell_override : ℤ → AddToCell → Option ℤ
  add_to_cell_override now m =
      if leb_ℤ (to_millis m.raw_timestamp_micros) (pos 0) then some now else none

  unfoldable pub do_mutation : ℤ → Mutation → Transaction → Transaction × Status
  do_mutation now (set_cell m) tx =
      if ltb_ℤ m.timestamp_micros (negsuc 0)
      then (tx, err invalid_argument)
      else RowTransaction.set_cell c m (set_cell_override now m) tx
  do_mutation now (add_to_cell m) tx =
      RowTransaction.add_to_cell c be m (add_to_cell_override now m) tx
  do_mutation now merge_to_cell tx = (tx, err unimplemented)
  do_mutation now (delete_from_column m) tx = RowTransaction.delete_from_column c m tx
  do_mutation now (delete_from_family name) tx = RowTransaction.delete_from_family c name tx
  do_mutation now delete_from_row tx = RowTransaction.delete_from_row c tx
  do_mutation now mutation_not_set tx = (tx, err unimplemented)

  unfoldable pub do_mutations : List (ℤ × Mutation) → Transaction → Transaction × Status
  unfolding do_mutation
  do_mutations [] tx = (tx, ok tt)
  do_mutations ((now, m) ∷ mutations) tx =
      let (tx', status) = do_mutation now m tx in
      let rest = do_mutations mutations tx' in elim status [ err e ↦ (tx', err e) | ok _ ↦ rest ]

  -- A transaction that is not committed is undone when it is destroyed.
  unfoldable pub do_mutations_with_possible_rollback :
      List (ℤ × Mutation) → Transaction → Transaction × Status
  unfolding do_mutations
  do_mutations_with_possible_rollback mutations tx =
      if ltb max_row_len (length c.row_key)
      then (tx, err invalid_argument)
      else (let (tx', status) = do_mutations mutations (record tx { undo_log = [] }) in
          elim status [ err e ↦ (undo c tx', err e) | ok _ ↦ (tx', ok tt) ])
