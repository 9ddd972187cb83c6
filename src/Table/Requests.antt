-- ===== src/Table/Requests.antt =====
-- The requests that change a table, one after the other: `Table::MutateRow`, `Table::ReadModifyWriteRow`,
-- `Table::ModifyColumnFamilies` and `Table::DropRowRange` of table.cc. The lock makes each one step.
pub mod WellFormed
pub mod Rows
pub mod Families
pub mod Resolved
pub mod Reachable
use bigtable_emulator.Common.{Bool, List, [], ◌∷◌, ℤ}
use bigtable_emulator.Common.Bytes.{Bytes}
use bigtable_emulator.External.{BigEndian}
use bigtable_emulator.GcRule.{Protobuf}
use bigtable_emulator.RowTransaction.{Context, Transaction}
use bigtable_emulator.RowTransaction.ReadModifyWrite.{Rule, read_modify_write_row}
use bigtable_emulator.Table.{Mutation, do_mutations_with_possible_rollback}
use bigtable_emulator.Table.Drop.{Target, drop_row_range}
use bigtable_emulator.Table.Schema.{FieldMaskUtil, TableState}
use bigtable_emulator.Table.Modify.{Modification, modify_column_families}

-- A request, with the readings of the clock.
pub data Request : Type 0 where
  mutate_row : Bytes → List (ℤ × Mutation) → Request
  read_modify_write : Bytes → List (ℤ × Rule) → Request
  modify_families : List Modification → Request
  drop_rows : Target → Request

abbrev pub transaction_of : TableState → Transaction
transaction_of table = record { families = table.families; undo_log = []; storage_calls = [] }

-- `RowTransaction row_transaction(this->get(), row_key, name_)`; the third argument is "" by default.
abbrev pub context_of : TableState → Bytes → Bytes → Bool → Context
context_of table row_key table_key has_storage = record {
  table_name = table.name;
  row_key = row_key;
  table_key = table_key;
  has_storage = has_storage;
}

module _ (pb : Protobuf) (masks : FieldMaskUtil) (be : BigEndian) (has_storage : Bool) where
  -- `Table::MutateRow`, what it does to the table.
  abbrev pub table_mutate_row : Bytes → List (ℤ × Mutation) → TableState → TableState
  table_mutate_row row_key mutations table = record table {
    families =
        (do_mutations_with_possible_rollback (context_of table row_key table.name has_storage) be
          mutations (transaction_of table)).0.families;
  }

  -- The server calls the method of the request.
  unfoldable pub serve : Request → TableState → TableState
  serve (mutate_row row_key mutations) table = table_mutate_row row_key mutations table
  serve (read_modify_write row_key rules) table = record table {
    families =
        (read_modify_write_row (context_of table row_key [] has_storage) be rules
          (transaction_of table)).0.families;
  }
  serve (modify_families modifications) table =
      (modify_column_families pb masks has_storage modifications table).0.0
  serve (drop_rows target) table = record table {
    families = (drop_row_range target table.families).0;
  }

  unfoldable pub serve_all : List Request → TableState → TableState
  unfolding serve
  serve_all [] table = table
  serve_all (request ∷ requests) table = serve_all requests (serve request table)
