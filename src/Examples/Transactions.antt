-- ===== src/Examples/Transactions.antt =====
-- The theorems on row transactions, at concrete inputs.
use bigtable_emulator.Common.{
  true, false, List, [], ◌∷◌, none, some, ℤ, pos, negsuc, ◌≡◌, refl, arith, freshest_first,
}
use bigtable_emulator.Common.Bytes.{Bytes, bytes_order}
use bigtable_emulator.Status.{err, invalid_argument}
use bigtable_emulator.StdMap.{find, IsSorted}
use bigtable_emulator.StdMap.Values.{AllValues}
use bigtable_emulator.ColumnRow.{unbounded}
use bigtable_emulator.ColumnRow.Deletion.{in_time_range}
use bigtable_emulator.ColumnFamily
use bigtable_emulator.ColumnFamily.{ColumnFamily, aggregate, sum}
use bigtable_emulator.ColumnFamily.History
use bigtable_emulator.ColumnFamily.History.{Call, run, run-construct_column_family}
use bigtable_emulator.ColumnFamily.Reads.{read, read-set_cell}
use bigtable_emulator.ColumnFamily.Validity.{IsValid}
use bigtable_emulator.RowTransaction
use bigtable_emulator.RowTransaction.{
  Context, Families, SetCell, Transaction, undo, find_column_family,
}
use bigtable_emulator.RowTransaction.Rollback.{read_cell}
use bigtable_emulator.RowTransaction.Undoing.{IsRecent}
use bigtable_emulator.RowTransaction.ReadModifyWrite.{
  Rule, append_value, operation_not_set, read_modify_write_row,
}
use bigtable_emulator.RowTransaction.ReadModifyWrite.Results.{
  call, there, result_of, read_after, value_of, read_modify_write_lem,
}
use bigtable_emulator.RowTransaction.ReadModifyWrite.Rollback.{read_modify_write_row-failed}
use bigtable_emulator.Table.{
  Mutation, set_cell, delete_from_row, do_mutation, do_mutations,
  do_mutations_with_possible_rollback,
}
use bigtable_emulator.Table.Atomicity.{do_mutations_with_possible_rollback-failed}
use bigtable_emulator.Examples.{protobuf, big_endian}
use bigtable_emulator.Examples.Families.{family, constructed, constructed-is_ok, one_version}

abbrev pub name : Bytes
name = 6 ∷ []

abbrev pub families : Families
families = (name, family) ∷ []

-- A table of two families, which the rollbacks below bring back.
abbrev calls : List Call
calls =
    History.set_cell (1 ∷ []) (2 ∷ []) (pos 4) (9 ∷ [])
    ∷ History.set_cell (1 ∷ []) (3 ∷ []) (pos 3) []
    ∷ []

abbrev written_family : ColumnFamily
written_family = run protobuf big_endian calls constructed

abbrev two_families : Families
two_families = (name, written_family) ∷ ((7 ∷ [], constructed) ∷ [])

two_families-IsSorted : IsSorted two_families
two_families-IsSorted = ((refl, tt), (tt, tt))

two_families-IsValid : AllValues (IsValid protobuf) two_families
unfolding run
two_families-IsValid = (
  run-construct_column_family protobuf big_endian (some (aggregate sum)) (some one_version)
      constructed calls (tt, (tt, tt)) constructed-is_ok,
  (
    run-construct_column_family protobuf big_endian (some (aggregate sum)) (some one_version)
        constructed [] tt constructed-is_ok,
    tt,
  ),
)

read_early :
    (r q : Bytes) (t : ℤ) → in_time_range unbounded t ≡ false → read r q t written_family ≡ none
unfolding run History.step find
read_early r q t early = ground (
  arith,
  early,
  read-set_cell r q t (1 ∷ []) (2 ∷ []) (pos 4) (9 ∷ []) constructed,
  read-set_cell r q t (1 ∷ []) (3 ∷ []) (pos 3) []
      (ColumnFamily.set_cell (1 ∷ []) (2 ∷ []) (pos 4) (9 ∷ []) constructed).0,
  freshest_first.less_connex t (pos 3),
  freshest_first.less_connex t (pos 4),
)

two_families-IsRecent : IsRecent two_families
unfolding find
two_families-IsRecent f r q t early = ground (arith, read_early r q t early)

abbrev start : Transaction
start = record { families = two_families; undo_log = []; storage_calls = [] }

abbrev pub context : Context
context = record { table_name = 8 ∷ []; row_key = 1 ∷ []; table_key = 8 ∷ []; has_storage = true }

abbrev pub overwrite : SetCell
overwrite = record {
  family_name = name;
  column_qualifier = 2 ∷ [];
  timestamp_micros = pos 4000;
  value = [];
}

abbrev pub fresh : Transaction
fresh = record { families = families; undo_log = []; storage_calls = [] }

abbrev too_early : SetCell
too_early = record {
  family_name = name;
  column_qualifier = 2 ∷ [];
  timestamp_micros = negsuc 1;
  value = [];
}

abbrev mutations : List (ℤ × Mutation)
mutations =
    (pos 9, set_cell overwrite) ∷ (pos 9, delete_from_row) ∷ (pos 10, set_cell too_early) ∷ []

too_early-failed :
    (do_mutations_with_possible_rollback context big_endian mutations start).1
    ≡ err invalid_argument
unfolding do_mutations_with_possible_rollback do_mutations do_mutation RowTransaction.set_cell
    find_column_family find RowTransaction.delete_from_row RowTransaction.delete_row_everywhere
    bigtable_emulator.StdMap.put ColumnFamily.delete_row ColumnFamily.set_cell run History.step
    ColumnFamily.delete_all_columns bigtable_emulator.ColumnFamilyRow.set_cell
    bigtable_emulator.ColumnRow.delete_time_range bigtable_emulator.ColumnRow.delete_while
    bigtable_emulator.ColumnRow.set_cell
too_early-failed = refl

do_mutations_with_possible_rollback-failed_example :
    read_cell name
      (1 ∷ [])
      (2 ∷ [])
      (pos 4)
      (do_mutations_with_possible_rollback context big_endian mutations start).0.families
    ≡ read_cell name (1 ∷ []) (2 ∷ []) (pos 4) two_families
do_mutations_with_possible_rollback-failed_example =
    do_mutations_with_possible_rollback-failed protobuf context big_endian mutations start
      invalid_argument (refl, (refl, (refl, tt))) two_families-IsSorted two_families-IsValid
      two_families-IsRecent too_early-failed name (1 ∷ []) (2 ∷ []) (pos 4)

-- The first rule writes a cell, and the second one asks for nothing.
abbrev rules : List (ℤ × Rule)
rules =
    (
      pos 9,
      record { family_name = name; column_qualifier = 2 ∷ []; operation = append_value (5 ∷ []) },
    )
    ∷ (
      pos 9,
      record { family_name = name; column_qualifier = 2 ∷ []; operation = operation_not_set },
    )
    ∷ []

rules-failed : (read_modify_write_row context big_endian rules start).1 ≡ err invalid_argument
unfolding read_modify_write_row find bigtable_emulator.StdMap.put
rules-failed = refl

read_modify_write_row-failed_example :
    read_cell name
      (1 ∷ [])
      (2 ∷ [])
      (pos 9)
      (read_modify_write_row context big_endian rules start).0.families
    ≡ read_cell name (1 ∷ []) (2 ∷ []) (pos 9) two_families
read_modify_write_row-failed_example =
    read_modify_write_row-failed protobuf context big_endian rules start invalid_argument
      (refl, (refl, tt)) two_families-IsSorted two_families-IsValid two_families-IsRecent
      rules-failed name (1 ∷ []) (2 ∷ []) (pos 9)

read_modify_write_lem_example :
    ((call context big_endian (pos 9) name (2 ∷ []) written_family (append_value (5 ∷ []))).1
      ≡ result_of big_endian
          (pos 9)
          (append_value (5 ∷ []))
          (there context big_endian (pos 9) name (2 ∷ []) written_family))
    × (read
          (1 ∷ [])
          (2 ∷ [])
          (pos 9)
          (call context big_endian (pos 9) name (2 ∷ []) written_family (append_value (5 ∷ []))).0
        ≡ read_after context big_endian
            (pos 9)
            name
            (2 ∷ [])
            written_family
            (1 ∷ [])
            (2 ∷ [])
            (pos 9)
            (value_of big_endian
              (append_value (5 ∷ []))
              (there context big_endian (pos 9) name (2 ∷ []) written_family)))
read_modify_write_lem_example =
    read_modify_write_lem context big_endian (pos 9) name (2 ∷ []) written_family
      (append_value (5 ∷ [])) (1 ∷ []) (2 ∷ []) (pos 9)
