-- ===== src/Examples/Families.antt =====
-- The theorems on column families, at concrete inputs.
use bigtable_emulator.Common.{◌&&◌, List, [], ◌∷◌, none, some, pos, ◌≡◌, refl, if◌then◌else◌, All}
use bigtable_emulator.Common.Bytes.{Bytes, bytes_order}
use bigtable_emulator.Status.{ok}
use bigtable_emulator.StdMap.Lookup.{same}
use bigtable_emulator.GcRule.{
  GcRule, max_num_versions, check_gc_rule_is_valid, check_gc_rule_size_is_below_limit,
  check_gc_rule_tree_has_valid_fields, check_gc_rule_tree_node_has_valid_fields,
}
use bigtable_emulator.ColumnRow.{TimestampRange}
use bigtable_emulator.ColumnRow.Deletion.{in_time_range}
use bigtable_emulator.ColumnFamily.{
  ColumnFamily, aggregate, sum, sum_update_cell, construct_column_family, set_cell, delete_row,
  delete_column, delete_time_stamp,
}
use bigtable_emulator.ColumnFamilyRow.Reads.{same_cell}
use bigtable_emulator.ColumnFamily.Validity.{IsValid}
use bigtable_emulator.ColumnFamily.History
use bigtable_emulator.ColumnFamily.History.{Call, run, run-construct_column_family}
use bigtable_emulator.ColumnFamily.Reads.{
  read, read-set_cell, read-delete_column, read-delete_time_stamp, read-delete_row,
}
use bigtable_emulator.Examples.{protobuf, big_endian}

abbrev pub one_version : GcRule
one_version = max_num_versions (pos 1)

abbrev two_versions : GcRule
two_versions = max_num_versions (pos 2)

two_versions-IsValid : check_gc_rule_is_valid protobuf two_versions ≡ ok tt
unfolding check_gc_rule_is_valid check_gc_rule_size_is_below_limit
    check_gc_rule_tree_has_valid_fields check_gc_rule_tree_node_has_valid_fields
two_versions-IsValid = refl

abbrev pub constructed : ColumnFamily
constructed = record {
  rows = [];
  value_type = some (aggregate sum);
  gc_rule = some one_version;
  update_cell_fn = sum_update_cell;
}

pub constructed-is_ok :
    construct_column_family protobuf (some (aggregate sum)) (some one_version) ≡ ok constructed
unfolding construct_column_family check_gc_rule_is_valid check_gc_rule_size_is_below_limit
    check_gc_rule_tree_has_valid_fields check_gc_rule_tree_node_has_valid_fields
constructed-is_ok = refl

abbrev first_row : Bytes
first_row = 1 ∷ []

abbrev other_row : Bytes
other_row = 3 ∷ []

abbrev a_column : Bytes
a_column = 2 ∷ []

abbrev no_column : Bytes
no_column = []

abbrev no_value : Bytes
no_value = []

abbrev calls : List Call
calls =
    History.set_cell first_row a_column (pos 4) (9 ∷ [])
    ∷ History.update_cell first_row a_column (pos 4) (5 ∷ [])
    ∷ History.set_cell first_row a_column (pos 3) []
    ∷ History.set_cell other_row no_column (pos 1) (7 ∷ [])
    ∷ History.set_gc_rule two_versions
    ∷ []

calls-IsChecked : All (History.IsChecked protobuf big_endian) calls
calls-IsChecked = (tt, (tt, (tt, (tt, (two_versions-IsValid, tt)))))

abbrev pub family : ColumnFamily
family = run protobuf big_endian calls constructed

run-construct_column_family_example : IsValid protobuf (run protobuf big_endian calls constructed)
run-construct_column_family_example =
    run-construct_column_family protobuf big_endian (some (aggregate sum)) (some one_version)
      constructed calls calls-IsChecked constructed-is_ok

pub family-IsValid : IsValid protobuf family
family-IsValid =
    run-construct_column_family protobuf big_endian (some (aggregate sum)) (some one_version)
      constructed calls calls-IsChecked constructed-is_ok

abbrev first_millisecond : TimestampRange
first_millisecond = record { start_timestamp_micros = pos 4000; end_timestamp_micros = pos 5000 }

read-set_cell_example :
    ((set_cell first_row a_column (pos 4) no_value family).1
      ≡ read first_row a_column (pos 4) family)
    × (read first_row a_column (pos 3) (set_cell first_row a_column (pos 4) no_value family).0 ≡ (
        if same first_row first_row && same_cell a_column (pos 3) a_column (pos 4)
        then some no_value
        else read first_row a_column (pos 3) family))
read-set_cell_example =
    read-set_cell first_row a_column (pos 3) first_row a_column (pos 4) no_value family

read-delete_column_example :
    read first_row a_column (pos 4) (delete_column first_row a_column first_millisecond family).0
    ≡ (if same first_row first_row
          && (same a_column a_column && in_time_range first_millisecond (pos 4))
        then none
        else read first_row a_column (pos 4) family)
read-delete_column_example =
    read-delete_column protobuf family family-IsValid first_row a_column (pos 4) first_row a_column
      first_millisecond

read-delete_time_stamp_example :
    read first_row a_column (pos 3) (delete_time_stamp first_row a_column (pos 4) family).0 ≡ (
      if same first_row first_row && same_cell a_column (pos 3) a_column (pos 4)
      then none
      else read first_row a_column (pos 3) family)
read-delete_time_stamp_example =
    read-delete_time_stamp protobuf family family-IsValid first_row a_column (pos 3) first_row
      a_column (pos 4)

read-delete_row_example :
    read other_row no_column (pos 1) (delete_row first_row family).0
    ≡ (if same other_row first_row then none else read other_row no_column (pos 1) family)
read-delete_row_example =
    read-delete_row protobuf family family-IsValid other_row no_column (pos 1) first_row
