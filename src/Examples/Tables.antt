-- ===== src/Examples/Tables.antt =====
-- The theorems on tables, their schemas and their column families, at concrete inputs.
use bigtable_emulator.Common.{
  true, false, ◌&&◌, List, [], ◌∷◌, none, some, pos, ◌≡◌, ◌≢◌, refl, if◌then◌else◌,
}
use bigtable_emulator.Common.Bytes.{Bytes, bytes_order}
use bigtable_emulator.Status.{ok, err, invalid_argument, not_found, internal, is_ok}
use bigtable_emulator.StdMap.{find}
use bigtable_emulator.GcRule.{
  check_gc_rule_is_valid, check_gc_rule_size_is_below_limit, check_gc_rule_tree_has_valid_fields,
  check_gc_rule_tree_node_has_valid_fields,
}
use bigtable_emulator.ColumnFamily
use bigtable_emulator.ColumnFamily.{construct_column_family, set_gc_rule, aggregate, sum}
use bigtable_emulator.RowTransaction.{Families}
use bigtable_emulator.RowTransaction.Rollback.{read_cell}
use bigtable_emulator.RowTransaction.Reverts.{Alike}
use bigtable_emulator.StringRangeSet.{open_bound, closed_bound}
use bigtable_emulator.Table.Drop.{row_key_prefix, drop_row_range}
use bigtable_emulator.Table.Drop.Prefix.{in_order, takes, read_cell-drop_row_range}
use bigtable_emulator.Table.RowSet.{
  RowSet, create_string_range_set, keys_in_order, ranges_in_order, create_string_range_set-accepts,
}
use bigtable_emulator.Table.Schema.{
  Definition, FieldMaskUtil, TableSchema, TableState, millis, construct, construct_families,
  check_schema,
}
use bigtable_emulator.Table.Schema.Build.{construct-NamesAgree}
use bigtable_emulator.Table.Modify.{Modification, drop, update, create, modify_column_families}
use bigtable_emulator.Table
use bigtable_emulator.Table.Requests.{Request, mutate_row, modify_families, drop_rows, serve_all}
use bigtable_emulator.Table.Requests.Reachable.{IsSound, serve_all-construct}
use bigtable_emulator.Table.Requests.WellFormed.{IsWellFormed}
use bigtable_emulator.Table.Modify.Names.{NamesAgree, modify_column_families-NamesAgree}
use bigtable_emulator.Table.Modify.Failure.{
  modify_column_families-failed, modify_column_families-rule_kept,
}
use bigtable_emulator.Examples.{protobuf, big_endian, row_keys}
use bigtable_emulator.Examples.Families.{family, family-IsValid, one_version}

abbrev name : Bytes
name = 6 ∷ []

abbrev families : Families
families = (name, family) ∷ []

read_cell-drop_row_range_example :
    ((drop_row_range (row_key_prefix (1 ∷ [])) families).1
      ≡ (if in_order (row_key_prefix (1 ∷ [])) then ok tt else err invalid_argument))
    × (read_cell name
          (1 ∷ [])
          (2 ∷ [])
          (pos 4)
          (drop_row_range (row_key_prefix (1 ∷ [])) families).0
        ≡ (if in_order (row_key_prefix (1 ∷ [])) && takes (row_key_prefix (1 ∷ [])) (1 ∷ [])
            then none
            else read_cell name (1 ∷ []) (2 ∷ []) (pos 4) families))
read_cell-drop_row_range_example =
    read_cell-drop_row_range protobuf (row_key_prefix (1 ∷ [])) name (1 ∷ []) (2 ∷ []) (pos 4)
      families (family-IsValid, tt)

-- Field masks whose only path is the one of the garbage collection rule.
abbrev gc_rule_mask : FieldMaskUtil
gc_rule_mask = record {
  is_valid_for_column_family = λ mask. true;
  is_path_in_field_mask = λ path mask. false;
  merge_column_family = λ new mask old. record old { gc_rule = new.gc_rule };
  is_valid_for_table = λ mask. true;
  subtract = λ mask allowed. [];
  merge_table = λ new mask old. record old { deletion_protection = new.deletion_protection };
  gc_rule_path = [];
  value_type_path = 1 ∷ [];
  allowed_for_table = [];
  gc_rule_is_valid = refl;
}

abbrev plain : Definition
plain = record { gc_rule = none; value_type = none }

abbrev collected : Definition
collected = record { gc_rule = some one_version; value_type = none }

abbrev pub schema : TableSchema
schema = record {
  name = 8 ∷ [];
  granularity = millis;
  cluster_states_size = 0;
  has_restore_info = false;
  has_change_stream_config = false;
  has_automated_backup_policy = false;
  deletion_protection = false;
  column_families = ((8 ∷ 47 ∷ 6 ∷ []), plain) ∷ [];
}

abbrev before : TableState
before = record { name = []; schema = schema; families = []; stored_schemas = [] }

abbrev table : TableState
table = (construct protobuf true schema before).0

constructed-is_ok : (construct protobuf true schema before).1 ≡ ok tt
unfolding construct construct_families check_schema construct_column_family
    ColumnFamily.set_value_type ColumnFamily.set_valid_gc_rule
constructed-is_ok = refl

construct-NamesAgree_example : NamesAgree table × IsWellFormed protobuf table.families
construct-NamesAgree_example =
    construct-NamesAgree protobuf big_endian true schema before refl constructed-is_ok

table-NamesAgree : NamesAgree table
table-NamesAgree =
    (construct-NamesAgree protobuf big_endian true schema before refl constructed-is_ok).0

abbrev requests : List Modification
requests =
    record { id = 7 ∷ []; change = create collected }
    ∷ record { id = name; change = update collected none }
    ∷ record { id = 7 ∷ []; change = drop }
    ∷ []

modify_column_families-NamesAgree_example :
    NamesAgree (modify_column_families protobuf gc_rule_mask true requests table).0.0
    × ((modify_column_families protobuf gc_rule_mask true requests table).1 ≢ err internal)
modify_column_families-NamesAgree_example =
    modify_column_families-NamesAgree protobuf gc_rule_mask true requests table table-NamesAgree

abbrev failing : List Modification
failing =
    record { id = name; change = update collected none }
    ∷ record { id = 9 ∷ []; change = drop }
    ∷ []

failing-not_found :
    (modify_column_families protobuf gc_rule_mask true failing table).1 ≡ err not_found
unfolding modify_column_families find construct construct_column_family bigtable_emulator.StdMap.put
    check_gc_rule_is_valid check_gc_rule_tree_has_valid_fields
failing-not_found = refl

modify_column_families-failed_example :
    Alike
      (modify_column_families protobuf gc_rule_mask true failing table).0.0.families
      table.families
    × (((modify_column_families protobuf gc_rule_mask true failing table).0.0.schema ≡ table.schema)
        × ((modify_column_families protobuf gc_rule_mask true failing table).0.0.stored_schemas
            ≡ table.stored_schemas))
modify_column_families-failed_example =
    modify_column_families-failed protobuf gc_rule_mask true failing table not_found
      failing-not_found

one_version-is_valid : check_gc_rule_is_valid protobuf one_version ≡ ok tt
unfolding check_gc_rule_is_valid check_gc_rule_size_is_below_limit
    check_gc_rule_tree_has_valid_fields check_gc_rule_tree_node_has_valid_fields
one_version-is_valid = refl

abbrev kept_table : TableState
kept_table = record {
  name = 8 ∷ [];
  schema = record schema { column_families = (name, plain) ∷ [] };
  families = families;
  stored_schemas = [];
}

modify_column_families-rule_kept_example :
    ((modify_column_families protobuf gc_rule_mask true failing kept_table).1 ≡ err not_found)
    × (find name (modify_column_families protobuf gc_rule_mask true failing kept_table).0.0.families
        ≡ some (set_gc_rule one_version family))
unfolding find
modify_column_families-rule_kept_example =
    modify_column_families-rule_kept protobuf gc_rule_mask true kept_table name (9 ∷ []) collected
      plain family one_version refl refl refl refl refl one_version-is_valid

abbrev row_set : RowSet
row_set = record {
  row_keys = (1 ∷ []) ∷ (3 ∷ []) ∷ [];
  row_ranges = record { start_key = open_bound (5 ∷ []); end_key = closed_bound (4 ∷ []) } ∷ [];
}

create_string_range_set-accepts_example :
    is_ok (create_string_range_set row_keys row_set)
    ≡ keys_in_order row_keys row_set.row_keys && ranges_in_order row_keys row_set.row_ranges
create_string_range_set-accepts_example = create_string_range_set-accepts row_keys row_set

abbrev all_requests : List Request
all_requests =
    modify_families requests
    ∷ mutate_row (1 ∷ []) ((pos 9, Table.delete_from_row) ∷ [])
    ∷ drop_rows (row_key_prefix (1 ∷ []))
    ∷ []

serve_all-construct_example :
    IsSound protobuf (serve_all protobuf gc_rule_mask big_endian true all_requests table)
serve_all-construct_example =
    serve_all-construct protobuf gc_rule_mask big_endian true schema before all_requests refl
      constructed-is_ok (tt, ((refl, tt), (tt, tt)))
