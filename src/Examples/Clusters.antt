-- ===== src/Examples/Clusters.antt =====
-- The theorems on the cluster, at concrete inputs.
use bigtable_emulator.Common.{true, ◌&&◌, [], ◌∷◌, ◌++◌, ◌≡◌, refl, if◌then◌else◌, map}
use bigtable_emulator.Common.Bytes.{Bytes, bytes_order}
use bigtable_emulator.Status.{
  StatusOr, ok, err, ◌>>=◌, not_found, failed_precondition, already_exists, is_ok,
}
use bigtable_emulator.StdMap.{find, IsSorted}
use bigtable_emulator.StdMap.Lookup.{same}
use bigtable_emulator.ColumnFamily
use bigtable_emulator.ColumnFamily.{construct_column_family}
use bigtable_emulator.Table.Schema.{TableSchema, construct, construct_families, check_schema}
use bigtable_emulator.Cluster.{
  Cluster, name_only, named, new_table, create_table, slash_tables_slash, list_tables, delete_table,
  find_table,
}
use bigtable_emulator.Cluster.Tables.{
  tables_of, find_table-create_table, create_table-failed, create_table-stored,
  find_table-delete_table, list_tables_lem,
}
use bigtable_emulator.Examples.{protobuf}
use bigtable_emulator.Examples.Tables.{schema}

abbrev instance_name : Bytes
instance_name = 2 ∷ []

abbrev table_name : Bytes
table_name = instance_name ++ (slash_tables_slash ++ (5 ∷ []))

abbrev no_tables : Cluster
no_tables = record { table_by_name = []; stored_schemas = []; deleted_tables = [] }

abbrev created : Cluster × StatusOr TableSchema
created = create_table protobuf true table_name schema no_tables

constructed-is_ok :
    (construct protobuf true (record schema { name = table_name }) new_table).1 ≡ ok tt
unfolding construct construct_families check_schema construct_column_family
    ColumnFamily.set_value_type ColumnFamily.set_valid_gc_rule
constructed-is_ok = refl

created-is_ok :
    created.1
    ≡ ok (construct protobuf true (record schema { name = table_name }) new_table).0.schema
unfolding create_table construct construct_families check_schema construct_column_family
    ColumnFamily.set_value_type ColumnFamily.set_valid_gc_rule find
created-is_ok = refl

find_table-create_table_example :
    (find_table table_name no_tables ≡ err not_found)
    × (find_table table_name (create_table protobuf true table_name schema no_tables).0 ≡ (
        if same table_name table_name
        then ok (construct protobuf true (record schema { name = table_name }) new_table).0
        else find_table table_name no_tables))
find_table-create_table_example =
    find_table-create_table protobuf true table_name schema no_tables
      (construct protobuf true (record schema { name = table_name }) new_table).0.schema table_name
      created-is_ok

abbrev one_table : Cluster
one_table = record no_tables {
  table_by_name =
      (table_name, (construct protobuf true (record schema { name = table_name }) new_table).0)
      ∷ [];
}

created_twice-failed :
    (create_table protobuf true table_name schema one_table).1 ≡ err already_exists
unfolding create_table construct construct_families check_schema construct_column_family
    ColumnFamily.set_value_type ColumnFamily.set_valid_gc_rule find
created_twice-failed = refl

create_table-failed_example :
    (create_table protobuf true table_name schema one_table).0.table_by_name
    ≡ one_table.table_by_name
create_table-failed_example =
    create_table-failed protobuf true table_name schema one_table already_exists
      created_twice-failed

there :
    find_table table_name one_table
    ≡ ok (construct protobuf true (record schema { name = table_name }) new_table).0
unfolding find_table find
there = refl

create_table-stored_example :
    ((create_table protobuf true table_name schema one_table).1 ≡ err already_exists)
    × ((create_table protobuf true table_name schema one_table).0.stored_schemas
        ≡ one_table.stored_schemas
          ++ ((construct protobuf true (record schema { name = table_name }) new_table).0.schema
              ∷ []))
create_table-stored_example =
    create_table-stored protobuf table_name schema one_table
      (construct protobuf true (record schema { name = table_name }) new_table).0 there
      constructed-is_ok

one_table-IsSorted : IsSorted one_table.table_by_name
one_table-IsSorted = (tt, tt)

find_table-delete_table_example :
    ((delete_table true table_name one_table).1 ≡ (
      find_table table_name one_table >>= λ table.
      if table.schema.deletion_protection then err failed_precondition else ok tt))
    × (find_table table_name (delete_table true table_name one_table).0 ≡ (
        if same table_name table_name && is_ok (delete_table true table_name one_table).1
        then err not_found
        else find_table table_name one_table))
find_table-delete_table_example =
    find_table-delete_table true table_name one_table table_name one_table-IsSorted

list_tables_lem_example :
    list_tables instance_name name_only one_table
    ≡ ok (
        map
          (λ e. named e.0)
          (tables_of (instance_name ++ slash_tables_slash) one_table.table_by_name))
list_tables_lem_example = list_tables_lem instance_name one_table one_table-IsSorted
