-- ===== src/Cluster.antt =====
-- `Cluster` of cluster.h and cluster.cc: the tables by name. The lock makes each method one step.
pub mod Tables
use bigtable_emulator.Common.{
  Bool, true, false, List, [], ◌∷◌, ◌++◌, Option, none, some, if◌then◌else◌,
}
use bigtable_emulator.Common.Bytes.{Bytes, bytes_order}
use bigtable_emulator.Status.{
  Status, StatusOr, ok, err, ◌>>=◌, not_found, failed_precondition, already_exists, unimplemented,
  internal, invalid_argument,
}
use bigtable_emulator.StdMap
use bigtable_emulator.GcRule.{Protobuf}
use bigtable_emulator.Table.Drop.{starts_with}
use bigtable_emulator.Table.Schema.{
  TableSchema, TableState, timestamp_granularity_unspecified, construct,
}

-- `google.bigtable.admin.v2.Table.View`.
pub data View : Type 0 where
  view_unspecified name_only schema_view replication_view encryption_view full other_view : View

-- The tables, the schemas that were stored and the names of the tables deleted from the storage.
pub record Cluster : Type 0 where
  pub table_by_name : List (Bytes × TableState)
  pub stored_schemas : List TableSchema
  pub deleted_tables : List Bytes

-- The default-constructed message, with a name.
abbrev pub named : Bytes → TableSchema
named name = record {
  name = name;
  granularity = timestamp_granularity_unspecified;
  cluster_states_size = 0;
  has_restore_info = false;
  has_change_stream_config = false;
  has_automated_backup_policy = false;
  deletion_protection = false;
  column_families = [];
}

abbrev pub view_or : View → View → View
view_or view_unspecified default_view = default_view
view_or name_only default_view = name_only
view_or schema_view default_view = schema_view
view_or replication_view default_view = replication_view
view_or encryption_view default_view = encryption_view
view_or full default_view = full
view_or other_view default_view = other_view

unfoldable pub view_schema : Bytes → TableSchema → View → StatusOr TableSchema
view_schema table_name schema view_unspecified = err internal
view_schema table_name schema name_only = ok (named table_name)
view_schema table_name schema schema_view = ok (record (named table_name) {
  column_families = schema.column_families;
  granularity = schema.granularity;
})
view_schema table_name schema replication_view =
    ok (record (named table_name) { cluster_states_size = schema.cluster_states_size })
view_schema table_name schema encryption_view =
    ok (record (named table_name) { cluster_states_size = schema.cluster_states_size })
view_schema table_name schema full = ok schema
view_schema table_name schema other_view = err unimplemented

unfoldable pub apply_view : Bytes → TableState → View → View → StatusOr TableSchema
unfolding view_schema
apply_view table_name table view default_view =
    view_schema table_name table.schema (view_or view default_view)

-- A table before `Construct`.
abbrev pub new_table : TableState
new_table = record { name = []; schema = named []; families = []; stored_schemas = [] }

unfoldable pub create_table :
    Protobuf → Bool → Bytes → TableSchema → Cluster → Cluster × StatusOr TableSchema
create_table pb has_storage table_name schema cluster =
    let (table, status) =
      construct pb has_storage (record schema { name = table_name }) new_table in
    elim status [
      | err e ↦ (cluster, err e)
      | ok u ↦
          let stored = record cluster {
            stored_schemas = cluster.stored_schemas ++ table.stored_schemas;
          } in
          elim (StdMap.find table_name cluster.table_by_name) [
            | some old ↦ (stored, err already_exists)
            | none ↦ (
              record stored { table_by_name = StdMap.put table_name table cluster.table_by_name },
              ok table.schema,
            )
          ]
    ]

abbrev pub slash_tables_slash : Bytes
slash_tables_slash = 47 ∷ 116 ∷ 97 ∷ 98 ∷ 108 ∷ 101 ∷ 115 ∷ 47 ∷ []

-- The loop of `ListTables`, up to the first table without the prefix.
unfoldable pub list_while : Bytes → View → List (Bytes × TableState) → StatusOr (List TableSchema)
unfolding apply_view
list_while prefix view [] = ok []
list_while prefix view ((name, table) ∷ tables) =
    let rest = list_while prefix view tables in
    if starts_with prefix name
    then (do schema ← apply_view name table view name_only; schemas ← rest; ok (schema ∷ schemas))
    else ok []

unfoldable pub list_tables : Bytes → View → Cluster → StatusOr (List TableSchema)
unfolding list_while
list_tables instance_name view cluster =
    let prefix = instance_name ++ slash_tables_slash in
    list_while prefix view (StdMap.upper_bound prefix cluster.table_by_name)

unfoldable pub get_table : Bytes → View → Cluster → StatusOr TableSchema
unfolding apply_view
get_table table_name view cluster = elim (StdMap.find table_name cluster.table_by_name) [
  | none ↦ err not_found
  | some table ↦ apply_view table_name table view schema_view
]

unfoldable pub delete_table : Bool → Bytes → Cluster → Cluster × Status
delete_table has_storage table_name cluster = elim (StdMap.find table_name cluster.table_by_name) [
  | none ↦ (cluster, err not_found)
  | some table ↦ if table.schema.deletion_protection then (cluster, err failed_precondition) else (
    record cluster {
      table_by_name = StdMap.erase table_name cluster.table_by_name;
      deleted_tables =
          if has_storage
          then cluster.deleted_tables ++ (table_name ∷ [])
          else cluster.deleted_tables;
    },
    ok tt,
  )
]

unfoldable pub has_table : Bytes → Cluster → Bool
has_table table_name cluster = elim (StdMap.find table_name cluster.table_by_name) [
  | none ↦ false
  | some table ↦ true
]

unfoldable pub find_table : Bytes → Cluster → StatusOr TableState
find_table table_name cluster = elim (StdMap.find table_name cluster.table_by_name) [
  | none ↦ err not_found
  | some table ↦ ok table
]

-- A null pointer is `none`.
unfoldable pub attach_table : Bytes → Option TableState → Cluster → Cluster × Status
attach_table table_name none cluster = (cluster, err invalid_argument)
attach_table table_name (some table) cluster = elim (StdMap.find table_name cluster.table_by_name) [
  | some old ↦ (cluster, err already_exists)
  | none ↦
      (record cluster { table_by_name = StdMap.put table_name table cluster.table_by_name }, ok tt)
]
