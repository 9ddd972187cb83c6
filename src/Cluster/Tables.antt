-- ===== src/Cluster/Tables.antt =====
-- The tables of a cluster as a map: what each operation does to every table.
use bigtable_emulator.Common.{
  Bool, true, false, ◌&&◌, List, [], ◌∷◌, ◌++◌, ◌≡◌, refl, arith, if◌then◌else◌, keep, map,
  Option-cases, Bool-cases, inl, inr, ap, ◌∙◌,
}
use bigtable_emulator.Common.Bytes.{Bytes, bytes_order, less_bytes}
use bigtable_emulator.Status.{
  StatusOr-cases, StatusCode, ok, err, ◌>>=◌, not_found, failed_precondition, already_exists, is_ok,
}
use bigtable_emulator.StdMap.{find, upper_bound, AllAfter, IsSorted}
use bigtable_emulator.StdMap.Lookup.{same, find-put, find-erase}
use bigtable_emulator.StdMap.Sorted.{AllAfter-weaken}
use bigtable_emulator.GcRule.{Protobuf}
use bigtable_emulator.Table.Drop.{starts_with}
use bigtable_emulator.Table.Drop.Prefix.{starts_with-between}
use bigtable_emulator.Table.Schema.{
  TableSchema, TableState, construct, construct_families, check_schema, with_granularity,
  store_schema,
}
use bigtable_emulator.Cluster.{
  Cluster, name_only, named, new_table, create_table, slash_tables_slash, list_while, list_tables,
  delete_table, find_table, apply_view, view_schema,
}

-- A table that is constructed stores its schema once, where there is a storage.
stored-construct :
    (pb : Protobuf) (has_storage : Bool) (schema : TableSchema)
    → (construct pb has_storage schema new_table).1 ≡ ok tt
    → (construct pb has_storage schema new_table).0.stored_schemas
      ≡ store_schema has_storage (construct pb has_storage schema new_table).0.schema []
unfolding construct
stored-construct pb has_storage schema h =
    elim (StatusOr-cases (check_schema (with_granularity schema))) [
      | inr (e, failed) ↦ absurd (ground (arith, failed, h))
      | inl (u, fine) ↦
          elim (StatusOr-cases
            (construct_families pb schema.name (with_granularity schema).column_families
              ([], [])).1) [
                | inr (e, failed) ↦ absurd (ground (arith, fine, failed, h))
                | inl (v, built) ↦ ground (arith, fine, built)
              ]
    ]

-- `CreateTable` returns a schema only where the cluster has no table of the name. Then that name
-- finds the table that was constructed, and every other name finds what it did.
pub find_table-create_table :
    (pb : Protobuf) (has_storage : Bool) (name : Bytes) (schema : TableSchema) (cluster : Cluster)
    (shown : TableSchema) (f : Bytes)
    → (create_table pb has_storage name schema cluster).1 ≡ ok shown
    → (find_table name cluster ≡ err not_found)
      × (find_table f (create_table pb has_storage name schema cluster).0 ≡ (
          if same f name
          then ok (construct pb has_storage (record schema { name = name }) new_table).0
          else find_table f cluster))
unfolding create_table find_table
find_table-create_table pb has_storage name schema cluster shown f h =
    elim (StatusOr-cases (construct pb has_storage (record schema { name = name }) new_table).1) [
      | inr (e, failed) ↦ absurd (ground (arith, failed, h))
      | inl (u, fine) ↦ elim (Option-cases (find name cluster.table_by_name)) [
        | inr (old, found) ↦ absurd (ground (arith, fine, found, h))
        | inl missing ↦ (
          ground (arith, missing),
          ground (
            arith,
            fine,
            missing,
            find-put f name (construct pb has_storage (record schema { name = name }) new_table).0
                cluster.table_by_name,
          ),
        )
      ]
    ]

-- An error from `CreateTable` leaves the tables of the cluster as they were.
pub create_table-failed :
    (pb : Protobuf) (has_storage : Bool) (name : Bytes) (schema : TableSchema) (cluster : Cluster)
    (code : StatusCode)
    → (create_table pb has_storage name schema cluster).1 ≡ err code
    → (create_table pb has_storage name schema cluster).0.table_by_name ≡ cluster.table_by_name
unfolding create_table
create_table-failed pb has_storage name schema cluster code h =
    elim (StatusOr-cases (construct pb has_storage (record schema { name = name }) new_table).1) [
      | inr (e, failed) ↦ ground (arith, failed)
      | inl (u, fine) ↦ elim (Option-cases (find name cluster.table_by_name)) [
        | inr (old, found) ↦ ground (arith, fine, found)
        | inl missing ↦ absurd (ground (arith, fine, missing, h))
      ]
    ]

-- Where there is a storage, a cluster has a table of the name and the schema of the request can be
-- constructed, `CreateTable` fails with `already_exists`, and yet the schema of the request, as it
-- was constructed, is stored.
pub create_table-stored :
    (pb : Protobuf) (name : Bytes) (schema : TableSchema) (cluster : Cluster) (old : TableState)
    → find_table name cluster ≡ ok old
    → (construct pb true (record schema { name = name }) new_table).1 ≡ ok tt
    → ((create_table pb true name schema cluster).1 ≡ err already_exists)
      × ((create_table pb true name schema cluster).0.stored_schemas
          ≡ cluster.stored_schemas
            ++ ((construct pb true (record schema { name = name }) new_table).0.schema ∷ []))
unfolding create_table find_table store_schema
create_table-stored pb name schema cluster old h fine =
    elim (Option-cases (find name cluster.table_by_name)) [
      | inl missing ↦ absurd (ground (arith, missing, h))
      | inr (there, found) ↦ (
        ground (arith, fine, found),
        ground (arith, fine, found, stored-construct pb true (record schema { name = name }) fine),
      )
    ]

-- In a cluster whose tables are sorted, `DeleteTable` fails with `not_found` where there is no
-- table of the name, and with `failed_precondition` where it is protected, and else returns no
-- error. Then that name finds no table, and every other name finds what it did; after an error
-- all do.
pub find_table-delete_table :
    (has_storage : Bool) (name : Bytes) (cluster : Cluster) (f : Bytes)
    → IsSorted cluster.table_by_name
    → ((delete_table has_storage name cluster).1 ≡ (
        find_table name cluster >>= λ table.
        if table.schema.deletion_protection then err failed_precondition else ok tt))
      × (find_table f (delete_table has_storage name cluster).0 ≡ (
          if same f name && is_ok (delete_table has_storage name cluster).1
          then err not_found
          else find_table f cluster))
unfolding delete_table find_table
find_table-delete_table has_storage name cluster f s =
    elim (Option-cases (find name cluster.table_by_name)) [
      | inl missing ↦ (ground (arith, missing), ground (arith, missing))
      | inr (table, found) ↦ elim (Bool-cases table.schema.deletion_protection) [
        | inl held ↦ (ground (arith, found, held), ground (arith, found, held))
        | inr free ↦ (
          ground (arith, found, free),
          ground (arith, found, free, find-erase f name cluster.table_by_name s),
        )
      ]
    ]

-- The tables of an instance, in the order of their names.
abbrev pub tables_of : Bytes → List (Bytes × TableState) → List (Bytes × TableState)
tables_of prefix tables = keep (λ e. starts_with prefix e.0 && less_bytes prefix e.0) tables

list_while-none :
    (prefix name : Bytes) (tables : List (Bytes × TableState))
    → less_bytes prefix name ≡ true
    → starts_with prefix name ≡ false
    → AllAfter name tables
    → tables_of prefix tables ≡ []
list_while-none prefix name [] h k a = refl
list_while-none prefix name ((next, table) ∷ tables) h k a = ground (
  arith,
  list_while-none prefix name tables h k a.1,
  starts_with-between prefix name next,
  bytes_order.less_trans prefix name prefix h,
  bytes_order.less_irrefl prefix,
  a.0,
)

abbrev named_of : Bytes × TableState → TableSchema
named_of e = named e.0

list_while_lem :
    (prefix : Bytes) (tables : List (Bytes × TableState))
    → AllAfter prefix tables
    → IsSorted tables
    → list_while prefix name_only tables ≡ ok (map named_of (tables_of prefix tables))
unfolding list_while apply_view view_schema
list_while_lem prefix [] a s = refl
list_while_lem prefix ((name, table) ∷ tables) a s =
    ground (
      arith,
      list_while_lem prefix tables a.1 s.1,
      list_while-none prefix name tables a.0,
      a.0,
      s.0,
    )

list-upper_bound :
    (prefix : Bytes) (tables : List (Bytes × TableState))
    → IsSorted tables
    → list_while prefix name_only (upper_bound prefix tables)
      ≡ ok (map named_of (tables_of prefix tables))
unfolding upper_bound
list-upper_bound prefix [] s = list_while_lem prefix [] tt tt
list-upper_bound prefix ((name, table) ∷ tables) s = elim (Bool-cases (less_bytes prefix name)) [
  | inl later ↦
      let at_once : upper_bound prefix ((name, table) ∷ tables) ≡ (name, table) ∷ tables =
        ground (arith, later) in
      ap (λ x. list_while prefix name_only x) at_once
      ∙ list_while_lem prefix ((name, table) ∷ tables)
          (later, AllAfter-weaken prefix name tables later s.0) s
  | inr before ↦ ground (arith, before, list-upper_bound prefix tables s.1)
]

-- In a cluster whose tables are sorted, `ListTables` with the view of names returns the names
-- that start with the prefix of the instance and are longer, each once and in their order.
pub list_tables_lem :
    (instance_name : Bytes) (cluster : Cluster)
    → IsSorted cluster.table_by_name
    → list_tables instance_name name_only cluster
      ≡ ok (map named_of (tables_of (instance_name ++ slash_tables_slash) cluster.table_by_name))
unfolding list_tables
list_tables_lem instance_name cluster s =
    list-upper_bound (instance_name ++ slash_tables_slash) cluster.table_by_name s
