-- ===== src/Table/Schema.antt =====
-- The schema of a table, and `Table::Construct` and `Table::Update` of table.cc. A map of protobuf is
-- kept by its keys; the column families that `Construct` walks come in any order.
pub mod Build
use bigtable_emulator.Common.{
  ◌≡◌, ℕ, Bool, true, false, List, [], ◌∷◌, ◌++◌, Option, none, some, ltb, if◌then◌else◌, is_empty,
  length,
}
use bigtable_emulator.Common.Bytes.{Bytes, bytes_order}
use bigtable_emulator.Status.{Status, StatusOr, ok, err, ◌>>=◌, invalid_argument, unimplemented}
use bigtable_emulator.StdMap
use bigtable_emulator.GcRule.{GcRule, Protobuf}
use bigtable_emulator.ColumnFamily.{ColumnFamily, ValueType, construct_column_family}
use bigtable_emulator.RowTransaction.{Families, slash}
use bigtable_emulator.Table.Drop.{starts_with}

-- `google.bigtable.admin.v2.ColumnFamily`.
pub record Definition : Type 0 where
  pub gc_rule : Option GcRule
  pub value_type : Option ValueType

abbrev pub Definitions : Type 0
Definitions = List (Bytes × Definition)

pub data Granularity : Type 0 where
  timestamp_granularity_unspecified millis : Granularity

-- `google.bigtable.admin.v2.Table`: whether a message is present, where the code asks no more.
pub record TableSchema : Type 0 where
  pub name : Bytes
  pub granularity : Granularity
  pub cluster_states_size : ℕ
  pub has_restore_info : Bool
  pub has_change_stream_config : Bool
  pub has_automated_backup_policy : Bool
  pub deletion_protection : Bool
  pub column_families : Definitions

-- `google.protobuf.FieldMask`, its paths.
abbrev pub Mask : Type 0
Mask = List Bytes

-- google/protobuf/util/field_mask_util.h at the two messages. `gc_rule` is a field of a column
-- family, so its path alone is a valid mask.
pub record FieldMaskUtil : Type 0 where
  pub is_valid_for_column_family : Mask → Bool
  pub is_path_in_field_mask : Bytes → Mask → Bool
  pub merge_column_family : Definition → Mask → Definition → Definition
  pub is_valid_for_table : Mask → Bool
  pub subtract : Mask → Mask → Mask
  pub merge_table : TableSchema → Mask → TableSchema → TableSchema
  pub gc_rule_path : Bytes
  pub value_type_path : Bytes
  pub allowed_for_table : Mask
  pub gc_rule_is_valid : is_valid_for_column_family (gc_rule_path ∷ []) ≡ true

-- The members of `Table`, and the schemas that were stored.
pub record TableState : Type 0 where
  pub name : Bytes
  pub schema : TableSchema
  pub families : Families
  pub stored_schemas : List TableSchema

abbrev pub with_granularity : TableSchema → TableSchema
with_granularity schema = elim schema.granularity [
  | timestamp_granularity_unspecified ↦ record schema { granularity = millis }
  | millis ↦ schema
]

-- `store_schema`, which does nothing without a storage.
unfoldable pub store_schema : Bool → TableSchema → List TableSchema → List TableSchema
store_schema true schema stored = stored ++ (schema ∷ [])
store_schema false schema stored = stored

-- What `Construct` refuses of a schema.
unfoldable pub check_schema : TableSchema → Status
check_schema schema =
    if ltb 0 schema.cluster_states_size
    then err invalid_argument
    else if schema.has_restore_info
    then err invalid_argument
    else if schema.has_change_stream_config
    then err unimplemented
    else if schema.has_automated_backup_policy
    then err unimplemented
    else ok tt

-- `substr` past the first bytes.
abbrev pub drop_bytes : Bytes → Bytes → Bytes
drop_bytes [] id = id
drop_bytes (x ∷ prefix) [] = []
drop_bytes (x ∷ prefix) (y ∷ id) = drop_bytes prefix id

-- The name of a column family without that of its table.
abbrev pub column_family_id : Bytes → Bytes → Bytes
column_family_id name id =
    if starts_with (name ++ slash) id then drop_bytes (name ++ slash) id else id

-- The loop of `Construct`: the normalized definitions and the column families.
unfoldable pub construct_families :
    Protobuf → Bytes → Definitions → Definitions × Families → (Definitions × Families) × Status
construct_families pb name [] built = (built, ok tt)
construct_families pb name ((id, def) ∷ defs) built =
    elim (construct_column_family pb def.value_type def.gc_rule) [
      | err e ↦ (built, err e)
      | ok cf ↦ construct_families pb name defs (
        StdMap.put (column_family_id name id) def built.0,
        StdMap.put (column_family_id name id) cf built.1,
      )
    ]

-- A table that is constructed for the first time has no column families.
unfoldable pub construct : Protobuf → Bool → TableSchema → TableState → TableState × Status
unfolding check_schema construct_families store_schema
construct pb has_storage schema table =
    let schema' = with_granularity schema in
    let named = record table { name = schema.name; schema = schema' } in
    elim (check_schema schema') [
      | err e ↦ (named, err e)
      | ok u ↦
          let ((defs, families), status) =
            construct_families pb schema.name schema'.column_families ([], table.families) in
          elim status [
            | err e ↦ (record named { families = families }, err e)
            | ok done ↦
                let normalized = record schema' { column_families = defs } in
                (
                  record named {
                    schema = normalized;
                    families = families;
                    stored_schemas = store_schema has_storage normalized table.stored_schemas;
                  },
                  ok tt,
                )
          ]
    ]

unfoldable pub update : FieldMaskUtil → Bool → TableSchema → Mask → TableState → TableState × Status
unfolding store_schema
update masks has_storage new_schema to_update table =
    if masks.is_valid_for_table to_update
    then (if is_empty (masks.subtract to_update masks.allowed_for_table)
        then (let merged = masks.merge_table new_schema to_update table.schema in
            (
              record table {
                schema = merged;
                stored_schemas = store_schema has_storage merged table.stored_schemas;
              },
              ok tt,
            ))
        else (table, err unimplemented))
    else (table, err invalid_argument)
