-- ===== src/Table/Modify.antt =====
-- `Table::ModifyColumnFamilies` of table.cc. The copy of the map of column families shares its objects
-- with the table, so `SetGCRule` on one that was there before changes the table's at once.
pub mod Alignment
pub mod Steps
pub mod Failure
pub mod Errors
pub mod Names
use bigtable_emulator.Common.{
  Bool, true, false, List, [], ◌∷◌, ◌++◌, Option, none, some, if◌then◌else◌, map, ◌≡◌,
}
use bigtable_emulator.Common.Bytes.{Bytes, bytes_order}
use bigtable_emulator.Status.{
  Status, StatusOr, ok, err, ◌>>=◌, ◌>>◌, invalid_argument, failed_precondition, not_found,
  already_exists, unimplemented, internal,
}
use bigtable_emulator.StdMap
use bigtable_emulator.GcRule.{GcRule, Protobuf, check_gc_rule_is_valid}
use bigtable_emulator.ColumnFamily.{ColumnFamily, construct_column_family, set_gc_rule}
use bigtable_emulator.RowTransaction.{Families, slash, change_family}
use bigtable_emulator.Table.Schema.{
  Definition, Definitions, Mask, FieldMaskUtil, TableSchema, TableState, store_schema,
}

-- The oneof `mod` of `ModifyColumnFamiliesRequest.Modification`, each with the `id`.
pub data Change : Type 0 where
  drop : Change
  update : Definition → Option Mask → Change
  create : Definition → Change
  change_not_set : Change

pub record Modification : Type 0 where
  pub id : Bytes
  pub change : Change

-- A column family of the new map: the table's own under the same name, or a new one.
pub data Object : Type 0 where
  shared : Object
  created : ColumnFamily → Object

-- The two copies, the table's own column families, and the families deleted from the storage.
pub record Progress : Type 0 where
  pub definitions : Definitions
  pub running : List (Bytes × Object)
  pub families : Families
  pub deleted : List Bytes

abbrev pub is_present {ℓ} : {A : Type ℓ} → Option A → Bool
is_present none = false
is_present (some a) = true

-- The mask of an update, and what is wrong with it.
unfoldable pub effective_mask : FieldMaskUtil → Option Mask → StatusOr Mask
effective_mask masks (some mask) =
    if masks.is_valid_for_column_family mask
    then (if masks.is_path_in_field_mask masks.value_type_path mask
        then err invalid_argument
        else ok mask)
    else err invalid_argument
effective_mask masks none =
    if masks.is_valid_for_column_family (masks.gc_rule_path ∷ [])
    then ok (masks.gc_rule_path ∷ [])
    else err internal

-- `it->second->SetGCRule(gc_rule)`.
unfoldable pub set_rule : Bytes → GcRule → Object → Progress → Progress
unfolding set_gc_rule
set_rule id rule shared p = record p { families = change_family id (set_gc_rule rule) p.families }
set_rule id rule (created cf) p = record p {
  running = StdMap.put id (created (set_gc_rule rule cf)) p.running;
}

module _ (pb : Protobuf) (masks : FieldMaskUtil) (name : Bytes)
    (deletion_protected has_storage : Bool) where
  unfoldable pub drop_family : Bytes → Progress → Progress × Status
  drop_family id p =
      if deletion_protected then (p, err failed_precondition) else elim (StdMap.find id p.running) [
        | none ↦ (p, err not_found)
        | some object ↦
            let erased = record p {
              running = StdMap.erase id p.running;
              deleted =
                  if has_storage then p.deleted ++ ((name ++ (slash ++ id)) ∷ []) else p.deleted;
            } in
            elim (StdMap.find id p.definitions) [
              | none ↦ (erased, err internal)
              | some def ↦ (record erased { definitions = StdMap.erase id p.definitions }, ok tt)
            ]
      ]

  -- The end of an update: the rule of the running column family.
  unfoldable pub update_rule : Bytes → Option GcRule → Progress → Progress × Status
  unfolding set_rule
  update_rule id none p = (p, ok tt)
  update_rule id (some rule) p = elim (check_gc_rule_is_valid pb rule) [
    | err e ↦ (p, err e)
    | ok u ↦ elim (StdMap.find id p.running) [
      | none ↦ (p, err invalid_argument)
      | some object ↦ (set_rule id rule object p, ok tt)
    ]
  ]

  unfoldable pub update_family : Bytes → Definition → Option Mask → Progress → Progress × Status
  unfolding effective_mask update_rule
  update_family id def update_mask p = elim (StdMap.find id p.definitions) [
    | none ↦ (p, err not_found)
    | some old ↦ elim (effective_mask masks update_mask) [
      | err e ↦ (p, err e)
      | ok mask ↦ update_rule id def.gc_rule (record p {
        definitions = StdMap.put id (masks.merge_column_family def mask old) p.definitions;
      })
    ]
  ]

  unfoldable pub construct_defined : Definition → StatusOr ColumnFamily
  construct_defined def =
      let constructed = construct_column_family pb def.value_type def.gc_rule in
      elim def.gc_rule [
        | none ↦ constructed
        | some rule ↦ check_gc_rule_is_valid pb rule >> constructed
      ]

  unfoldable pub create_family : Bytes → Definition → Progress → Progress × Status
  unfolding construct_defined
  create_family id def p = elim (construct_defined def) [
    | err e ↦ (p, err e)
    | ok cf ↦ elim (StdMap.find id p.running) [
      | some object ↦ (p, err already_exists)
      | none ↦
          let emplaced = record p { running = StdMap.put id (created cf) p.running } in
          elim (StdMap.find id p.definitions) [
            | some old ↦ (emplaced, err internal)
            | none ↦ (record emplaced { definitions = StdMap.put id def p.definitions }, ok tt)
          ]
    ]
  ]

  unfoldable pub modify : Modification → Progress → Progress × Status
  unfolding drop_family update_family create_family
  modify m p = elim m.change [
    | drop ↦ drop_family m.id p
    | update def update_mask ↦ update_family m.id def update_mask p
    | create def ↦ create_family m.id def p
    | change_not_set ↦ (p, err unimplemented)
  ]

  -- The loop over the modifications, up to the first that fails.
  unfoldable pub modify_all : List Modification → Progress → Progress × Status
  unfolding modify
  modify_all [] p = (p, ok tt)
  modify_all (m ∷ ms) p =
      let (p', status) = modify m p in
      let rest = modify_all ms p' in elim status [ err e ↦ (p', err e) | ok u ↦ rest ]

-- The column family that an object is.
abbrev pub resolve : Families → Bytes × Object → List (Bytes × ColumnFamily)
resolve families (id, created cf) = (id, cf) ∷ []
resolve families (id, shared) = elim (StdMap.find id families) [
  | none ↦ []
  | some cf ↦ (id, cf) ∷ []
]

abbrev pub resolve_all : Families → List (Bytes × Object) → Families
resolve_all families [] = []
resolve_all families (entry ∷ running) = resolve families entry ++ resolve_all families running

abbrev pub share : Bytes × ColumnFamily → Bytes × Object
share entry = (entry.0, shared)

abbrev pub start : TableState → Progress
start table = record {
  definitions = table.schema.column_families;
  running = map share table.families;
  families = table.families;
  deleted = [];
}

-- The table and the families deleted from the storage.
unfoldable pub modify_column_families :
    Protobuf
    → FieldMaskUtil
    → Bool
    → List Modification
    → TableState
    → (TableState × List Bytes) × StatusOr TableSchema
unfolding modify_all store_schema
modify_column_families pb masks has_storage modifications table =
    let (p, status) =
      modify_all pb masks table.name table.schema.deletion_protection has_storage modifications
        (start table) in
    elim status [
      | err e ↦ ((record table { families = p.families }, p.deleted), err e)
      | ok u ↦
          let new_schema = record table.schema { column_families = p.definitions } in
          (
            (
              record table {
                schema = new_schema;
                families = resolve_all p.families p.running;
                stored_schemas = store_schema has_storage new_schema table.stored_schemas;
              },
              p.deleted,
            ),
            ok new_schema,
          )
    ]
