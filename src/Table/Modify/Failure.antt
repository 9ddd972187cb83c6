-- ===== src/Table/Modify/Failure.antt =====
-- A request to modify column families that fails leaves the cells in memory and the schema.
use bigtable_emulator.Common.{
  Bool, false, List, [], ◌∷◌, Option, none, some, ◌≡◌, refl, arith, if◌then◌else◌, map,
  Option-cases, inl, inr,
}
use bigtable_emulator.Common.Bytes.{Bytes, bytes_order}
use bigtable_emulator.Status.{Status, StatusOr-cases, StatusCode, ok, err, not_found}
use bigtable_emulator.StdMap.{find, put}
use bigtable_emulator.StdMap.Lookup.{find-put}
use bigtable_emulator.GcRule.{GcRule, Protobuf, check_gc_rule_is_valid}
use bigtable_emulator.ColumnFamily.{ColumnFamily, set_gc_rule}
use bigtable_emulator.RowTransaction.{Families}
use bigtable_emulator.RowTransaction.Rollback.{same_key}
use bigtable_emulator.RowTransaction.Reverts.{Alike, has_family}
use bigtable_emulator.RowTransaction.Undoing.{Alike-trans}
use bigtable_emulator.Table.Schema.{Definition, Mask, FieldMaskUtil, TableState}
use bigtable_emulator.Table.Modify.{
  Modification, Change, drop, update, create, change_not_set, Object, shared, created, Progress,
  set_rule, drop_family, update_rule, update_family, create_family, construct_defined,
  effective_mask, modify, modify_all, modify_column_families, start, share,
}

pub find-share :
    (id : Bytes) (families : Families)
    → find id (map share families) ≡ (if has_family id families then some shared else none)
unfolding find
find-share id [] = refl
find-share id ((k, cf) ∷ families) = ground (arith, find-share id families)

set_rule-Alike :
    (id : Bytes) (rule : GcRule) (object : Object) (p : Progress)
    → Alike (set_rule id rule object p).families p.families
unfolding set_rule set_gc_rule
set_rule-Alike id rule (created cf) p = record { has = λ f. refl; reads = λ f r q t. refl }
set_rule-Alike id rule shared p = elim (Option-cases (find id p.families)) [
  | inl missing ↦ record {
    has = λ f. ground (arith, missing);
    reads = λ f r q t. ground (arith, missing);
  }
  | inr (cf, found) ↦ record {
    has = λ f. ground (arith, found, find-put f id (set_gc_rule rule cf) p.families, same_key f id);
    reads = λ f r q t.
        ground (arith, found, find-put f id (set_gc_rule rule cf) p.families, same_key f id);
  }
]

module _ (pb : Protobuf) (masks : FieldMaskUtil) (name : Bytes)
    (deletion_protected has_storage : Bool) where
  same-Alike : (a b : Families) → a ≡ b → Alike a b
  same-Alike a b e = record { has = λ f. rw e refl; reads = λ f r q t. rw e refl }

  drop_family-Alike :
      (id : Bytes) (p : Progress)
      → Alike (drop_family pb masks name deletion_protected has_storage id p).0.families p.families
  unfolding drop_family
  drop_family-Alike id p = same-Alike _ _ (elim (Option-cases (find id p.running)) [
    | inl missing ↦ ground (arith, missing)
    | inr (object, found) ↦ elim (Option-cases (find id p.definitions)) [
      | inl missing ↦ ground (arith, found, missing)
      | inr (def, found') ↦ ground (arith, found, found')
    ]
  ])

  update_rule-Alike :
      (id : Bytes) (rule : Option GcRule) (p : Progress)
      → Alike
          (update_rule pb masks name deletion_protected has_storage id rule p).0.families
          p.families
  unfolding update_rule
  update_rule-Alike id none p = same-Alike _ _ refl
  update_rule-Alike id (some rule) p = elim (StatusOr-cases (check_gc_rule_is_valid pb rule)) [
    | inr (e, failed) ↦ same-Alike _ _ (ground (arith, failed))
    | inl (u, fine) ↦ elim (Option-cases (find id p.running)) [
      | inl missing ↦ same-Alike _ _ (ground (arith, fine, missing))
      | inr (object, found) ↦ rw (fine, found, update_rule) (set_rule-Alike id rule object p)
    ]
  ]

  update_family-Alike :
      (id : Bytes) (def : Definition) (mask : Option Mask) (p : Progress)
      → Alike
          (update_family pb masks name deletion_protected has_storage id def mask p).0.families
          p.families
  unfolding update_family
  update_family-Alike id def mask p = elim (Option-cases (find id p.definitions)) [
    | inl missing ↦ same-Alike _ _ (ground (arith, missing))
    | inr (old, found) ↦ elim (StatusOr-cases (effective_mask masks mask)) [
      | inr (e, failed) ↦ same-Alike _ _ (ground (arith, found, failed))
      | inl (m, fine) ↦
          rw (found, fine, update_family)
            (update_rule-Alike id def.gc_rule (record p {
              definitions = put id (masks.merge_column_family def m old) p.definitions;
            }))
    ]
  ]

  create_family-Alike :
      (id : Bytes) (def : Definition) (p : Progress)
      → Alike
          (create_family pb masks name deletion_protected has_storage id def p).0.families
          p.families
  unfolding create_family
  create_family-Alike id def p =
      same-Alike _ _
        (elim (StatusOr-cases
          (construct_defined pb masks name deletion_protected has_storage def)) [
            | inr (e, failed) ↦ ground (arith, failed)
            | inl (cf, fine) ↦ elim (Option-cases (find id p.running)) [
              | inr (object, found) ↦ ground (arith, fine, found)
              | inl missing ↦ elim (Option-cases (find id p.definitions)) [
                | inl missing' ↦ ground (arith, fine, missing, missing')
                | inr (def', found) ↦ ground (arith, fine, missing, found)
              ]
            ]
          ])

  modify-Alike :
      (id : Bytes) (change : Change) (p : Progress)
      → Alike
          (modify pb masks name deletion_protected has_storage
            (record { id = id; change = change })
            p).0.families
          p.families
  unfolding modify
  modify-Alike id drop p = drop_family-Alike id p
  modify-Alike id (update def mask) p = update_family-Alike id def mask p
  modify-Alike id (create def) p = create_family-Alike id def p
  modify-Alike id change_not_set p = same-Alike _ _ refl

  pub modify_all-Alike :
      (ms : List Modification) (p : Progress)
      → Alike (modify_all pb masks name deletion_protected has_storage ms p).0.families p.families
  unfolding modify_all
  modify_all-Alike [] p = same-Alike _ _ refl
  modify_all-Alike (m ∷ ms) p =
      let once = modify-Alike m.id m.change p in
      elim (StatusOr-cases (modify pb masks name deletion_protected has_storage m p).1) [
        | inr (e, failed) ↦ rw (failed, modify_all) once
        | inl (u, fine) ↦
            let rest =
              modify_all-Alike ms (modify pb masks name deletion_protected has_storage m p).0 in
            rw (fine, modify_all)
              (Alike-trans _ (modify pb masks name deletion_protected has_storage m p).0.families
                p.families rest once)
      ]

-- An error from `ModifyColumnFamilies`, whichever modification it comes from, leaves the table
-- with column families of the same names, whose cells in memory read what they did, and with its
-- schema, none being stored.
pub modify_column_families-failed :
    (pb : Protobuf) (masks : FieldMaskUtil) (has_storage : Bool) (ms : List Modification)
    (table : TableState) (code : StatusCode)
    → (modify_column_families pb masks has_storage ms table).1 ≡ err code
    → Alike (modify_column_families pb masks has_storage ms table).0.0.families table.families
      × (((modify_column_families pb masks has_storage ms table).0.0.schema ≡ table.schema)
          × ((modify_column_families pb masks has_storage ms table).0.0.stored_schemas
              ≡ table.stored_schemas))
unfolding modify_column_families
modify_column_families-failed pb masks has_storage ms table code failed =
    elim (StatusOr-cases done.1) [
      | inl (u, fine) ↦ absurd (ground (arith, fine, failed))
      | inr (e, bad) ↦ rw (bad, modify_column_families) (alike, (refl, refl))
    ]
  where
    done : Progress × Status
    done =
        modify_all pb masks table.name table.schema.deletion_protection has_storage ms (start table)

    alike : Alike done.0.families table.families
    alike =
        modify_all-Alike pb masks table.name table.schema.deletion_protection has_storage ms
          (start table)

-- Where a table is not protected and has a column family, a request that gives it a valid rule
-- and then drops one that does not exist fails with `not_found`, and yet the column family has
-- the rule.
pub modify_column_families-rule_kept :
    (pb : Protobuf) (masks : FieldMaskUtil) (has_storage : Bool) (table : TableState)
    (id missing : Bytes) (def old : Definition) (cf : ColumnFamily) (rule : GcRule)
    → table.schema.deletion_protection ≡ false
    → find id table.schema.column_families ≡ some old
    → find id table.families ≡ some cf
    → find missing table.families ≡ none
    → def.gc_rule ≡ some rule
    → check_gc_rule_is_valid pb rule ≡ ok tt
    → ((modify_column_families pb masks has_storage
          (record { id = id; change = update def none }
            ∷ record { id = missing; change = drop }
            ∷ [])
          table).1
        ≡ err not_found)
      × (find id
            (modify_column_families pb masks has_storage
              (record { id = id; change = update def none }
                ∷ record { id = missing; change = drop }
                ∷ [])
              table).0.0.families
          ≡ some (set_gc_rule rule cf))
unfolding modify_column_families modify_all modify update_family update_rule drop_family
    effective_mask set_rule
modify_column_families-rule_kept pb masks has_storage table id missing def old cf rule free e found
      absent given valid =
    (
      ground (
        arith,
        free,
        e,
        found,
        absent,
        given,
        valid,
        masks.gc_rule_is_valid,
        find-share id table.families,
        find-share missing table.families,
      ),
      ground (
        arith,
        free,
        e,
        found,
        absent,
        given,
        valid,
        masks.gc_rule_is_valid,
        find-share id table.families,
        find-share missing table.families,
        find-put id id (set_gc_rule rule cf) table.families,
        bytes_order.less_irrefl id,
      ),
    )
