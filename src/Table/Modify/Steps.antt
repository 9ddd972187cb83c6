-- ===== src/Table/Modify/Steps.antt =====
-- Each step of `ModifyColumnFamilies` keeps the names the same, and gives no internal error.
use bigtable_emulator.Common.{
  Bool, List, [], ◌∷◌, Option, none, some, ◌≢◌, arith, Option-cases, Bool-cases, inl, inr, ◌∙◌,
}
use bigtable_emulator.Common.Bytes.{Bytes, bytes_order}
use bigtable_emulator.Status.{StatusOr-cases, err, internal}
use bigtable_emulator.StdMap.{find, put}
use bigtable_emulator.StdMap.Lookup.{find-put, find-erase}
use bigtable_emulator.StdMap.Sorted.{put-IsSorted, erase-IsSorted}
use bigtable_emulator.GcRule.{GcRule, Protobuf, check_gc_rule_is_valid}
use bigtable_emulator.RowTransaction.Rollback.{same_key}
use bigtable_emulator.Table.Schema.{Definition, Mask, FieldMaskUtil}
use bigtable_emulator.Table.Modify.Errors.{
  check_gc_rule_is_valid_error, construct_column_family_error,
}
use bigtable_emulator.Table.Modify.{
  Modification, Change, drop, update, create, change_not_set, created, Progress, drop_family,
  update_rule, update_family, create_family, construct_defined, effective_mask, modify, modify_all,
}
use bigtable_emulator.Table.Modify.Alignment.{
  Aligned, Kept, put-is_present, erase-is_present, set_rule-Aligned,
}

module _ (pb : Protobuf) (masks : FieldMaskUtil) (name : Bytes)
    (deletion_protected has_storage : Bool) where
  drop_family-Kept :
      (id : Bytes) (p : Progress)
      → Aligned p
      → Kept (drop_family pb masks name deletion_protected has_storage id p)
  unfolding drop_family
  drop_family-Kept id p a = elim (Bool-cases deletion_protected) [
    | inl held ↦ rw held (record { aligned = a; no_internal = λ h. ground (arith, h) })
    | inr free ↦ elim (Option-cases (find id p.running)) [
      | inl missing ↦
          rw (free, missing, drop_family)
            (record { aligned = a; no_internal = λ h. ground (arith, h) })
      | inr (object, found) ↦ elim (Option-cases (find id p.definitions)) [
        | inl missing ↦ absurd (ground (arith, found, missing, a.same_names id))
        | inr (def, found') ↦
            rw (free, found, found', drop_family)
              (record {
                aligned = record {
                  families_sorted = a.families_sorted;
                  definitions_sorted = erase-IsSorted id p.definitions a.definitions_sorted;
                  running_sorted = erase-IsSorted id p.running a.running_sorted;
                  same_names = λ f. ground (
                    arith,
                    a.same_names f,
                    erase-is_present f id p.definitions a.definitions_sorted,
                    erase-is_present f id p.running a.running_sorted,
                  );
                  backed = λ f h.
                      ground (arith, h, a.backed f, find-erase f id p.running a.running_sorted);
                };
                no_internal = λ h. ground (arith, h);
              })
      ]
    ]
  ]

  effective_mask_error : (mask : Option Mask) → effective_mask masks mask ≢ err internal
  unfolding effective_mask
  effective_mask_error none h = ground (arith, h, masks.gc_rule_is_valid)
  effective_mask_error (some mask) h = ground (arith, h)

  update_rule-Kept :
      (id : Bytes) (rule : Option GcRule) (p : Progress)
      → Aligned p
      → Kept (update_rule pb masks name deletion_protected has_storage id rule p)
  unfolding update_rule
  update_rule-Kept id none p a = record { aligned = a; no_internal = λ h. ground (arith, h) }
  update_rule-Kept id (some rule) p a = elim (StatusOr-cases (check_gc_rule_is_valid pb rule)) [
    | inr (e, failed) ↦
        rw (failed, update_rule)
          (record {
            aligned = a;
            no_internal = λ h. ground (arith, h, check_gc_rule_is_valid_error pb rule e failed);
          })
    | inl (u, fine) ↦ elim (Option-cases (find id p.running)) [
      | inl missing ↦
          rw (fine, missing, update_rule)
            (record { aligned = a; no_internal = λ h. ground (arith, h) })
      | inr (object, found) ↦
          rw (fine, found, update_rule)
            (record {
              aligned = set_rule-Aligned id rule object object p found a;
              no_internal = λ h. ground (arith, h);
            })
    ]
  ]

  update_family-Kept :
      (id : Bytes) (def : Definition) (mask : Option Mask) (p : Progress)
      → Aligned p
      → Kept (update_family pb masks name deletion_protected has_storage id def mask p)
  unfolding update_family
  update_family-Kept id def mask p a = elim (Option-cases (find id p.definitions)) [
    | inl missing ↦
        rw (missing, update_family) (record { aligned = a; no_internal = λ h. ground (arith, h) })
    | inr (old, found) ↦ elim (StatusOr-cases (effective_mask masks mask)) [
      | inr (e, failed) ↦
          rw (found, failed, update_family)
            (record {
              aligned = a;
              no_internal = λ h. ground (arith, h, failed, effective_mask_error mask);
            })
      | inl (m, fine) ↦
          rw (found, fine, update_family)
            (update_rule-Kept id def.gc_rule
              (record p {
                definitions = put id (masks.merge_column_family def m old) p.definitions;
              })
              (record {
                families_sorted = a.families_sorted;
                definitions_sorted =
                    put-IsSorted id (masks.merge_column_family def m old) p.definitions
                      a.definitions_sorted;
                running_sorted = a.running_sorted;
                same_names = λ f. ground (
                  arith,
                  found,
                  a.same_names f,
                  put-is_present f id (masks.merge_column_family def m old) p.definitions,
                  same_key f id,
                );
                backed = a.backed;
              }))
    ]
  ]

  construct_defined_error :
      (def : Definition)
      → construct_defined pb masks name deletion_protected has_storage def ≢ err internal
  unfolding construct_defined
  construct_defined_error def h = elim (Option-cases def.gc_rule) [
    | inl missing ↦
        ground (arith, h, missing, construct_column_family_error pb def.value_type none internal)
    | inr (rule, found) ↦ ground (
      arith,
      h,
      found,
      check_gc_rule_is_valid_error pb rule internal,
      construct_column_family_error pb def.value_type (some rule) internal,
    )
  ]

  create_family-Kept :
      (id : Bytes) (def : Definition) (p : Progress)
      → Aligned p
      → Kept (create_family pb masks name deletion_protected has_storage id def p)
  unfolding create_family
  create_family-Kept id def p a =
      elim (StatusOr-cases (construct_defined pb masks name deletion_protected has_storage def)) [
        | inr (e, failed) ↦
            rw (failed, create_family)
              (record {
                aligned = a;
                no_internal = λ h. ground (arith, h, failed, construct_defined_error def);
              })
        | inl (cf, fine) ↦ elim (Option-cases (find id p.running)) [
          | inr (object, found) ↦
              rw (fine, found, create_family)
                (record { aligned = a; no_internal = λ h. ground (arith, h) })
          | inl missing ↦ elim (Option-cases (find id p.definitions)) [
            | inr (old, found) ↦ absurd (ground (arith, found, missing, a.same_names id))
            | inl missing' ↦
                rw (fine, missing, missing', create_family)
                  (record {
                    aligned = record {
                      families_sorted = a.families_sorted;
                      definitions_sorted = put-IsSorted id def p.definitions a.definitions_sorted;
                      running_sorted = put-IsSorted id (created cf) p.running a.running_sorted;
                      same_names = λ f. ground (
                        arith,
                        a.same_names f,
                        put-is_present f id def p.definitions,
                        put-is_present f id (created cf) p.running,
                      );
                      backed = λ f h.
                          ground (arith, h, a.backed f, find-put f id (created cf) p.running);
                    };
                    no_internal = λ h. ground (arith, h);
                  })
          ]
        ]
      ]

  modify-Kept :
      (id : Bytes) (change : Change) (p : Progress)
      → Aligned p
      → Kept (
          modify pb masks name deletion_protected has_storage
            (record { id = id; change = change })
            p)
  unfolding modify
  modify-Kept id drop p a = drop_family-Kept id p a
  modify-Kept id (update def mask) p a = update_family-Kept id def mask p a
  modify-Kept id (create def) p a = create_family-Kept id def p a
  modify-Kept id change_not_set p a = record { aligned = a; no_internal = λ h. ground (arith, h) }

  pub modify_all-Kept :
      (ms : List Modification) (p : Progress)
      → Aligned p
      → Kept (modify_all pb masks name deletion_protected has_storage ms p)
  unfolding modify_all
  modify_all-Kept [] p a = record { aligned = a; no_internal = λ h. ground (arith, h) }
  modify_all-Kept (m ∷ ms) p a =
      let once = modify-Kept m.id m.change p a in
      elim (StatusOr-cases (modify pb masks name deletion_protected has_storage m p).1) [
        | inr (e, failed) ↦
            rw (failed, modify_all)
              (record { aligned = once.aligned; no_internal = λ h. once.no_internal (failed ∙ h) })
        | inl (u, fine) ↦
            rw (fine, modify_all)
              (modify_all-Kept ms (modify pb masks name deletion_protected has_storage m p).0
                once.aligned)
      ]
