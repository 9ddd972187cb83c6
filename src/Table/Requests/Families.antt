-- ===== src/Table/Requests/Families.antt =====
-- `ModifyColumnFamilies` keeps the column families well-formed.
use bigtable_emulator.Common.{
  Bool, List, [], ◌∷◌, Option, none, some, ◌≡◌, arith, subst, sym, Option-cases, Bool-cases, inl,
  inr,
}
use bigtable_emulator.Common.Bytes.{Bytes, bytes_order}
use bigtable_emulator.Status.{StatusOr-cases, ok}
use bigtable_emulator.StdMap.{find, put}
use bigtable_emulator.StdMap.Values.{AllValues, AllValues-find, AllValues-put, AllValues-erase}
use bigtable_emulator.GcRule.{GcRule, Protobuf, check_gc_rule_is_valid}
use bigtable_emulator.ColumnFamily
use bigtable_emulator.ColumnFamily.{
  ColumnFamily, set_gc_rule, construct_column_family, set_value_type, set_valid_gc_rule,
}
use bigtable_emulator.ColumnFamily.Validity.{IsValid}
use bigtable_emulator.ColumnFamily.History.{run, run-construct_column_family}
use bigtable_emulator.External.{BigEndian}
use bigtable_emulator.RowTransaction.{Families, change_family}
use bigtable_emulator.Table.Schema.{Definition, Mask, FieldMaskUtil}
use bigtable_emulator.Table.Modify.{
  Modification, Change, drop, update, create, change_not_set, Object, shared, created, Progress,
  set_rule, drop_family, update_rule, update_family, create_family, construct_defined,
  effective_mask, modify, modify_all,
}

-- A new column family is valid and has no cell.
pub record IsNew (pb : Protobuf) (cf : ColumnFamily) : Type 0 where
  pub valid : IsValid pb cf
  pub no_cells : cf.rows ≡ []

abbrev pub IsReady : Protobuf → Object → Type 0
IsReady pb shared = Unit {0}
IsReady pb (created cf) = IsNew pb cf

pub record Ready (pb : Protobuf) (p : Progress) : Type 0 where
  pub families_valid : AllValues (IsValid pb) p.families
  pub running_ready : AllValues (IsReady pb) p.running

some-injective {ℓ} : {A : Type ℓ} (a b : A) → some a ≡ some b → a ≡ b
some-injective a b h = ground (arith, h)

set_gc_rule-IsValid :
    (pb : Protobuf) (rule : GcRule) (cf : ColumnFamily)
    → check_gc_rule_is_valid pb rule ≡ ok tt
    → IsValid pb cf
    → IsValid pb (set_gc_rule rule cf)
unfolding set_gc_rule
set_gc_rule-IsValid pb rule cf fine v = record {
  sorted = v.sorted;
  filled = v.filled;
  checked = λ r e. subst (λ x. check_gc_rule_is_valid pb x ≡ ok tt) (some-injective rule r e) fine;
}

shared-IsValid :
    (pb : Protobuf) (id : Bytes) (rule : GcRule) (families : Families)
    → check_gc_rule_is_valid pb rule ≡ ok tt
    → AllValues (IsValid pb) families
    → AllValues (IsValid pb) (change_family id (set_gc_rule rule) families)
shared-IsValid pb id rule families fine h = elim (Option-cases (find id families)) [
  | inl missing ↦
      let e : change_family id (set_gc_rule rule) families ≡ families = ground (arith, missing) in
      subst (λ x. AllValues (IsValid pb) x) (sym e) h
  | inr (cf, found) ↦
      let e : change_family id (set_gc_rule rule) families ≡ put id (set_gc_rule rule cf) families =
        ground (arith, found) in
      subst (λ x. AllValues (IsValid pb) x) (sym e)
        (AllValues-put (IsValid pb) id (set_gc_rule rule cf) families
          (set_gc_rule-IsValid pb rule cf fine (AllValues-find (IsValid pb) id cf families h found))
          h)
]

set_rule-Ready :
    (pb : Protobuf) (id : Bytes) (rule : GcRule) (object : Object) (p : Progress)
    → check_gc_rule_is_valid pb rule ≡ ok tt
    → IsReady pb object
    → Ready pb p
    → Ready pb (set_rule id rule object p)
unfolding set_rule set_gc_rule
set_rule-Ready pb id rule (created cf) p fine o h = record {
  families_valid = h.families_valid;
  running_ready =
      AllValues-put (IsReady pb) id (created (set_gc_rule rule cf)) p.running
        (record { valid = set_gc_rule-IsValid pb rule cf fine o.valid; no_cells = o.no_cells })
        h.running_ready;
}
set_rule-Ready pb id rule shared p fine o h = record {
  families_valid = shared-IsValid pb id rule p.families fine h.families_valid;
  running_ready = h.running_ready;
}

set_value_type-rows :
    (t : Option ColumnFamily.ValueType) (cf : ColumnFamily)
    → set_value_type t ColumnFamily.empty ≡ ok cf
    → cf.rows ≡ []
unfolding set_value_type
set_value_type-rows none cf h = ground (arith, h)
set_value_type-rows (some (ColumnFamily.aggregate ColumnFamily.sum)) cf h = ground (arith, h)
set_value_type-rows (some (ColumnFamily.aggregate ColumnFamily.min)) cf h = ground (arith, h)
set_value_type-rows (some (ColumnFamily.aggregate ColumnFamily.max)) cf h = ground (arith, h)
set_value_type-rows (some (ColumnFamily.aggregate ColumnFamily.other_aggregator)) cf h =
    absurd (ground (arith, h))
set_value_type-rows (some ColumnFamily.other_type) cf h = absurd (ground (arith, h))

pub construct_column_family-rows :
    (pb : Protobuf) (t : Option ColumnFamily.ValueType) (rule : Option GcRule) (cf : ColumnFamily)
    → construct_column_family pb t rule ≡ ok cf
    → cf.rows ≡ []
unfolding construct_column_family set_valid_gc_rule
construct_column_family-rows pb t none cf h =
    elim (StatusOr-cases (set_value_type t ColumnFamily.empty)) [
      | inr (e, failed) ↦ absurd (ground (arith, h, failed))
      | inl (typed, fine) ↦ ground (arith, h, fine, set_value_type-rows t typed fine)
    ]
construct_column_family-rows pb t (some rule) cf h =
    elim (StatusOr-cases (set_value_type t ColumnFamily.empty)) [
      | inr (e, failed) ↦ absurd (ground (arith, h, failed))
      | inl (typed, fine) ↦ elim (StatusOr-cases (check_gc_rule_is_valid pb rule)) [
        | inr (e, failed) ↦ absurd (ground (arith, h, fine, failed))
        | inl (u, checked) ↦ ground (arith, h, fine, checked, set_value_type-rows t typed fine)
      ]
    ]

module _ (pb : Protobuf) (be : BigEndian) (masks : FieldMaskUtil) (name : Bytes)
    (deletion_protected has_storage : Bool) where
  construct_defined-IsNew :
      (def : Definition) (cf : ColumnFamily)
      → construct_defined pb masks name deletion_protected has_storage def ≡ ok cf
      → IsNew pb cf
  unfolding construct_defined run
  construct_defined-IsNew def cf h =
      let built : construct_column_family pb def.value_type def.gc_rule ≡ ok cf =
        elim (Option-cases def.gc_rule) [
          | inl missing ↦ ground (arith, h, missing)
          | inr (rule, found) ↦ elim (StatusOr-cases (check_gc_rule_is_valid pb rule)) [
            | inr (e, failed) ↦ absurd (ground (arith, h, found, failed))
            | inl (u, fine) ↦ ground (arith, h, found, fine)
          ]
        ] in
      record {
        valid = run-construct_column_family pb be def.value_type def.gc_rule cf [] tt built;
        no_cells = construct_column_family-rows pb def.value_type def.gc_rule cf built;
      }

  drop_family-Ready :
      (id : Bytes) (p : Progress)
      → Ready pb p
      → Ready pb (drop_family pb masks name deletion_protected has_storage id p).0
  unfolding drop_family
  drop_family-Ready id p h = elim (Bool-cases deletion_protected) [
    | inl held ↦ rw held h
    | inr free ↦ elim (Option-cases (find id p.running)) [
      | inl missing ↦ rw (free, missing, drop_family) h
      | inr (object, found) ↦ elim (Option-cases (find id p.definitions)) [
        | inl missing ↦
            rw (free, found, missing, drop_family)
              (record {
                families_valid = h.families_valid;
                running_ready = AllValues-erase (IsReady pb) id p.running h.running_ready;
              })
        | inr (def, found') ↦
            rw (free, found, found', drop_family)
              (record {
                families_valid = h.families_valid;
                running_ready = AllValues-erase (IsReady pb) id p.running h.running_ready;
              })
      ]
    ]
  ]

  update_rule-Ready :
      (id : Bytes) (rule : Option GcRule) (p : Progress)
      → Ready pb p
      → Ready pb (update_rule pb masks name deletion_protected has_storage id rule p).0
  unfolding update_rule
  update_rule-Ready id none p h = h
  update_rule-Ready id (some rule) p h = elim (StatusOr-cases (check_gc_rule_is_valid pb rule)) [
    | inr (e, failed) ↦ rw (failed, update_rule) h
    | inl (u, fine) ↦ elim (Option-cases (find id p.running)) [
      | inl missing ↦ rw (fine, missing, update_rule) h
      | inr (object, found) ↦
          rw (fine, found, update_rule)
            (set_rule-Ready pb id rule object p fine
              (AllValues-find (IsReady pb) id object p.running h.running_ready found) h)
    ]
  ]

  update_family-Ready :
      (id : Bytes) (def : Definition) (mask : Option Mask) (p : Progress)
      → Ready pb p
      → Ready pb (update_family pb masks name deletion_protected has_storage id def mask p).0
  unfolding update_family
  update_family-Ready id def mask p h = elim (Option-cases (find id p.definitions)) [
    | inl missing ↦ rw (missing, update_family) h
    | inr (old, found) ↦ elim (StatusOr-cases (effective_mask masks mask)) [
      | inr (e, failed) ↦ rw (found, failed, update_family) h
      | inl (m, fine) ↦
          rw (found, fine, update_family)
            (update_rule-Ready id def.gc_rule
              (record p {
                definitions = put id (masks.merge_column_family def m old) p.definitions;
              })
              (record { families_valid = h.families_valid; running_ready = h.running_ready }))
    ]
  ]

  create_family-Ready :
      (id : Bytes) (def : Definition) (p : Progress)
      → Ready pb p
      → Ready pb (create_family pb masks name deletion_protected has_storage id def p).0
  unfolding create_family
  create_family-Ready id def p h =
      elim (StatusOr-cases (construct_defined pb masks name deletion_protected has_storage def)) [
        | inr (e, failed) ↦ rw (failed, create_family) h
        | inl (cf, fine) ↦
            let ready =
              AllValues-put (IsReady pb) id (created cf) p.running
                (construct_defined-IsNew def cf fine) h.running_ready in
            elim (Option-cases (find id p.running)) [
              | inr (object, found) ↦ rw (fine, found, create_family) h
              | inl missing ↦ elim (Option-cases (find id p.definitions)) [
                | inr (old, found) ↦
                    rw (fine, missing, found, create_family)
                      (record { families_valid = h.families_valid; running_ready = ready })
                | inl missing' ↦
                    rw (fine, missing, missing', create_family)
                      (record { families_valid = h.families_valid; running_ready = ready })
              ]
            ]
      ]

  modify-Ready :
      (id : Bytes) (change : Change) (p : Progress)
      → Ready pb p
      → Ready pb
          (modify pb masks name deletion_protected has_storage
            (record { id = id; change = change })
            p).0
  unfolding modify
  modify-Ready id drop p h = drop_family-Ready id p h
  modify-Ready id (update def mask) p h = update_family-Ready id def mask p h
  modify-Ready id (create def) p h = create_family-Ready id def p h
  modify-Ready id change_not_set p h = h

  pub modify_all-Ready :
      (ms : List Modification) (p : Progress)
      → Ready pb p
      → Ready pb (modify_all pb masks name deletion_protected has_storage ms p).0
  unfolding modify_all
  modify_all-Ready [] p h = h
  modify_all-Ready (m ∷ ms) p h =
      let once = modify-Ready m.id m.change p h in
      elim (StatusOr-cases (modify pb masks name deletion_protected has_storage m p).1) [
        | inr (e, failed) ↦ rw (failed, modify_all) once
        | inl (u, fine) ↦
            rw (fine, modify_all)
              (modify_all-Ready ms (modify pb masks name deletion_protected has_storage m p).0 once)
      ]
