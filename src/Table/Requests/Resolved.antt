-- ===== src/Table/Requests/Resolved.antt =====
-- The column families of the map that `ModifyColumnFamilies` builds are well-formed.
use bigtable_emulator.Common.{Bool, List, [], ◌∷◌, refl, arith, ◌∙◌, map, Option-cases, inl, inr}
use bigtable_emulator.Common.Bytes.{Bytes, bytes_order}
use bigtable_emulator.Status.{Status, StatusOr-cases}
use bigtable_emulator.StdMap.{find}
use bigtable_emulator.StdMap.Values.{AllValues, AllValues-find}
use bigtable_emulator.External.{BigEndian}
use bigtable_emulator.GcRule.{Protobuf}
use bigtable_emulator.ColumnFamily.Validity.{IsValid}
use bigtable_emulator.RowTransaction.{Families}
use bigtable_emulator.RowTransaction.Reverts.{Alike}
use bigtable_emulator.RowTransaction.Undoing.{IsRecent}
use bigtable_emulator.Table.Schema.{FieldMaskUtil, TableState}
use bigtable_emulator.Table.Modify.{
  Modification, Object, shared, created, Progress, modify_all, modify_column_families, start, share,
  resolve, resolve_all,
}
use bigtable_emulator.Table.Modify.Failure.{modify_all-Alike}
use bigtable_emulator.Table.Modify.Names.{NamesAgree, modify_column_families-NamesAgree}
use bigtable_emulator.Table.Requests.WellFormed.{IsWellFormed}
use bigtable_emulator.Table.Requests.Families.{IsReady, Ready, modify_all-Ready}

module _ (pb : Protobuf) (families : Families) where
  resolve_all-IsValid :
      (running : List (Bytes × Object))
      → AllValues (IsValid pb) families
      → AllValues (IsReady pb) running
      → AllValues (IsValid pb) (resolve_all families running)
  resolve_all-IsValid [] h o = tt
  resolve_all-IsValid ((id, created cf) ∷ running) h o =
      (o.0.valid, resolve_all-IsValid running h o.1)
  resolve_all-IsValid ((id, shared) ∷ running) h o = elim (Option-cases (find id families)) [
    | inl missing ↦ rw (missing, resolve) (resolve_all-IsValid running h o.1)
    | inr (cf, found) ↦
        rw (found, resolve)
          (AllValues-find (IsValid pb) id cf families h found, resolve_all-IsValid running h o.1)
  ]

  resolve_all-IsRecent :
      (running : List (Bytes × Object))
      → AllValues (IsReady pb) running
      → IsRecent families
      → IsRecent (resolve_all families running)
  unfolding find
  resolve_all-IsRecent [] o h f r q t early = refl
  resolve_all-IsRecent ((id, created cf) ∷ running) o h f r q t early =
      ground (arith, o.0.no_cells, resolve_all-IsRecent running o.1 h f r q t early)
  resolve_all-IsRecent ((id, shared) ∷ running) o h f r q t early =
      elim (Option-cases (find id families)) [
        | inl missing ↦ ground (arith, missing, resolve_all-IsRecent running o.1 h f r q t early)
        | inr (cf, found) ↦
            ground
              (arith, found, resolve_all-IsRecent running o.1 h f r q t early, h id r q t early)
      ]

start-Ready :
    (pb : Protobuf) (table : TableState)
    → AllValues (IsValid pb) table.families
    → Ready pb (start table)
start-Ready pb table h = record { families_valid = h; running_ready = all_shared table.families }
  where
    all_shared : (families : Families) → AllValues (IsReady pb) (map share families)
    all_shared [] = tt
    all_shared ((k, cf) ∷ families) = (tt, all_shared families)

pub modify_column_families-IsWellFormed :
    (pb : Protobuf) (be : BigEndian) (masks : FieldMaskUtil) (has_storage : Bool)
    (ms : List Modification) (table : TableState)
    → NamesAgree table
    → IsWellFormed pb table.families
    → IsWellFormed pb (modify_column_families pb masks has_storage ms table).0.0.families
unfolding modify_column_families
modify_column_families-IsWellFormed pb be masks has_storage ms table n w = record {
  sorted = (modify_column_families-NamesAgree pb masks has_storage ms table n).0.families_sorted;
  valid = elim (StatusOr-cases done.1) [
    | inl (u, fine) ↦
        rw (fine, modify_column_families)
          (resolve_all-IsValid pb done.0.families done.0.running ready.families_valid
            ready.running_ready)
    | inr (e, bad) ↦ rw (bad, modify_column_families) ready.families_valid
  ];
  recent = elim (StatusOr-cases done.1) [
    | inl (u, fine) ↦
        rw (fine, modify_column_families)
          (resolve_all-IsRecent pb done.0.families done.0.running ready.running_ready recent)
    | inr (e, bad) ↦ rw (bad, modify_column_families) recent
  ];
}
  where
    done : Progress × Status
    done =
        modify_all pb masks table.name table.schema.deletion_protection has_storage ms (start table)

    ready : Ready pb done.0
    ready =
        modify_all-Ready pb be masks table.name table.schema.deletion_protection has_storage ms
          (start table) (start-Ready pb table w.valid)

    alike : Alike done.0.families table.families
    alike =
        modify_all-Alike pb masks table.name table.schema.deletion_protection has_storage ms
          (start table)

    recent : IsRecent done.0.families
    recent f r q t early = alike.reads f r q t ∙ w.recent f r q t early
