-- ===== src/Table/Modify/Names.antt =====
-- A table's schema and its column families have the same names, and a request to modify them keeps it so.
use bigtable_emulator.Common.{
  Bool, true, List, [], ◌∷◌, some, ◌≡◌, ◌≢◌, refl, arith, map, inl, inr, sym, ◌∙◌,
}
use bigtable_emulator.Common.Bytes.{Bytes, bytes_order}
use bigtable_emulator.Status.{Status, StatusOr-cases, err, internal}
use bigtable_emulator.StdMap.{find, IsSorted, AllAfter}
use bigtable_emulator.StdMap.Lookup.{find_of_AllAfter, find_of_before}
use bigtable_emulator.GcRule.{Protobuf}
use bigtable_emulator.RowTransaction.{Families}
use bigtable_emulator.RowTransaction.Rollback.{same_key}
use bigtable_emulator.RowTransaction.Reverts.{has_family, Alike}
use bigtable_emulator.Table.Schema.{FieldMaskUtil, TableState}
use bigtable_emulator.Table.Modify.{
  Modification, Object, shared, created, Progress, modify_all, modify_column_families, start,
  is_present, share, resolve_all,
}
use bigtable_emulator.Table.Modify.Steps.{modify_all-Kept}
use bigtable_emulator.Table.Modify.Alignment.{Aligned, Kept}
use bigtable_emulator.Table.Modify.Failure.{find-share, modify_all-Alike}

resolve_all-AllAfter :
    (k : Bytes) (families : Families) (running : List (Bytes × Object))
    → AllAfter k running
    → AllAfter k (resolve_all families running)
resolve_all-AllAfter k families [] a = tt
resolve_all-AllAfter k families ((id, created cf) ∷ running) a =
    (a.0, resolve_all-AllAfter k families running a.1)
resolve_all-AllAfter k families ((id, shared) ∷ running) a =
    ground (arith, a.0, resolve_all-AllAfter k families running a.1)

pub find_later :
    (g id : Bytes) (o object : Object) (running : List (Bytes × Object))
    → AllAfter id running
    → find g running ≡ some object
    → find g ((id, o) ∷ running) ≡ some object
unfolding find
find_later g id o object running a h =
    ground (arith, h, same_key g id, find_of_AllAfter id running a, find_of_before g id running a)

resolve_all-IsSorted :
    (families : Families) (running : List (Bytes × Object))
    → IsSorted running
    → IsSorted (resolve_all families running)
resolve_all-IsSorted families [] s = tt
resolve_all-IsSorted families ((id, created cf) ∷ running) s =
    (resolve_all-AllAfter id families running s.0, resolve_all-IsSorted families running s.1)
resolve_all-IsSorted families ((id, shared) ∷ running) s =
    ground (
      arith,
      resolve_all-AllAfter id families running s.0,
      resolve_all-IsSorted families running s.1,
    )

-- The column families of the new map are those of its names.
has-resolve_all :
    (f : Bytes) (families : Families) (running : List (Bytes × Object))
    → IsSorted running
    → ((id : Bytes) → find id running ≡ some shared → has_family id families ≡ true)
    → has_family f (resolve_all families running) ≡ is_present (find f running)
unfolding find
has-resolve_all f families [] s backed = refl
has-resolve_all f families ((id, created cf) ∷ running) s backed =
    let rest =
      has-resolve_all f families running s.1
        (λ g h. backed g (find_later g id (created cf) shared running s.0 h)) in
    ground (arith, rest)
has-resolve_all f families ((id, shared) ∷ running) s backed =
    let rest =
      has-resolve_all f families running s.1
        (λ g h. backed g (find_later g id shared shared running s.0 h)) in
    ground (arith, rest, backed id, bytes_order.less_irrefl id)

-- What a table keeps: its schema and its column families have the same names.
pub record NamesAgree (table : TableState) : Type 0 where
  pub schema_sorted : IsSorted table.schema.column_families
  pub families_sorted : IsSorted table.families
  pub same_names :
      (id : Bytes)
      → is_present (find id table.schema.column_families) ≡ has_family id table.families

share-AllAfter :
    (k : Bytes) (families : Families) → AllAfter k families → AllAfter k (map share families)
share-AllAfter k [] a = tt
share-AllAfter k ((id, cf) ∷ families) a = (a.0, share-AllAfter k families a.1)

share-IsSorted : (families : Families) → IsSorted families → IsSorted (map share families)
share-IsSorted [] s = tt
share-IsSorted ((id, cf) ∷ families) s =
    (share-AllAfter id families s.0, share-IsSorted families s.1)

pub start-Aligned : (table : TableState) → NamesAgree table → Aligned (start table)
start-Aligned table n = record {
  definitions_sorted = n.schema_sorted;
  families_sorted = n.families_sorted;
  running_sorted = share-IsSorted table.families n.families_sorted;
  same_names = λ id. ground (arith, n.same_names id, find-share id table.families);
  backed = λ id h. ground (arith, h, find-share id table.families);
}

-- Where the schema of a table and its column families are sorted and have the same names,
-- `ModifyColumnFamilies` returns no internal error, and keeps them so, whether it fails or not.
pub modify_column_families-NamesAgree :
    (pb : Protobuf) (masks : FieldMaskUtil) (has_storage : Bool) (ms : List Modification)
    (table : TableState)
    → NamesAgree table
    → NamesAgree (modify_column_families pb masks has_storage ms table).0.0
      × ((modify_column_families pb masks has_storage ms table).1 ≢ err internal)
unfolding modify_column_families
modify_column_families-NamesAgree pb masks has_storage ms table n = elim (StatusOr-cases done.1) [
  | inl (u, fine) ↦
      rw (fine, modify_column_families)
        (
          record {
            schema_sorted = kept.aligned.definitions_sorted;
            families_sorted =
                resolve_all-IsSorted done.0.families done.0.running kept.aligned.running_sorted;
            same_names = λ id.
                kept.aligned.same_names id
                ∙ sym (
                    has-resolve_all id done.0.families done.0.running kept.aligned.running_sorted
                      kept.aligned.backed);
          },
          λ h. ground (arith, h),
        )
  | inr (e, bad) ↦
      rw (bad, modify_column_families)
        (
          record {
            schema_sorted = n.schema_sorted;
            families_sorted = kept.aligned.families_sorted;
            same_names = λ id. n.same_names id ∙ sym (alike.has id);
          },
          λ h. kept.no_internal (ground (arith, bad, h)),
        )
]
  where
    done : Progress × Status
    done =
        modify_all pb masks table.name table.schema.deletion_protection has_storage ms (start table)

    kept : Kept done
    kept =
        modify_all-Kept pb masks table.name table.schema.deletion_protection has_storage ms
          (start table) (start-Aligned table n)

    alike : Alike done.0.families table.families
    alike =
        modify_all-Alike pb masks table.name table.schema.deletion_protection has_storage ms
          (start table)
