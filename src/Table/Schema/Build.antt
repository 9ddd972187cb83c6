-- ===== src/Table/Schema/Build.antt =====
-- What `Table::Construct` builds.
use bigtable_emulator.Common.{Bool, ℤ, none, [], ◌∷◌, ◌≡◌, refl, arith, inl, inr, subst, sym}
use bigtable_emulator.Common.Bytes.{Bytes, bytes_order}
use bigtable_emulator.Status.{Status, StatusOr-cases, ok}
use bigtable_emulator.External.{BigEndian}
use bigtable_emulator.StdMap.{find, put, IsSorted}
use bigtable_emulator.StdMap.Lookup.{find-put}
use bigtable_emulator.StdMap.Sorted.{put-IsSorted}
use bigtable_emulator.StdMap.Values.{AllValues, AllValues-put}
use bigtable_emulator.GcRule.{Protobuf}
use bigtable_emulator.ColumnFamily.{ColumnFamily, construct_column_family}
use bigtable_emulator.ColumnFamily.Validity.{IsValid}
use bigtable_emulator.ColumnFamily.History.{run, run-construct_column_family}
use bigtable_emulator.RowTransaction.{Families}
use bigtable_emulator.RowTransaction.Reverts.{has_family}
use bigtable_emulator.Table.Schema.{
  Definition, Definitions, TableSchema, TableState, column_family_id, check_schema,
  construct_families, construct, with_granularity,
}
use bigtable_emulator.Table.Modify.{is_present}
use bigtable_emulator.Table.Modify.Names.{NamesAgree}
use bigtable_emulator.RowTransaction.Rollback.{read_cell}
use bigtable_emulator.Table.Requests.WellFormed.{IsWellFormed}
use bigtable_emulator.Table.Requests.Families.{construct_column_family-rows}

module _ (pb : Protobuf) (be : BigEndian) where
  record IsBuilt (built : Definitions × Families) : Type 0 where
    definitions_sorted : IsSorted built.0
    families_sorted : IsSorted built.1
    valid : AllValues (IsValid pb) built.1
    same_names : (id : Bytes) → is_present (find id built.0) ≡ has_family id built.1
    no_cells : (f r q : Bytes) (t : ℤ) → read_cell f r q t built.1 ≡ none

  nothing : IsBuilt ([], [])
  unfolding find
  nothing = record {
    definitions_sorted = tt;
    families_sorted = tt;
    valid = tt;
    same_names = λ f. refl;
    no_cells = λ f r q t. refl;
  }

  put-IsBuilt :
      (id : Bytes) (def : Definition) (cf : ColumnFamily) (built : Definitions × Families)
      → IsValid pb cf
      → cf.rows ≡ []
      → IsBuilt built
      → IsBuilt (put id def built.0, put id cf built.1)
  unfolding find
  put-IsBuilt id def cf built v e b = record {
    no_cells = λ f r q t. ground (arith, e, b.no_cells f r q t, find-put f id cf built.1);
    definitions_sorted = put-IsSorted id def built.0 b.definitions_sorted;
    families_sorted = put-IsSorted id cf built.1 b.families_sorted;
    valid = AllValues-put (IsValid pb) id cf built.1 v b.valid;
    same_names =
        λ f. ground (arith, b.same_names f, find-put f id def built.0, find-put f id cf built.1);
  }

  construct_families-IsBuilt :
      (name : Bytes) (defs : Definitions) (built : Definitions × Families)
      → IsBuilt built
      → IsBuilt (construct_families pb name defs built).0
  unfolding construct_families run
  construct_families-IsBuilt name [] built b = b
  construct_families-IsBuilt name ((id, def) ∷ defs) built b =
      elim (StatusOr-cases (construct_column_family pb def.value_type def.gc_rule)) [
        | inr (e, failed) ↦ rw (failed, construct_families) b
        | inl (cf, fine) ↦
            rw (fine, construct_families)
              (construct_families-IsBuilt name defs _ (
                put-IsBuilt (column_family_id name id) def cf built
                  (run-construct_column_family pb be def.value_type def.gc_rule cf [] tt fine)
                  (construct_column_family-rows pb def.value_type def.gc_rule cf fine) b))
      ]

  -- A table without column families that `Construct` builds with no error has column families
  -- that are valid and have no cell with a time stamp before 0, and a schema with the same
  -- names, both sorted.
  pub construct-NamesAgree :
      (has_storage : Bool) (schema : TableSchema) (table : TableState)
      → table.families ≡ []
      → (construct pb has_storage schema table).1 ≡ ok tt
      → NamesAgree (construct pb has_storage schema table).0
        × IsWellFormed pb (construct pb has_storage schema table).0.families
  unfolding construct
  construct-NamesAgree has_storage schema table none_yet h =
      elim (StatusOr-cases (check_schema (with_granularity schema))) [
        | inr (e, failed) ↦ absurd (ground (arith, failed, h))
        | inl (u, fine) ↦ elim (StatusOr-cases done.1) [
          | inr (e, failed) ↦ absurd (ground (arith, fine, failed, h))
          | inl (v, built_all) ↦
              rw (fine, built_all, construct)
                (
                  record {
                    schema_sorted = built.definitions_sorted;
                    families_sorted = built.families_sorted;
                    same_names = built.same_names;
                  },
                  record {
                    sorted = built.families_sorted;
                    valid = built.valid;
                    recent = λ f r q t early. built.no_cells f r q t;
                  },
                )
        ]
      ]
    where
      done : (Definitions × Families) × Status
      done =
          construct_families pb schema.name (with_granularity schema).column_families
            ([], table.families)

      built : IsBuilt done.0
      built =
          construct_families-IsBuilt schema.name (with_granularity schema).column_families
            ([], table.families) (subst (λ x. IsBuilt ([], x)) (sym none_yet) nothing)
