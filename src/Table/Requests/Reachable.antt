-- ===== src/Table/Requests/Reachable.antt =====
-- What every table keeps, from its construction on, whatever requests it serves.
use bigtable_emulator.Common.{Bool, List, [], ◌∷◌, ◌≡◌, ◌∙◌, sym}
use bigtable_emulator.Common.Bytes.{bytes_order}
use bigtable_emulator.Status.{ok}
use bigtable_emulator.External.{BigEndian}
use bigtable_emulator.GcRule.{Protobuf}
use bigtable_emulator.RowTransaction.{Families}
use bigtable_emulator.RowTransaction.Undoing.{AfterEpoch}
use bigtable_emulator.Table.Schema.{FieldMaskUtil, TableSchema, TableState, construct}
use bigtable_emulator.Table.Schema.Build.{construct-NamesAgree}
use bigtable_emulator.Table.Modify.Names.{NamesAgree, modify_column_families-NamesAgree}
use bigtable_emulator.Table.Requests.{
  Request, mutate_row, read_modify_write, modify_families, drop_rows, context_of, serve, serve_all,
}
use bigtable_emulator.Table.Requests.WellFormed.{
  IsWellFormed, IsKept, do_mutations_with_possible_rollback-IsKept, read_modify_write_row-IsKept,
}
use bigtable_emulator.Table.Requests.Rows.{drop_row_range-IsKept}
use bigtable_emulator.Table.Requests.Resolved.{modify_column_families-IsWellFormed}

pub record IsSound (pb : Protobuf) (table : TableState) : Type 0 where
  pub names : NamesAgree table
  pub well_formed : IsWellFormed pb table.families

-- The clock reads no time before the epoch.
abbrev pub IsTimely : Request → Type 0
IsTimely (mutate_row row_key mutations) = AfterEpoch mutations
IsTimely (read_modify_write row_key rules) = AfterEpoch rules
IsTimely (modify_families modifications) = Unit {0}
IsTimely (drop_rows target) = Unit {0}

abbrev pub AllTimely : List Request → Type 0
AllTimely [] = Unit {0}
AllTimely (request ∷ requests) = IsTimely request × AllTimely requests

module _ (pb : Protobuf) (masks : FieldMaskUtil) (be : BigEndian) (has_storage : Bool) where
  kept-IsSound :
      (table : TableState) (families : Families)
      → IsSound pb table
      → IsKept pb table.families families
      → IsSound pb (record table { families = families })
  kept-IsSound table families s k = record {
    names = record {
      schema_sorted = s.names.schema_sorted;
      families_sorted = k.well_formed.sorted;
      same_names = λ id. s.names.same_names id ∙ sym (k.same_names id);
    };
    well_formed = k.well_formed;
  }

  serve-IsSound :
      (request : Request) (table : TableState)
      → IsTimely request
      → IsSound pb table
      → IsSound pb (serve pb masks be has_storage request table)
  unfolding serve
  serve-IsSound (mutate_row row_key mutations) table late s = kept-IsSound table _ s (
      do_mutations_with_possible_rollback-IsKept pb
        (context_of table row_key table.name has_storage) be table.families s.well_formed mutations
        late)
  serve-IsSound (read_modify_write row_key rules) table late s = kept-IsSound table _ s (
      read_modify_write_row-IsKept pb (context_of table row_key [] has_storage) be table.families
        s.well_formed rules late)
  serve-IsSound (modify_families modifications) table late s = record {
    names = (modify_column_families-NamesAgree pb masks has_storage modifications table s.names).0;
    well_formed =
        modify_column_families-IsWellFormed pb be masks has_storage modifications table s.names
          s.well_formed;
  }
  serve-IsSound (drop_rows target) table late s =
      kept-IsSound table _ s (drop_row_range-IsKept pb target table.families s.well_formed)

  serve_all-IsSound :
      (requests : List Request) (table : TableState)
      → AllTimely requests
      → IsSound pb table
      → IsSound pb (serve_all pb masks be has_storage requests table)
  unfolding serve_all
  serve_all-IsSound [] table late s = s
  serve_all-IsSound (request ∷ requests) table late s =
      serve_all-IsSound requests (serve pb masks be has_storage request table) late.1
        (serve-IsSound request table late.0 s)

  -- A table without column families that `Construct` builds with no error, and that then
  -- serves any sequence of `MutateRow`, `ReadModifyWriteRow`, `ModifyColumnFamilies` and
  -- `DropRowRange`, whether they fail or not and where the clock reads no time before 0, keeps
  -- a schema with the names of its column families, both sorted, column families that are
  -- valid, and no cell with a time stamp before 0.
  pub serve_all-construct :
      (schema : TableSchema) (table : TableState) (requests : List Request)
      → table.families ≡ []
      → (construct pb has_storage schema table).1 ≡ ok tt
      → AllTimely requests
      → IsSound pb
          (serve_all pb masks be has_storage requests (construct pb has_storage schema table).0)
  serve_all-construct schema table requests none_yet built late =
      let (names, well_formed) =
        construct-NamesAgree pb be has_storage schema table none_yet built in
      serve_all-IsSound requests (construct pb has_storage schema table).0 late
        (record { names = names; well_formed = well_formed })
