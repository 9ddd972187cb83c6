-- ===== src/Examples/Stored.antt =====
-- The theorems on the storage, at concrete inputs.
use bigtable_emulator.Common.{
  Bool, true, not, ◌&&◌, [], ◌∷◌, ◌++◌, Option, none, some, ℤ, pos, ◌≡◌, refl, inl, arith,
  if◌then◌else◌,
}
use bigtable_emulator.Common.Bytes.{Bytes, bytes_order, less_bytes, eq_bytes}
use bigtable_emulator.Status.{ok}
use bigtable_emulator.StdMap.{find}
use bigtable_emulator.RowTransaction.{set_cell, undo, slash, find_column_family}
use bigtable_emulator.Table.Drop.{starts_with}
use bigtable_emulator.Storage.{
  Handle, RocksDb, Storage, strip, calculate_prefix_end, row_start, full_key, stored, delete_row,
  call_all,
}
use bigtable_emulator.Storage.Prefix.{calculate_prefix_end_lem}
use bigtable_emulator.Storage.Rows.{has_handle, stored-delete_row, stored-delete_row_longer}
use bigtable_emulator.Storage.Rollback.{address, family, replaced, left, stored-undo-set_cell}
use bigtable_emulator.Examples.Transactions
use bigtable_emulator.Examples.Families

-- A database is what a read of it returns.
abbrev Contents : Type 0
Contents = Bytes → Bytes → Option Bytes

abbrev change : Handle → (Bytes → Bool) → Option Bytes → Contents → Contents
change none keys v db = db
change (some g) keys v db = λ f k. if eq_bytes f g && keys k then v else db f k

abbrev rocks : RocksDb
rocks = record {
  Db = Contents;
  get = λ f k db. db f k;
  put = λ h j v db. change h (λ k. eq_bytes k j) (some v) db;
  delete = λ h j db. change h (λ k. eq_bytes k j) none db;
  delete_range =
      λ h start end db. change h (λ k. not (less_bytes k start) && less_bytes k end) none db;
  create_family = λ g db. db;
  drop_family = λ h db. change h (λ k. true) none db;
  get-put = λ f k g j v db. refl;
  get-delete = λ f k g j db. refl;
  get-delete_range = λ f k g start end db. refl;
  get-create_family = λ f k g db. refl;
}

-- The theorems ask nothing of the text of a time stamp.
abbrev to_string : ℤ → Bytes
to_string t = 52 ∷ []

abbrev table : Bytes
table = 8 ∷ []

abbrev cf_name : Bytes
cf_name = table ++ (slash ++ Transactions.name)

abbrev nothing_stored : Storage rocks to_string
nothing_stored = record { db = λ f k. none; cf_handles = [] }

cf_name-missing : find cf_name nothing_stored.cf_handles ≡ none
unfolding find
cf_name-missing = refl

family-found :
    find_column_family Transactions.context.table_name Transactions.overwrite.family_name
      Transactions.fresh.families
    ≡ ok (Transactions.name, Families.family)
unfolding find_column_family find
family-found = refl

abbrev key : Bytes
key = full_key rocks to_string table (1 ∷ []) (2 ∷ []) (pos 4)

stored-undo-set_cell_example :
    stored rocks to_string cf_name key (
      call_all rocks to_string
        (undo Transactions.context
          (set_cell Transactions.context Transactions.overwrite none
            Transactions.fresh).0).storage_calls
        nothing_stored)
    ≡ (if eq_bytes cf_name (
            family rocks to_string Transactions.context Transactions.overwrite none
              Transactions.fresh Transactions.name Families.family)
          && eq_bytes key (
              address rocks to_string Transactions.context Transactions.overwrite none
                Transactions.fresh Transactions.name Families.family)
        then left rocks to_string Transactions.context Transactions.overwrite none
            Transactions.fresh Transactions.name Families.family
            (replaced rocks to_string Transactions.context Transactions.overwrite none
              Transactions.fresh Transactions.name Families.family)
        else stored rocks to_string cf_name key nothing_stored)
stored-undo-set_cell_example =
    stored-undo-set_cell rocks to_string Transactions.context Transactions.overwrite none
      Transactions.fresh Transactions.name Families.family cf_name key nothing_stored family-found
      refl refl refl refl (inl cf_name-missing)

abbrev two_rows : Storage rocks to_string
two_rows = record { db = λ f k. some (7 ∷ []); cf_handles = (cf_name, some cf_name) ∷ [] }

stored-delete_row_example :
    stored rocks to_string cf_name key (delete_row rocks to_string table (1 ∷ []) two_rows) ≡ (
      if has_handle cf_name two_rows.cf_handles && starts_with (row_start table (1 ∷ [])) key
      then none
      else stored rocks to_string cf_name key two_rows)
stored-delete_row_example =
    stored-delete_row rocks to_string table (1 ∷ []) cf_name key two_rows (omega arith)
      (omega arith) (refl, tt)

stored-delete_row_longer_example :
    stored rocks to_string cf_name
      (full_key rocks to_string table ((1 ∷ []) ++ (slash ++ (5 ∷ []))) (2 ∷ []) (pos 4))
      (delete_row rocks to_string table (1 ∷ []) two_rows)
    ≡ none
stored-delete_row_longer_example =
    stored-delete_row_longer rocks to_string table (1 ∷ []) (5 ∷ []) cf_name (2 ∷ []) (pos 4)
      two_rows (omega arith) (omega arith) (refl, tt) refl

calculate_prefix_end_lem_example :
    (not (less_bytes (4 ∷ 255 ∷ 9 ∷ []) (4 ∷ 255 ∷ []))
      && less_bytes (4 ∷ 255 ∷ 9 ∷ []) (calculate_prefix_end (4 ∷ 255 ∷ [])))
    ≡ starts_with (4 ∷ 255 ∷ []) (4 ∷ 255 ∷ 9 ∷ [])
unfolding strip
calculate_prefix_end_lem_example =
    calculate_prefix_end_lem (4 ∷ 255 ∷ []) (4 ∷ 255 ∷ 9 ∷ []) (omega arith) (omega arith) refl
