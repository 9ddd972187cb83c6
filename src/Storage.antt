-- ===== src/Storage.antt =====
-- `class Storage` of storage.h and storage.cc: what the calls for cells write to RocksDB. RocksDB is
-- a parameter, with the documented effect of its operations; they are taken to succeed. The rows
-- of the default column family, which hold the schemas, and the scans are left out.
pub mod Prefix
pub mod Rows
pub mod Rollback
use bigtable_emulator.Common.{
  ℕ, ◌+◌, ◌%◌, Bool, true, false, not, ◌&&◌, List, [], ◌∷◌, ◌++◌, Option, none, some, ℤ, ◌≡◌, ◌==◌,
  if◌then◌else◌,
}
use bigtable_emulator.Common.Bytes.{Bytes, bytes_order, less_bytes, eq_bytes}
use bigtable_emulator.StdMap
use bigtable_emulator.RowTransaction.{StorageCall, slash}
use bigtable_emulator.Cluster.{slash_tables_slash}

-- A pointer to a handle: the name of its column family, and `none` for a null pointer, of which
-- nothing is documented. A column family that does not exist reads as an empty one.
abbrev pub Handle : Type 0
Handle = Option Bytes

pub record RocksDb : Type 1 where
  pub Db : Type 0
  pub get : Bytes → Bytes → Db → Option Bytes
  pub put : Handle → Bytes → Bytes → Db → Db
  pub delete : Handle → Bytes → Db → Db
  pub delete_range : Handle → Bytes → Bytes → Db → Db
  pub create_family : Bytes → Db → Db
  pub drop_family : Handle → Db → Db
  pub get-put :
      (f k g j v : Bytes) (db : Db)
      → get f k (put (some g) j v db)
        ≡ (if eq_bytes f g && eq_bytes k j then some v else get f k db)
  pub get-delete :
      (f k g j : Bytes) (db : Db)
      → get f k (delete (some g) j db) ≡ (if eq_bytes f g && eq_bytes k j then none else get f k db)
  pub get-delete_range :
      (f k g start end : Bytes) (db : Db)
      → get f k (delete_range (some g) start end db) ≡ (
          if eq_bytes f g && (not (less_bytes k start) && less_bytes k end)
          then none
          else get f k db)
  pub get-create_family : (f k g : Bytes) (db : Db) → get f k (create_family g db) ≡ get f k db

-- The bytes up to the last that is not 0xFF.
unfoldable pub strip : Bytes → Bytes
strip [] = []
strip (x ∷ xs) = elim (strip xs) [ [] ↦ if x == 255 then [] else x ∷ [] | y ∷ ys ↦ x ∷ y ∷ ys ]

-- `end_key.back()++`.
unfoldable pub increment_last : Bytes → Bytes
increment_last [] = []
increment_last (x ∷ []) = ((x + 1) % 256) ∷ []
increment_last (x ∷ y ∷ ys) = x ∷ increment_last (y ∷ ys)

unfoldable pub calculate_prefix_end : Bytes → Bytes
unfolding strip increment_last
calculate_prefix_end prefix = elim (strip prefix) [
  | [] ↦ 255 ∷ []
  | y ∷ ys ↦ increment_last (y ∷ ys)
]

-- The start of the keys of a row, and of a column in it.
abbrev pub row_start : Bytes → Bytes → Bytes
row_start table_name row_key = slash_tables_slash ++ (table_name ++ (slash ++ (row_key ++ slash)))

abbrev pub column_start : Bytes → Bytes → Bytes → Bytes
column_start table_name row_key column_name = row_start table_name row_key ++ (column_name ++ slash)

module _ (rocks : RocksDb) (to_string : ℤ → Bytes) where
  abbrev pub full_key : Bytes → Bytes → Bytes → ℤ → Bytes
  full_key table_name row_key column_name timestamp =
      column_start table_name row_key column_name ++ to_string timestamp

  -- `db_` and `cf_handles_`, by the name of the column family. No order of an iteration over the
  -- handles is seen from outside.
  pub record Storage : Type 0 where
    pub db : rocks.Db
    pub cf_handles : List (Bytes × Handle)

  unfoldable pub get_or_add_handle : Bytes → Storage → Storage × Handle
  get_or_add_handle cf_name s = elim (StdMap.find cf_name s.cf_handles) [
    | some handle ↦ (s, handle)
    | none ↦ (
      record s {
        db = rocks.create_family cf_name s.db;
        cf_handles = StdMap.put cf_name (some cf_name) s.cf_handles;
      },
      some cf_name,
    )
  ]

  unfoldable pub put_cell : Bytes → Bytes → Bytes → Bytes → ℤ → Bytes → Storage → Storage
  unfolding get_or_add_handle
  put_cell table_name row_key column_family column_qualifier timestamp value s =
      let (s', handle) = get_or_add_handle column_family s in
      elim handle [
        | none ↦ s'
        | some name ↦ record s' {
          db =
              rocks.put (some name) (full_key table_name row_key column_qualifier timestamp) value
                s'.db;
        }
      ]

  unfoldable pub delete_cell : Bytes → Bytes → Bytes → Bytes → ℤ → Storage → Storage
  delete_cell table_name row_key prefixed_cf_name column_name timestamp s =
      elim (StdMap.find prefixed_cf_name s.cf_handles) [
        | none ↦ s
        | some handle ↦ record s {
          db = rocks.delete handle (full_key table_name row_key column_name timestamp) s.db;
        }
      ]

  abbrev pub delete_prefix : Handle → Bytes → rocks.Db → rocks.Db
  delete_prefix handle start_key db =
      rocks.delete_range handle start_key (calculate_prefix_end start_key) db

  -- `cf_handles_[prefixed_cf_name]`, which adds a null pointer where there is none.
  unfoldable pub delete_column : Bytes → Bytes → Bytes → Bytes → Storage → Storage
  unfolding calculate_prefix_end
  delete_column table_name row_key prefixed_cf_name column_name s =
      let handle = StdMap.find_or prefixed_cf_name none s.cf_handles in
      record s {
        db = delete_prefix handle (column_start table_name row_key column_name) s.db;
        cf_handles = StdMap.put prefixed_cf_name handle s.cf_handles;
      }

  unfoldable pub delete_everywhere : Bytes → List (Bytes × Handle) → rocks.Db → rocks.Db
  unfolding calculate_prefix_end
  delete_everywhere start_key [] db = db
  delete_everywhere start_key ((name, handle) ∷ handles) db =
      delete_everywhere start_key handles (delete_prefix handle start_key db)

  unfoldable pub delete_row : Bytes → Bytes → Storage → Storage
  unfolding delete_everywhere
  delete_row table_name row_key s = record s {
    db = delete_everywhere (row_start table_name row_key) s.cf_handles s.db;
  }

  unfoldable pub delete_cf_row : Bytes → Bytes → Bytes → Storage → Storage
  unfolding calculate_prefix_end
  delete_cf_row table_name row_key prefixed_cf_name s =
      elim (StdMap.find prefixed_cf_name s.cf_handles) [
        | none ↦ s
        | some handle ↦ record s { db = delete_prefix handle (row_start table_name row_key) s.db }
      ]

  unfoldable pub delete_column_family : Bytes → Storage → Storage
  delete_column_family prefixed_cf_name s = elim (StdMap.find prefixed_cf_name s.cf_handles) [
    | none ↦ s
    | some handle ↦ record s {
      db = rocks.drop_family handle s.db;
      cf_handles = StdMap.erase prefixed_cf_name s.cf_handles;
    }
  ]

  -- The method of a call that a transaction makes.
  unfoldable pub call : StorageCall → Storage → Storage
  unfolding put_cell delete_cell delete_column delete_cf_row delete_row
  call (StorageCall.put_cell table row cf q t v) s = put_cell table row cf q t v s
  call (StorageCall.delete_cell table row cf q t) s = delete_cell table row cf q t s
  call (StorageCall.delete_column table row cf q) s = delete_column table row cf q s
  call (StorageCall.delete_cf_row table row cf) s = delete_cf_row table row cf s
  call (StorageCall.delete_row table row) s = delete_row table row s

  unfoldable pub call_all : List StorageCall → Storage → Storage
  unfolding call
  call_all [] s = s
  call_all (c ∷ calls) s = call_all calls (call c s)

  -- What the storage has in a column family under a key.
  abbrev pub stored : Bytes → Bytes → Storage → Option Bytes
  stored f key s = rocks.get f key s.db
