-- ===== src/Storage/Rollback.antt =====
-- A transaction that is rolled back, against the storage.
use bigtable_emulator.Common.{
  true, false, ◌&&◌, List, [], ◌∷◌, ◌++◌, Option, none, some, ℤ, ◌≡◌, ◌⊎◌, inl, inr, arith,
  is_empty, if◌then◌else◌, Option-cases,
}
use bigtable_emulator.Common.Bytes.{Bytes, bytes_order, eq_bytes}
use bigtable_emulator.Status.{ok}
use bigtable_emulator.StdMap.{find}
use bigtable_emulator.StdMap.Lookup.{find-put_self}
use bigtable_emulator.ColumnRow.{to_millis}
use bigtable_emulator.ColumnFamily
use bigtable_emulator.ColumnFamily.{ColumnFamily}
use bigtable_emulator.RowTransaction.{
  Transaction, Context, SetCell, StorageCall, find_column_family, set_cell, undo, undo_all,
  undo_entry, undo_write, store, overridden, slash,
}
use bigtable_emulator.Storage.{
  Handle, RocksDb, Storage, full_key, stored, get_or_add_handle, put_cell, delete_cell, call,
  call_all,
}

-- The column family has its own handle, or none yet.
abbrev pub IsOwn : Bytes → List (Bytes × Handle) → Type 0
IsOwn f handles = (find f handles ≡ none) ⊎ (find f handles ≡ some (some f))

module _ (rocks : RocksDb) (to_string : ℤ → Bytes) where
  stored-put_cell :
      (table row cf q : Bytes) (t : ℤ) (v f key : Bytes) (s : Storage rocks to_string)
      → IsOwn cf s.cf_handles
      → (stored rocks to_string f key (put_cell rocks to_string table row cf q t v s) ≡ (
          if eq_bytes f cf && eq_bytes key (full_key rocks to_string table row q t)
          then some v
          else stored rocks to_string f key s))
        × (find cf (put_cell rocks to_string table row cf q t v s).cf_handles ≡ some (some cf))
  unfolding put_cell get_or_add_handle
  stored-put_cell table row cf q t v f key s (inl fresh) = (
    ground (
      arith,
      fresh,
      rocks.get-put f key cf (full_key rocks to_string table row q t) v
          (rocks.create_family cf s.db),
      rocks.get-create_family f key cf s.db,
    ),
    ground (arith, fresh, find-put_self cf (some cf) s.cf_handles),
  )
  stored-put_cell table row cf q t v f key s (inr own) = (
    ground (arith, own, rocks.get-put f key cf (full_key rocks to_string table row q t) v s.db),
    ground (arith, own),
  )

  stored-delete_cell :
      (table row cf q : Bytes) (t : ℤ) (f key : Bytes) (s : Storage rocks to_string)
      → find cf s.cf_handles ≡ some (some cf)
      → stored rocks to_string f key (delete_cell rocks to_string table row cf q t s) ≡ (
          if eq_bytes f cf && eq_bytes key (full_key rocks to_string table row q t)
          then none
          else stored rocks to_string f key s)
  unfolding delete_cell
  stored-delete_cell table row cf q t f key s own =
      ground (arith, own, rocks.get-delete f key cf (full_key rocks to_string table row q t) s.db)

  module _ (c : Context) (m : SetCell) (timestamp_override : Option ℤ) (tx : Transaction)
      (key : Bytes) (cf : ColumnFamily) where
    abbrev pub time : ℤ
    time = overridden timestamp_override (to_millis m.timestamp_micros)

    -- The column family of the storage, and the key of the cell in it.
    abbrev pub family : Bytes
    family = c.table_key ++ (slash ++ m.family_name)

    abbrev pub address : Bytes
    address = full_key rocks to_string c.table_key c.row_key m.column_qualifier time

    abbrev pub replaced : Option Bytes
    replaced = (ColumnFamily.set_cell c.row_key m.column_qualifier time m.value cf).1

    -- What a rollback leaves in the storage where the column family had the value in memory.
    abbrev pub left : Option Bytes → Option Bytes
    left none = none
    left (some old) = some m.value

    abbrev put : StorageCall
    put = StorageCall.put_cell c.table_key c.row_key family m.column_qualifier time m.value

    abbrev delete : StorageCall
    delete = StorageCall.delete_cell c.table_key c.row_key family m.column_qualifier time

    calls_new :
        find_column_family c.table_name m.family_name tx.families ≡ ok (key, cf)
        → c.has_storage ≡ true
        → is_empty c.table_key ≡ false
        → tx.undo_log ≡ []
        → tx.storage_calls ≡ []
        → replaced ≡ none
        → (undo c (set_cell c m timestamp_override tx).0).storage_calls ≡ put ∷ delete ∷ []
    unfolding undo undo_all set_cell undo_entry undo_write store
    calls_new found storage named no_log no_calls e =
        ground (arith, found, storage, named, no_log, no_calls, e)

    calls_old :
        (old : Bytes)
        → find_column_family c.table_name m.family_name tx.families ≡ ok (key, cf)
        → c.has_storage ≡ true
        → tx.undo_log ≡ []
        → tx.storage_calls ≡ []
        → replaced ≡ some old
        → (undo c (set_cell c m timestamp_override tx).0).storage_calls ≡ put ∷ []
    unfolding undo undo_all set_cell undo_entry undo_write store
    calls_old old found storage no_log no_calls e =
        ground (arith, found, storage, no_log, no_calls, e)

    -- Where there is a storage, the table key is set, the transaction has no undo log and has
    -- called no storage yet, `SetCell` finds its column family, and the storage has no handle for
    -- that or its own, the calls of the storage by `SetCell` and a rollback leave the cell without
    -- a value in the storage if it had none in memory, and with the new value, not the old one, if
    -- it had one. They change nothing else in the storage.
    pub stored-undo-set_cell :
        (f k : Bytes) (s : Storage rocks to_string)
        → find_column_family c.table_name m.family_name tx.families ≡ ok (key, cf)
        → c.has_storage ≡ true
        → is_empty c.table_key ≡ false
        → tx.undo_log ≡ []
        → tx.storage_calls ≡ []
        → IsOwn family s.cf_handles
        → stored rocks to_string f k (
            call_all rocks to_string
              (undo c (set_cell c m timestamp_override tx).0).storage_calls
              s)
          ≡ (if eq_bytes f family && eq_bytes k address
              then left replaced
              else stored rocks to_string f k s)
    unfolding call_all call
    stored-undo-set_cell f k s found storage named no_log no_calls own =
        let written =
          stored-put_cell c.table_key c.row_key family m.column_qualifier time m.value f k s own in
        elim (Option-cases replaced) [
          | inl e ↦ rw (calls_new found storage named no_log no_calls e) (
              ground (
                arith,
                e,
                written.0,
                stored-delete_cell c.table_key c.row_key family m.column_qualifier time f k
                    (put_cell rocks to_string c.table_key c.row_key family m.column_qualifier time
                      m.value s)
                    written.1,
              ))
          | inr (old, e) ↦
              rw (calls_old old found storage no_log no_calls e) (ground (arith, e, written.0))
        ]
