-- ===== src/RowTransaction.antt =====
-- `class RowTransaction` of table.h and table.cc: the mutations of one row, with the log that takes
-- them back. A reference to a column family is its key in the table. The calls of the storage are
-- recorded in order, since what they do is RocksDB's; `has_storage` tells whether there is one.
pub mod Rollback
pub mod Reverts
pub mod Undoing
pub mod Writes
pub mod Restores
pub mod Deletions
pub mod RowRestores
pub mod RowDeletions
pub mod Everywhere
pub mod Mutations
pub mod ReadModifyWrite
use bigtable_emulator.Common.{
  ◌+◌, ◌*◌, Bool, true, false, not, ◌&&◌, List, [], ◌∷◌, ◌++◌, Option, none, some, ℤ, pos, negsuc,
  pos_part, neg_part, leb, leb_ℤ, eqb_ℤ, ◌==◌, if◌then◌else◌, is_empty, map, freshest_first,
}
use bigtable_emulator.Common.Bytes.{Bytes, bytes_order}
use bigtable_emulator.Status.{
  Status, StatusOr, ok, err, ◌>>=◌, invalid_argument, not_found, unimplemented,
}
use bigtable_emulator.External.{BigEndian}
use bigtable_emulator.StdMap
use bigtable_emulator.ColumnRow.{
  Cell, ColumnRow, TimestampRange, unbounded, to_millis, ReadModifyWriteCellResult,
}
use bigtable_emulator.ColumnFamilyRow.{ColumnFamilyRow}
use bigtable_emulator.ColumnFamily
use bigtable_emulator.ColumnFamily.{
  ColumnFamily, aggregate, other_type, sum, min, max, other_aggregator, Rows,
}

abbrev pub Families : Type 0
Families = List (Bytes × ColumnFamily)

-- `RestoreValue` and `DeleteValue`, each with the key of its column family.
pub data UndoEntry : Type 0 where
  restore_value : Bytes → Bytes → ℤ → Bytes → UndoEntry
  delete_value : Bytes → Bytes → Bytes → ℤ → UndoEntry

-- A call of a method of `Storage`.
pub data StorageCall : Type 0 where
  put_cell : Bytes → Bytes → Bytes → Bytes → ℤ → Bytes → StorageCall
  delete_cell : Bytes → Bytes → Bytes → Bytes → ℤ → StorageCall
  delete_column : Bytes → Bytes → Bytes → Bytes → StorageCall
  delete_cf_row : Bytes → Bytes → Bytes → StorageCall
  delete_row : Bytes → Bytes → StorageCall

-- The table's column families, the undo stack with its top first, and the calls of the storage.
pub record Transaction : Type 0 where
  pub families : Families
  pub undo_log : List UndoEntry
  pub storage_calls : List StorageCall

-- What the transaction holds of its table and of its row.
pub record Context : Type 0 where
  pub table_name : Bytes
  pub row_key : Bytes
  pub table_key : Bytes
  pub has_storage : Bool

abbrev pub slash : Bytes
slash = 47 ∷ []

-- The messages of google.bigtable.v2.Mutation.
pub record SetCell : Type 0 where
  pub family_name : Bytes
  pub column_qualifier : Bytes
  pub timestamp_micros : ℤ
  pub value : Bytes

pub data Input : Type 0 where
  no_input other_input : Input
  int_value : ℤ → Input

pub record AddToCell : Type 0 where
  pub family_name : Bytes
  pub column_qualifier : Option Bytes
  pub raw_timestamp_micros : ℤ
  pub input : Input

pub record DeleteFromColumn : Type 0 where
  pub family_name : Bytes
  pub column_qualifier : Bytes
  pub time_range : Option TimestampRange

-- `Table::FindColumnFamily`: the key under which the family is found.
unfoldable pub find_column_family : Bytes → Bytes → Families → StatusOr (Bytes × ColumnFamily)
find_column_family table_name name families = elim (StdMap.find name families) [
  | some cf ↦ ok (name, cf)
  | none ↦
      let prefixed = table_name ++ (slash ++ name) in
      elim (StdMap.find prefixed families) [ some cf ↦ ok (prefixed, cf) | none ↦ err not_found ]
]

abbrev pub overridden : Option ℤ → ℤ → ℤ
overridden none timestamp = timestamp
overridden (some timestamp_override) timestamp = timestamp_override

abbrev pub range_or_unbounded : Option TimestampRange → TimestampRange
range_or_unbounded none = unbounded
range_or_unbounded (some r) = r

-- The entry for a cell that was written: it is deleted, or gets its old value back.
unfoldable pub undo_write : Bytes → Bytes → Bytes → ℤ → Option Bytes → UndoEntry
undo_write key family_name q t none = delete_value key family_name q t
undo_write key family_name q t (some old) = restore_value key q t old

-- The tests of `AddToCell` before it writes: the integer to add and the qualifier.
unfoldable pub check_value_type : ColumnFamily → Status
check_value_type cf = elim cf.value_type [
  | none ↦ err invalid_argument
  | some type ↦ elim type [
    | other_type ↦ err invalid_argument
    | aggregate a ↦ elim a [ other_aggregator ↦ err unimplemented | _ ↦ ok tt ]
  ]
]

unfoldable pub check_input : Input → StatusOr ℤ
check_input no_input = err invalid_argument
check_input other_input = err invalid_argument
check_input (int_value n) = ok n

unfoldable pub check_qualifier : Option Bytes → StatusOr Bytes
check_qualifier none = err invalid_argument
check_qualifier (some q) = ok q

unfoldable pub check_add_to_cell : AddToCell → ColumnFamily → StatusOr (ℤ × Bytes)
unfolding check_value_type check_input check_qualifier
check_add_to_cell m cf = do
  checked ← check_value_type cf
  n ← check_input m.input
  q ← check_qualifier m.column_qualifier
  ok (n, q)

unfoldable pub merge_to_cell : Transaction → Transaction × Status
merge_to_cell tx = (tx, err unimplemented)

-- One entry for each deleted cell of a column, pushed in their order.
unfoldable pub push_cells : Bytes → Bytes → List Cell → List UndoEntry → List UndoEntry
push_cells key q [] log = log
push_cells key q (cell ∷ cells) log =
    push_cells key q cells (restore_value key q cell.timestamp cell.value ∷ log)

unfoldable pub push_columns : Bytes → List (Bytes × List Cell) → List UndoEntry → List UndoEntry
unfolding push_cells
push_columns key [] log = log
push_columns key ((q, cells) ∷ columns) log = push_columns key columns (push_cells key q cells log)

-- Whether the range of a `DeleteFromColumn` is empty or reversed, in milliseconds.
unfoldable pub is_reversed : Option TimestampRange → Bool
is_reversed none = false
is_reversed (some r) =
    leb_ℤ (to_millis r.end_timestamp_micros) (to_millis r.start_timestamp_micros)
    && not (eqb_ℤ r.end_timestamp_micros (pos 0))

-- The write of one entry into a column family, where it exists.
abbrev pub change_family : Bytes → (ColumnFamily → ColumnFamily) → Families → Families
change_family key f families = elim (StdMap.find key families) [
  | none ↦ families
  | some cf ↦ StdMap.put key (f cf) families
]

module _ (c : Context) where
  -- A call of the storage, where there is one.
  unfoldable pub store : StorageCall → Transaction → Transaction
  store call tx =
      if c.has_storage then record tx { storage_calls = tx.storage_calls ++ (call ∷ []) } else tx

  unfoldable pub set_cell : SetCell → Option ℤ → Transaction → Transaction × Status
  unfolding find_column_family store undo_write
  set_cell m timestamp_override tx =
      elim (find_column_family c.table_name m.family_name tx.families) [
        | err e ↦ (tx, err e)
        | ok (key, cf) ↦
            let timestamp = overridden timestamp_override (to_millis m.timestamp_micros) in
            let stored =
              store
                (put_cell c.table_key c.row_key (c.table_key ++ (slash ++ m.family_name))
                  m.column_qualifier timestamp m.value)
                tx in
            let (cf', old) =
              ColumnFamily.set_cell c.row_key m.column_qualifier timestamp m.value cf in
            (
              record stored {
                families = StdMap.put key cf' tx.families;
                undo_log =
                    undo_write key m.family_name m.column_qualifier timestamp old ∷ tx.undo_log;
              },
              ok tt,
            )
      ]

  unfoldable pub add_to_cell : BigEndian → AddToCell → Option ℤ → Transaction → Transaction × Status
  unfolding find_column_family undo_write check_add_to_cell
  add_to_cell be m timestamp_override tx =
      elim (find_column_family c.table_name m.family_name tx.families) [
        | err e ↦ (tx, err e)
        | ok (key, cf) ↦ elim (check_add_to_cell m cf) [
          | err e ↦ (tx, err e)
          | ok (n, q) ↦
              let timestamp = overridden timestamp_override (to_millis m.raw_timestamp_micros) in
              let (cf', result) =
                ColumnFamily.update_cell be c.row_key q timestamp (be.encode_big_endian n) cf in
              let written = record tx { families = StdMap.put key cf' tx.families } in
              elim result [
                | err e ↦ (written, err e)
                | ok old ↦ (
                  record written {
                    undo_log = undo_write key m.family_name q timestamp old ∷ tx.undo_log;
                  },
                  ok tt,
                )
              ]
        ]
      ]

  unfoldable pub delete_from_column : DeleteFromColumn → Transaction → Transaction × Status
  unfolding find_column_family store push_cells is_reversed
  delete_from_column m tx = elim (find_column_family c.table_name m.family_name tx.families) [
    | err e ↦ (tx, err e)
    | ok (key, cf) ↦ elim (is_reversed m.time_range) [
      | true ↦ (tx, err invalid_argument)
      | false ↦
          let range = range_or_unbounded m.time_range in
          let (cf', cells) = ColumnFamily.delete_column c.row_key m.column_qualifier range cf in
          let stored =
            store
              (delete_column c.table_key c.row_key (c.table_key ++ (slash ++ m.family_name))
                m.column_qualifier)
              tx in
          (
            record stored {
              families = StdMap.put key cf' tx.families;
              undo_log = push_cells key m.column_qualifier cells tx.undo_log;
            },
            ok tt,
          )
    ]
  ]

  unfoldable pub delete_from_family : Bytes → Transaction → Transaction × Status
  unfolding find_column_family store push_columns
  delete_from_family family_name tx =
      elim (find_column_family c.table_name family_name tx.families) [
        | err e ↦ (tx, err e)
        | ok (key, cf) ↦
            let (cf', deleted_columns) = ColumnFamily.delete_row c.row_key cf in
            let deleted = record tx { families = StdMap.put key cf' tx.families } in
            elim deleted_columns [
              | [] ↦ (deleted, err not_found)
              | column ∷ columns ↦ (
                store (delete_cf_row c.table_key c.row_key (c.table_key ++ (slash ++ family_name)))
                    (record deleted { undo_log = push_columns key (column ∷ columns) tx.undo_log }),
                ok tt,
              )
            ]
      ]

  -- The loop of `DeleteFromRow` over the column families, and whether it deleted a cell.
  unfoldable pub delete_row_everywhere :
      Families → List UndoEntry → Families × (List UndoEntry × Bool)
  unfolding push_columns
  delete_row_everywhere [] log = ([], (log, false))
  delete_row_everywhere ((key, cf) ∷ families) log =
      let (cf', deleted_columns) = ColumnFamily.delete_row c.row_key cf in
      let (families', (log', existed)) =
        delete_row_everywhere families (push_columns key deleted_columns log) in
      ((key, cf') ∷ families', (log', if is_empty deleted_columns then existed else true))

  unfoldable pub delete_from_row : Transaction → Transaction × Status
  unfolding store delete_row_everywhere
  delete_from_row tx =
      let (families', (log, row_existed)) = delete_row_everywhere tx.families tx.undo_log in
      let deleted = record tx { families = families'; undo_log = log } in
      if row_existed
      then (store (delete_row c.table_key c.row_key) deleted, ok tt)
      else (deleted, err not_found)

  -- One round of `Undo`.
  unfoldable pub undo_entry : UndoEntry → Transaction → Transaction
  unfolding store
  undo_entry (restore_value key q t old) tx = record tx {
    families = change_family key (λ cf. (ColumnFamily.set_cell c.row_key q t old cf).0) tx.families;
  }
  undo_entry (delete_value key family_name q t) tx =
      let stored =
        if is_empty c.table_key
        then tx
        else store (delete_cell c.table_key c.row_key (c.table_key ++ (slash ++ family_name)) q t)
            tx in
      record stored {
        families =
            change_family key (λ cf. (ColumnFamily.delete_time_stamp c.row_key q t cf).0)
              tx.families;
      }

  unfoldable pub undo_all : List UndoEntry → Transaction → Transaction
  unfolding undo_entry
  undo_all [] tx = tx
  undo_all (e ∷ log) tx = undo_all log (undo_entry e tx)

  -- `Undo`, which leaves the stack empty.
  unfoldable pub undo : Transaction → Transaction
  unfolding undo_all
  undo tx = undo_all tx.undo_log (record tx { undo_log = [] })
