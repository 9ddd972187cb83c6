-- ===== src/ColumnFamily.antt =====
-- `class ColumnFamily` of column_family.h and its methods in column_family.cc: the rows of one
-- column family in the order of their keys, the rule for its garbage collection, and the way in
-- which `AddToCell` combines a value with the one in place.
pub mod Validity
pub mod Reads
pub mod History
use bigtable_emulator.Common.{
  Bool, true, false, List, [], ◌∷◌, Option, none, some, ℤ, pos_part, neg_part, ltb, ltb_ℤ,
  if◌then◌else◌, ◌+◌,
}
use bigtable_emulator.Common.Bytes.{Bytes, bytes_order}
use bigtable_emulator.Status.{StatusOr, ok, err, invalid_argument, ◌>>=◌, ◌>>◌}
use bigtable_emulator.External.{BigEndian}
use bigtable_emulator.StdMap
use bigtable_emulator.ColumnRow
use bigtable_emulator.ColumnRow.{
  Cell, ColumnRow, ReadModifyWriteCellResult, TimestampRange, add_int64,
}
use bigtable_emulator.ColumnFamilyRow
use bigtable_emulator.ColumnFamilyRow.{ColumnFamilyRow, has_columns}
use bigtable_emulator.GcRule.{GcRule, Protobuf, check_gc_rule_is_valid}

-- `google.bigtable.admin.v2.Type`, as far as the code looks at it.
pub data Aggregator : Type 0 where
  sum min max other_aggregator : Aggregator

pub data ValueType : Type 0 where
  aggregate : Aggregator → ValueType
  other_type : ValueType

-- The function in `update_cell_`.
pub data UpdateCell : Type 0 where
  default_update_cell sum_update_cell max_update_cell min_update_cell : UpdateCell

pub record ColumnFamily : Type 0 where
  pub rows : List (Bytes × ColumnFamilyRow)
  pub value_type : Option ValueType
  pub gc_rule : Option GcRule
  pub update_cell_fn : UpdateCell

-- The rows alone, which is all that most methods change.
abbrev pub Rows : Type 0
Rows = List (Bytes × ColumnFamilyRow)

abbrev pub empty : ColumnFamily
empty = record {
  rows = [];
  value_type = none;
  gc_rule = none;
  update_cell_fn = default_update_cell;
}

-- `ConstructColumnFamily`.
unfoldable pub set_value_type : Option ValueType → ColumnFamily → StatusOr ColumnFamily
set_value_type none cf = ok cf
set_value_type (some (aggregate sum)) cf =
    ok (record cf { update_cell_fn = sum_update_cell; value_type = some (aggregate sum) })
set_value_type (some (aggregate min)) cf =
    ok (record cf { update_cell_fn = min_update_cell; value_type = some (aggregate min) })
set_value_type (some (aggregate max)) cf =
    ok (record cf { update_cell_fn = max_update_cell; value_type = some (aggregate max) })
set_value_type (some (aggregate other_aggregator)) cf = err invalid_argument
set_value_type (some other_type) cf = err invalid_argument

unfoldable pub set_valid_gc_rule : Protobuf → Option GcRule → ColumnFamily → StatusOr ColumnFamily
set_valid_gc_rule pb none cf = ok cf
set_valid_gc_rule pb (some rule) cf =
    check_gc_rule_is_valid pb rule >> ok (record cf { gc_rule = some rule })

unfoldable pub construct_column_family :
    Protobuf → Option ValueType → Option GcRule → StatusOr ColumnFamily
unfolding set_value_type set_valid_gc_rule
construct_column_family pb maybe_value_type maybe_gc_rule = do
  cf ← set_value_type maybe_value_type empty
  set_valid_gc_rule pb maybe_gc_rule cf

-- The four update functions; the values are big-endian 64-bit integers.
unfoldable pub apply_update : BigEndian → UpdateCell → Bytes → Bytes → StatusOr Bytes
apply_update be default_update_cell existing new = ok new
apply_update be sum_update_cell existing new = do
  e ← be.decode_big_endian existing
  n ← be.decode_big_endian new
  ok (be.encode_big_endian (add_int64 e n))
apply_update be max_update_cell existing new = do
  e ← be.decode_big_endian existing
  n ← be.decode_big_endian new
  if ltb_ℤ n e then ok existing else ok new
apply_update be min_update_cell existing new = do
  e ← be.decode_big_endian existing
  n ← be.decode_big_endian new
  if ltb_ℤ e n then ok existing else ok new

abbrev pub row : Bytes → Rows → ColumnFamilyRow
row row_key rows = StdMap.find_or row_key [] rows

unfoldable pub set_cell : Bytes → Bytes → ℤ → Bytes → ColumnFamily → ColumnFamily × Option Bytes
set_cell row_key column_qualifier timestamp value cf =
    let (columns, old) =
      ColumnFamilyRow.set_cell column_qualifier timestamp value (row row_key cf.rows) in
    (record cf { rows = StdMap.put row_key columns cf.rows }, old)

unfoldable pub update_cell :
    BigEndian → Bytes → Bytes → ℤ → Bytes → ColumnFamily → ColumnFamily × StatusOr (Option Bytes)
update_cell be row_key column_qualifier timestamp value cf =
    let (columns, old) =
      ColumnFamilyRow.update_cell (apply_update be cf.update_cell_fn) column_qualifier timestamp
        value (row row_key cf.rows) in
    (record cf { rows = StdMap.put row_key columns cf.rows }, old)

unfoldable pub increment :
    BigEndian
    → ℤ
    → Bytes
    → Bytes
    → ℤ
    → ColumnFamily
    → ColumnFamily × StatusOr ReadModifyWriteCellResult
increment be system_ms row_key column_qualifier inc_value cf =
    let (columns, result) =
      ColumnFamilyRow.increment be system_ms column_qualifier inc_value (row row_key cf.rows) in
    (record cf { rows = StdMap.put row_key columns cf.rows }, result)

unfoldable pub append :
    ℤ → Bytes → Bytes → Bytes → ColumnFamily → ColumnFamily × ReadModifyWriteCellResult
append system_ms row_key column_qualifier append_value cf =
    let (columns, result) =
      ColumnFamilyRow.append system_ms column_qualifier append_value (row row_key cf.rows) in
    (record cf { rows = StdMap.put row_key columns cf.rows }, result)

-- The columns that `DeleteRow` returns: each one with the cells of an unbounded deletion.
unfoldable pub delete_all_columns : ColumnFamilyRow → List (Bytes × List Cell)
delete_all_columns [] = []
delete_all_columns ((q, cells) ∷ columns) =
    let rest = delete_all_columns columns in
    elim (ColumnRow.delete_time_range ColumnRow.unbounded cells).1 [
      | [] ↦ rest
      | c ∷ deleted ↦ StdMap.put q (c ∷ deleted) rest
    ]

unfoldable pub delete_row : Bytes → ColumnFamily → ColumnFamily × List (Bytes × List Cell)
delete_row row_key cf = elim (StdMap.find row_key cf.rows) [
  | none ↦ (cf, [])
  | some columns ↦ (record cf { rows = StdMap.erase row_key cf.rows }, delete_all_columns columns)
]

-- The row as a deletion left it, or nothing if that emptied it.
unfoldable pub store_row : Bytes → ColumnFamilyRow → ColumnFamily → ColumnFamily
store_row row_key columns cf =
    if has_columns columns
    then record cf { rows = StdMap.put row_key columns cf.rows }
    else record cf { rows = StdMap.erase row_key cf.rows }

unfoldable pub delete_column :
    Bytes → Bytes → TimestampRange → ColumnFamily → ColumnFamily × List Cell
delete_column row_key column_qualifier time_range cf = elim (StdMap.find row_key cf.rows) [
  | none ↦ (cf, [])
  | some columns ↦
      let (rest, erased_cells) =
        ColumnFamilyRow.delete_column column_qualifier time_range columns in
      (store_row row_key rest cf, erased_cells)
]

unfoldable pub delete_time_stamp : Bytes → Bytes → ℤ → ColumnFamily → ColumnFamily × Option Cell
delete_time_stamp row_key column_qualifier timestamp cf = elim (StdMap.find row_key cf.rows) [
  | none ↦ (cf, none)
  | some columns ↦
      let (rest, ret) = ColumnFamilyRow.delete_time_stamp column_qualifier timestamp columns in
      (store_row row_key rest cf, ret)
]

-- The loop of `RunGC` over the rows.
unfoldable pub run_gc_rows : Protobuf → ℤ → GcRule → Rows → Rows
run_gc_rows pb now rule [] = []
run_gc_rows pb now rule ((r, columns) ∷ rows) =
    let columns' = ColumnFamilyRow.run_gc pb now rule columns in
    let rest = run_gc_rows pb now rule rows in
    if has_columns columns' then (r, columns') ∷ rest else rest

unfoldable pub run_gc : Protobuf → ℤ → ColumnFamily → ColumnFamily
run_gc pb now cf = elim cf.gc_rule [
  | none ↦ cf
  | some rule ↦ record cf { rows = run_gc_rows pb now rule cf.rows }
]

unfoldable pub clear : ColumnFamily → ColumnFamily
clear cf = record cf { rows = [] }

unfoldable pub set_gc_rule : GcRule → ColumnFamily → ColumnFamily
set_gc_rule rule cf = record cf { gc_rule = some rule }
