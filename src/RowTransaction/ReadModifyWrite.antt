-- ===== src/RowTransaction/ReadModifyWrite.antt =====
-- `RowTransaction::ReadModifyWriteRow` and `Table::ReadModifyWriteRow` of table.cc, with the table of
-- one row that gathers the cells for the response. Each rule comes with the reading of the clock at
-- its call of `ReadModifyWrite`.
pub mod Rollback
pub mod Results
use bigtable_emulator.Common.{
  ◌+◌, ◌*◌, Bool, true, false, List, [], ◌∷◌, Option, none, some, ℤ, pos, negsuc, ltb,
  if◌then◌else◌, is_empty, map, length, freshest_first,
}
use bigtable_emulator.Common.Bytes.{Bytes, bytes_order}
use bigtable_emulator.Status.{Status, StatusOr, ok, err, invalid_argument}
use bigtable_emulator.External.{BigEndian}
use bigtable_emulator.StdMap
use bigtable_emulator.ColumnRow.{ColumnRow, ReadModifyWriteCellResult}
use bigtable_emulator.ColumnFamilyRow.{ColumnFamilyRow}
use bigtable_emulator.ColumnFamily
use bigtable_emulator.ColumnFamily.{ColumnFamily, Rows}
use bigtable_emulator.RowStreamer.{to_micros}
use bigtable_emulator.RowTransaction.{
  Families, Transaction, Context, find_column_family, undo_write, undo,
}
use bigtable_emulator.Table.{max_row_len}

-- `google.bigtable.v2.ReadModifyWriteRule`.
pub data Operation : Type 0 where
  append_value : Bytes → Operation
  increment_amount : ℤ → Operation
  operation_not_set : Operation

pub record Rule : Type 0 where
  pub family_name : Bytes
  pub column_qualifier : Bytes
  pub operation : Operation

-- `google.bigtable.v2.Row` of the response.
pub record ResponseCell : Type 0 where
  pub timestamp_micros : ℤ
  pub value : Bytes

pub record ResponseColumn : Type 0 where
  pub qualifier : Bytes
  pub cells : List ResponseCell

pub record ResponseFamily : Type 0 where
  pub name : Bytes
  pub columns : List ResponseColumn

pub record ResponseRow : Type 0 where
  pub key : Bytes
  pub families : List ResponseFamily

-- The transaction and the table of one row.
pub record Progress : Type 0 where
  pub tx : Transaction
  pub tmp_families : Families

abbrev pub tmp_family : Bytes → Families → ColumnFamily
tmp_family name tmp = StdMap.find_or name ColumnFamily.empty tmp

unfoldable pub process_read_modify_write_result :
    Bytes → Bytes → Rule → ReadModifyWriteCellResult → Progress → Progress
unfolding undo_write
process_read_modify_write_result row_key key rule result p = record {
  tx = record p.tx {
    undo_log =
        undo_write key rule.family_name rule.column_qualifier result.timestamp
          result.maybe_old_value
        ∷ p.tx.undo_log;
  };
  tmp_families =
      StdMap.put rule.family_name
        (ColumnFamily.set_cell row_key rule.column_qualifier result.timestamp result.value
          (tmp_family rule.family_name p.tmp_families)).0
        p.tmp_families;
}

abbrev response_cell : ℤ × Bytes → ResponseCell
response_cell e = record { timestamp_micros = to_micros e.0; value = e.1 }

abbrev response_column : Bytes × ColumnRow → ResponseColumn
response_column e = record { qualifier = e.0; cells = map response_cell e.1 }

-- The columns of every row of a family, one after the other.
unfoldable pub response_columns : Rows → List ResponseColumn
response_columns [] = []
response_columns ((r, columns) ∷ rows) =
    bigtable_emulator.Common.◌++◌ (map response_column columns) (response_columns rows)

unfoldable pub response_families : Families → List ResponseFamily
unfolding response_columns
response_families [] = []
response_families ((name, cf) ∷ families) =
    record { name = name; columns = response_columns cf.rows } ∷ response_families families

unfoldable pub families_to_read_modify_write_response : Bytes → Families → ResponseRow
unfolding response_families
families_to_read_modify_write_response row_key families = record {
  key = row_key;
  families = response_families families;
}

module _ (c : Context) (be : BigEndian) where
  -- The call of `ReadModifyWrite` for one rule, on the column family of the rule.
  unfoldable pub read_modify_write :
      ℤ → Rule → ColumnFamily → ColumnFamily × StatusOr ReadModifyWriteCellResult
  read_modify_write now rule cf = elim rule.operation [
    | append_value v ↦
        let (cf', result) = ColumnFamily.append now c.row_key rule.column_qualifier v cf in
        (cf', ok result)
    | increment_amount n ↦ ColumnFamily.increment be now c.row_key rule.column_qualifier n cf
    | operation_not_set ↦ (cf, err invalid_argument)
  ]

  unfoldable pub apply_rule : ℤ → Rule → Progress → Progress × Status
  unfolding find_column_family read_modify_write process_read_modify_write_result
  apply_rule now rule p = elim (find_column_family c.table_name rule.family_name p.tx.families) [
    | err e ↦ (p, err e)
    | ok (key, cf) ↦
        let (cf', result) = read_modify_write now rule cf in
        let written = record p {
          tx = record p.tx { families = StdMap.put key cf' p.tx.families };
        } in
        elim result [
          | err e ↦ (written, err e)
          | ok r ↦ (process_read_modify_write_result c.row_key key rule r written, ok tt)
        ]
  ]

  unfoldable pub apply_rules : List (ℤ × Rule) → Progress → Progress × Status
  unfolding apply_rule
  apply_rules [] p = (p, ok tt)
  apply_rules ((now, rule) ∷ rules) p =
      let (p', status) = apply_rule now rule p in
      let rest = apply_rules rules p' in elim status [ err e ↦ (p', err e) | ok _ ↦ rest ]

  -- `RowTransaction::ReadModifyWriteRow`.
  unfoldable pub transaction_read_modify_write_row :
      List (ℤ × Rule) → Transaction → Transaction × StatusOr ResponseRow
  unfolding apply_rules families_to_read_modify_write_response
  transaction_read_modify_write_row rules tx =
      if is_empty c.row_key
      then (tx, err invalid_argument)
      else (let (p, status) = apply_rules rules (record { tx = tx; tmp_families = [] }) in
          elim status [
            | err e ↦ (p.tx, err e)
            | ok _ ↦ (p.tx, ok (families_to_read_modify_write_response c.row_key p.tmp_families))
          ])

  -- `Table::ReadModifyWriteRow`: a transaction that is not committed is undone.
  unfoldable pub read_modify_write_row :
      List (ℤ × Rule) → Transaction → Transaction × StatusOr ResponseRow
  unfolding transaction_read_modify_write_row
  read_modify_write_row rules tx =
      if ltb max_row_len (length c.row_key)
      then (tx, err invalid_argument)
      else (let (tx', response) =
            transaction_read_modify_write_row rules (record tx { undo_log = [] }) in
          elim response [ err e ↦ (undo c tx', err e) | ok row ↦ (tx', ok row) ])
