-- ===== src/Table/Drop/Prefix.antt =====
-- `DropRowRange` takes the rows in memory with the prefix, and no others.
use bigtable_emulator.Common.{
  Bool, true, false, not, [], ◌∷◌, none, ◌≡◌, refl, ℤ, arith, if◌then◌else◌, keep, ◌&&◌, ltb,
  is_empty, length,
}
use bigtable_emulator.Common.Bytes.{Bytes, bytes_order, less_bytes}
use bigtable_emulator.Status.{ok, err, invalid_argument}
use bigtable_emulator.StdMap.{find, AllAfter, IsSorted}
use bigtable_emulator.StdMap.Keep.{find-keep}
use bigtable_emulator.StdMap.Values.{AllValues}
use bigtable_emulator.GcRule.{Protobuf}
use bigtable_emulator.ColumnFamily.{ColumnFamily, Rows, clear}
use bigtable_emulator.ColumnFamily.Validity.{IsValid}
use bigtable_emulator.ColumnFamily.Reads.{read}
use bigtable_emulator.RowTransaction.{Families}
use bigtable_emulator.RowTransaction.Rollback.{read_cell}
use bigtable_emulator.Table.{max_row_len}
use bigtable_emulator.Table.Drop.{
  Target, row_key_prefix, delete_all_data_from_table, target_not_set, starts_with, erase_while,
  drop_rows, clear_all, drop_rows_everywhere, drop_row_range,
}

-- The keys with a prefix follow each other from the prefix itself.
pub starts_with-between :
    (prefix r s : Bytes)
    → less_bytes r prefix ≡ false
    → less_bytes r s ≡ true
    → starts_with prefix s ≡ true
    → starts_with prefix r ≡ true
starts_with-between [] r s h k l = refl
starts_with-between (x ∷ prefix) [] s h k l = ground (arith, h)
starts_with-between (x ∷ prefix) (y ∷ r) [] h k l = ground (arith, k)
starts_with-between (x ∷ prefix) (y ∷ r) (z ∷ s) h k l =
    ground (arith, h, k, l, starts_with-between prefix r s)

pub starts_with-not_less :
    (prefix r : Bytes) → starts_with prefix r ≡ true → less_bytes r prefix ≡ false
starts_with-not_less [] [] h = refl
starts_with-not_less [] (y ∷ r) h = refl
starts_with-not_less (x ∷ prefix) [] h = ground (arith, h)
starts_with-not_less (x ∷ prefix) (y ∷ r) h = ground (arith, h, starts_with-not_less prefix r)

abbrev without : Bytes → Rows → Rows
without prefix = keep (λ e. not (starts_with prefix e.0))

without-later :
    (prefix r : Bytes) (rows : Rows)
    → less_bytes r prefix ≡ false
    → starts_with prefix r ≡ false
    → AllAfter r rows
    → without prefix rows ≡ rows
without-later prefix r [] h k a = refl
without-later prefix r ((s, columns) ∷ rows) h k a =
    ground (arith, without-later prefix r rows h k a.1, starts_with-between prefix r s h a.0)

erase_while_lem :
    (prefix r : Bytes) (rows : Rows)
    → less_bytes r prefix ≡ false
    → AllAfter r rows
    → IsSorted rows
    → erase_while prefix rows ≡ without prefix rows
unfolding erase_while
erase_while_lem prefix r [] h a s = refl
erase_while_lem prefix r ((k, columns) ∷ rows) h a s = ground (
  arith,
  erase_while_lem prefix k rows,
  without-later prefix k rows,
  bytes_order.less_trans r k prefix a.0,
  h,
  s.0,
  s.1,
)

pub drop_rows_lem :
    (prefix : Bytes) (rows : Rows) → IsSorted rows → drop_rows prefix rows ≡ without prefix rows
unfolding drop_rows erase_while
drop_rows_lem prefix [] s = refl
drop_rows_lem prefix ((r, columns) ∷ rows) s = ground (
  arith,
  drop_rows_lem prefix rows s.1,
  starts_with-not_less prefix r,
  erase_while_lem prefix r rows,
  without-later prefix r rows,
  s.0,
  s.1,
)

read-drop_rows :
    (pb : Protobuf) (prefix r q : Bytes) (t : ℤ) (cf : ColumnFamily)
    → IsValid pb cf
    → read r q t (record cf { rows = drop_rows prefix cf.rows })
      ≡ (if starts_with prefix r then none else read r q t cf)
unfolding find
read-drop_rows pb prefix r q t cf h = ground (
  arith,
  drop_rows_lem prefix cf.rows h.sorted,
  find-keep (λ k. not (starts_with prefix k)) r cf.rows h.sorted,
)

read_cell-drop_rows_everywhere :
    (pb : Protobuf) (prefix f r q : Bytes) (t : ℤ) (families : Families)
    → AllValues (IsValid pb) families
    → read_cell f r q t (drop_rows_everywhere prefix families)
      ≡ (if starts_with prefix r then none else read_cell f r q t families)
unfolding drop_rows_everywhere find
read_cell-drop_rows_everywhere pb prefix f r q t [] h = ground arith
read_cell-drop_rows_everywhere pb prefix f r q t ((key, cf) ∷ families) h = ground (
  arith,
  read_cell-drop_rows_everywhere pb prefix f r q t families h.1,
  read-drop_rows pb prefix r q t cf h.0,
)

read_cell-clear_all :
    (f r q : Bytes) (t : ℤ) (families : Families) → read_cell f r q t (clear_all families) ≡ none
unfolding clear_all clear find
read_cell-clear_all f r q t [] = refl
read_cell-clear_all f r q t ((key, cf) ∷ families) =
    ground (arith, read_cell-clear_all f r q t families)

-- Which targets are in order, and which rows they take: that `delete_all_data_from_table` is set
-- is enough, whatever its value is.
abbrev pub in_order : Target → Bool
in_order (row_key_prefix prefix) = not (is_empty prefix) && not (ltb max_row_len (length prefix))
in_order (delete_all_data_from_table all) = true
in_order target_not_set = false

abbrev pub takes : Target → Bytes → Bool
takes (row_key_prefix prefix) r = starts_with prefix r
takes (delete_all_data_from_table all) r = true
takes target_not_set r = false

-- In a table whose column families are valid, `DropRowRange` returns no error just if its target
-- is a prefix of 1 to 4096 bytes, or `delete_all_data_from_table`, be that true or false. Then the
-- cells in memory of the rows with the prefix, or of all rows, read nothing, and every other cell
-- in memory reads what it did; after an error all do.
pub read_cell-drop_row_range :
    (pb : Protobuf) (target : Target) (f r q : Bytes) (t : ℤ) (families : Families)
    → AllValues (IsValid pb) families
    → ((drop_row_range target families).1
        ≡ (if in_order target then ok tt else err invalid_argument))
      × (read_cell f r q t (drop_row_range target families).0
          ≡ (if in_order target && takes target r then none else read_cell f r q t families))
unfolding drop_row_range
read_cell-drop_row_range pb (row_key_prefix prefix) f r q t families h =
    (ground arith, ground (arith, read_cell-drop_rows_everywhere pb prefix f r q t families h))
read_cell-drop_row_range pb (delete_all_data_from_table all) f r q t families h =
    (refl, read_cell-clear_all f r q t families)
read_cell-drop_row_range pb target_not_set f r q t families h = (refl, refl)
