-- ===== src/ColumnRow.antt =====
-- `class ColumnRow` of column_family.h and its methods in column_family.cc (all but the garbage
-- collection, which `GcRule` has): the cells of one column of one row, keyed by time stamp, the
-- freshest first. A method returns the new cells beside its result. The system clock's reading is
-- the argument `system_ms`.
pub mod Deletion
pub mod Reads
pub mod Validity
use bigtable_emulator.Common.{
  ℕ, ◌+◌, ◌-◌, ◌*◌, ◌/◌, ◌%◌, ◌^◌, Bool, true, false, List, [], ◌∷◌, ◌++◌, Option, none, some, ℤ,
  pos, negsuc, sub_ℕ, pos_part, neg_part, ltb, leb, ltb_ℤ, leb_ℤ, eqb_ℤ, ◌+ℤ◌, ◌-ℤ◌, truncate_div,
  if◌then◌else◌, freshest_first,
}
use bigtable_emulator.Common.Bytes.{Bytes}
use bigtable_emulator.Status.{StatusOr, ok, err}
use bigtable_emulator.External.{BigEndian}
use bigtable_emulator.StdMap

pub record Cell : Type 0 where
  pub timestamp : ℤ
  pub value : Bytes

pub record ReadModifyWriteCellResult : Type 0 where
  pub timestamp : ℤ
  pub value : Bytes
  pub maybe_old_value : Option Bytes

-- `google.bigtable.v2.TimestampRange`; an unset bound reads as 0.
pub record TimestampRange : Type 0 where
  pub start_timestamp_micros : ℤ
  pub end_timestamp_micros : ℤ

-- A range with neither bound set.
abbrev pub unbounded : TimestampRange
unbounded = record { start_timestamp_micros = pos 0; end_timestamp_micros = pos 0 }

abbrev pub ColumnRow : Type 0
ColumnRow = List (ℤ × Bytes)

-- `duration_cast<milliseconds>(microseconds(n))`.
abbrev pub to_millis : ℤ → ℤ
to_millis n = truncate_div n 1000

-- The sum of two `std::int64_t` in two's complement. (In C++ the overflow itself is undefined.)
unfoldable pub add_int64 : ℤ → ℤ → ℤ
add_int64 a b =
    let s = a +ℤ b in
    if leb_ℤ (pos (2 ^ 63)) s
    then s -ℤ pos (2 ^ 64)
    else if ltb_ℤ s (negsuc (2 ^ 63 - 1))
    then s +ℤ pos (2 ^ 64)
    else s

unfoldable pub set_cell : ℤ → Bytes → ColumnRow → ColumnRow × Option Bytes
set_cell timestamp value cells = (StdMap.put timestamp value cells, StdMap.find timestamp cells)

unfoldable pub update_cell :
    (Bytes → Bytes → StatusOr Bytes) → ℤ → Bytes → ColumnRow → ColumnRow × StatusOr (Option Bytes)
update_cell update_fn timestamp value cells = elim (StdMap.find timestamp cells) [
  | none ↦ (StdMap.put timestamp value cells, ok none)
  | some old ↦ elim (update_fn old value) [
    | ok new ↦ (StdMap.put timestamp new cells, ok (some old))
    | err e ↦ (cells, err e)
  ]
]

-- The loop of `DeleteTimeRange`, from its first cell on: the cells that it deletes, and the others.
unfoldable pub delete_while : ℤ → ColumnRow → List Cell × ColumnRow
delete_while start [] = ([], [])
delete_while start ((t, v) ∷ cells) =
    let rest = delete_while start cells in
    if leb_ℤ start t
    then (record { timestamp = t; value = v } ∷ rest.0, rest.1)
    else ([], (t, v) ∷ cells)

unfoldable pub delete_time_range : TimestampRange → ColumnRow → ColumnRow × List Cell
delete_time_range r cells =
    let start = to_millis r.start_timestamp_micros in
    let end = to_millis r.end_timestamp_micros in
    if eqb_ℤ r.end_timestamp_micros (pos 0)
    then (let (deleted, rest) = delete_while start cells in (rest, deleted))
    else (let (deleted, rest) = delete_while start (StdMap.upper_bound end cells) in
        (StdMap.up_to end cells ++ rest, deleted))

unfoldable pub delete_time_stamp : ℤ → ColumnRow → ColumnRow × Option Cell
delete_time_stamp timestamp cells = elim (StdMap.find timestamp cells) [
  | none ↦ (cells, none)
  | some v ↦ (StdMap.erase timestamp cells, some (record { timestamp = timestamp; value = v }))
]

-- The end of both forms of `ReadModifyWrite` on a column that has a cell: a fresh cell where the
-- clock is past the latest one, else the latest cell is overwritten.
unfoldable pub write_latest :
    ℤ → ℤ → Bytes → ColumnRow → Bytes → ColumnRow × ReadModifyWriteCellResult
write_latest system_ms t old rest value =
    if ltb_ℤ t system_ms
    then (
      StdMap.put system_ms value ((t, old) ∷ rest),
      record { timestamp = system_ms; value = value; maybe_old_value = none },
    )
    else ((t, value) ∷ rest, record { timestamp = t; value = value; maybe_old_value = some old })

abbrev write_first : ℤ → Bytes → ColumnRow × ReadModifyWriteCellResult
write_first system_ms value = (
  StdMap.put system_ms value [],
  record { timestamp = system_ms; value = value; maybe_old_value = none },
)

-- `ReadModifyWrite(std::int64_t)`.
unfoldable pub increment :
    BigEndian → ℤ → ℤ → ColumnRow → ColumnRow × StatusOr ReadModifyWriteCellResult
increment be system_ms inc_value [] =
    let (cells, result) = write_first system_ms (be.encode_big_endian inc_value) in
    (cells, ok result)
increment be system_ms inc_value ((t, old) ∷ rest) = elim (be.decode_big_endian old) [
  | err e ↦ ((t, old) ∷ rest, err e)
  | ok n ↦
      let (cells, result) =
        write_latest system_ms t old rest (be.encode_big_endian (add_int64 inc_value n)) in
      (cells, ok result)
]

-- `ReadModifyWrite(std::string const&)`.
unfoldable pub append : ℤ → Bytes → ColumnRow → ColumnRow × ReadModifyWriteCellResult
append system_ms append_value [] = write_first system_ms append_value
append system_ms append_value ((t, old) ∷ rest) =
    write_latest system_ms t old rest (old ++ append_value)

abbrev pub has_cells : ColumnRow → Bool
has_cells [] = false
has_cells (c ∷ cells) = true
