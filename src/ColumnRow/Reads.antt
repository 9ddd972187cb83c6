-- ===== src/ColumnRow/Reads.antt =====
-- What `ColumnRow` holds after each of its operations: the view of a column as a map from time
-- stamps to values.
use bigtable_emulator.Common.{not, none, ◌≡◌, ℤ, if◌then◌else◌, freshest_first, arith}
use bigtable_emulator.StdMap.{IsSorted, find}
use bigtable_emulator.StdMap.Lookup.{same, find-erase}
use bigtable_emulator.StdMap.Keep.{keep-IsSorted, find-keep}
use bigtable_emulator.ColumnRow.{ColumnRow, TimestampRange, delete_time_range, delete_time_stamp}
use bigtable_emulator.ColumnRow.Deletion.{in_time_range, delete_time_range_lem}

-- `DeleteTimeRange` hides the time stamps of its range and no others.
pub find-delete_time_range :
    (r : TimestampRange) (t : ℤ) (cells : ColumnRow)
    → IsSorted cells
    → find t (delete_time_range r cells).0
      ≡ (if not (in_time_range r t) then find t cells else none)
find-delete_time_range r t cells s =
    rw (delete_time_range_lem r cells s) (find-keep (λ u. not (in_time_range r u)) t cells s)

pub delete_time_range-IsSorted :
    (r : TimestampRange) (cells : ColumnRow)
    → IsSorted cells
    → IsSorted (delete_time_range r cells).0
delete_time_range-IsSorted r cells s =
    rw (delete_time_range_lem r cells s) (keep-IsSorted (λ u. not (in_time_range r u)) cells s)

pub find-delete_time_stamp :
    (u t : ℤ) (cells : ColumnRow)
    → IsSorted cells
    → find u (delete_time_stamp t cells).0 ≡ (if same u t then none else find u cells)
unfolding delete_time_stamp
find-delete_time_stamp u t cells s =
    ground (arith, find-erase u t cells s, freshest_first.less_connex u t)
