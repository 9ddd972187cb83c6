-- ===== src/Examples/Gc.antt =====
-- The theorems on garbage collection and on the deletion of a time range, at concrete inputs.
use bigtable_emulator.Common.{
  ℕ, ◌≤◌, not, [], ◌∷◌, map, keep, take, pos, ◌≡◌, ◌↔◌, refl, arith, freshest_first,
}
use bigtable_emulator.Status.{ok}
use bigtable_emulator.StdMap.{IsSorted}
use bigtable_emulator.ColumnRow.{ColumnRow, TimestampRange, delete_time_range}
use bigtable_emulator.ColumnRow.Deletion.{to_cell, in_time_range, delete_time_range_lem}
use bigtable_emulator.GcRule.{
  GcRule, Rules, max_age, max_num_versions, union, nil, cons, check_gc_rule_is_valid,
  apply_gc_rule_verdict, run_gc, get_max_age_cut_off_timestamp, check_gc_rule_size_is_below_limit,
  check_gc_rule_tree_has_valid_fields, check_gc_rule_tree_node_has_valid_fields,
}
use bigtable_emulator.GcRule.Equivalence.{run_gc-verdict}
use bigtable_emulator.GcRule.Kept.{kept, run_gc-kept}
use bigtable_emulator.GcRule.Validity.{
  HasValidFields, check_gc_rule_is_valid_iff, IsWireFormat, AllFit, depth, depth-bounded,
}
use bigtable_emulator.Examples.{protobuf, size_of_rules}

abbrev three_cells : ColumnRow
three_cells = (pos 3000, 7 ∷ []) ∷ (pos 2000, []) ∷ (pos 1000, 8 ∷ []) ∷ []

three_cells-IsSorted : IsSorted three_cells
three_cells-IsSorted = ((refl, (refl, tt)), ((refl, tt), (tt, tt)))

abbrev two_seconds : GcRule
two_seconds = max_age (record { seconds = pos 2; nanos = pos 0 })

abbrev either : GcRule
either = union (cons two_seconds (cons (max_num_versions (pos 1)) nil))

either-IsValid : check_gc_rule_is_valid protobuf either ≡ ok tt
unfolding check_gc_rule_is_valid check_gc_rule_size_is_below_limit
    check_gc_rule_tree_has_valid_fields check_gc_rule_tree_node_has_valid_fields
either-IsValid = refl

two_seconds-IsValid : check_gc_rule_is_valid protobuf two_seconds ≡ ok tt
unfolding check_gc_rule_is_valid check_gc_rule_size_is_below_limit
    check_gc_rule_tree_has_valid_fields check_gc_rule_tree_node_has_valid_fields
two_seconds-IsValid = refl

run_gc-verdict_example :
    run_gc protobuf (pos 3500) two_seconds three_cells
    ≡ apply_gc_rule_verdict protobuf (pos 3500) two_seconds three_cells
run_gc-verdict_example =
    run_gc-verdict protobuf (pos 3500) two_seconds three_cells three_cells-IsSorted
      two_seconds-IsValid

run_gc-kept_example :
    run_gc protobuf (pos 3500) either three_cells
    ≡ take (kept protobuf (pos 3500) either three_cells) three_cells
run_gc-kept_example =
    run_gc-kept protobuf (pos 3500) either three_cells three_cells-IsSorted either-IsValid

-- The age leaves two of the three cells, the number of versions one.
kept-either : kept protobuf (pos 3500) either three_cells ≡ 1
unfolding kept get_max_age_cut_off_timestamp
kept-either = refl

check_gc_rule_is_valid_iff_example :
    (check_gc_rule_is_valid protobuf either ≡ ok tt)
    ↔ ((protobuf.byte_size_long either ≤ 500) × HasValidFields protobuf either)
check_gc_rule_is_valid_iff_example = check_gc_rule_is_valid_iff protobuf either

rules-fit : (total : ℕ) (rs : Rules) → size_of_rules rs ≤ total → AllFit protobuf total rs
rules-fit total nil h = tt
rules-fit total (cons r rs) h = (omega (arith, h), rules-fit total rs (omega (arith, h)))

protobuf-IsWireFormat : IsWireFormat protobuf
protobuf-IsWireFormat = record {
  intersection_size = λ rs. rules-fit (size_of_rules rs) rs (omega arith);
  union_size = λ rs. rules-fit (size_of_rules rs) rs (omega arith);
}

depth-bounded_example : depth either ≤ 126
depth-bounded_example = depth-bounded protobuf protobuf-IsWireFormat either either-IsValid

abbrev middle : TimestampRange
middle = record { start_timestamp_micros = pos 1500000; end_timestamp_micros = pos 3000000 }

delete_time_range_lem_example : delete_time_range middle three_cells ≡ (
  keep (λ e. not (in_time_range middle e.0)) three_cells,
  map to_cell (keep (λ e. in_time_range middle e.0) three_cells),
)
delete_time_range_lem_example = delete_time_range_lem middle three_cells three_cells-IsSorted
