-- ===== src/GcRule.antt =====
-- Garbage collection of column_family.cc: the validation of a rule, and what a rule erases from
-- one column. A rule is the protobuf message `google.bigtable.admin.v2.GcRule`; what the protobuf
-- library computes of it is a parameter. The code reads the clock anew for each cell and each age;
-- here `now` is one reading for the whole of a run, as if the run took no time.
pub mod Equivalence
pub mod Kept
pub mod Validity
use bigtable_emulator.Common.{
  ℕ, zero, suc, ◌+◌, ◌-◌, ◌^◌, Bool, true, false, not, ◌&&◌, ◌||◌, List, [], ◌∷◌, ℤ, pos, negsuc,
  pos_part, neg_part, ltb, leb, ltb_ℤ, leb_ℤ, ◌-ℤ◌, if◌then◌else◌, length, take, freshest_first,
}
use bigtable_emulator.Common.Bytes.{Bytes}
use bigtable_emulator.Status.{Status, ok, err, invalid_argument, ◌>>=◌, ◌>>◌}
use bigtable_emulator.StdMap
use bigtable_emulator.ColumnRow.{ColumnRow}

-- `google.protobuf.Duration`.
pub record Duration : Type 0 where
  pub seconds : ℤ
  pub nanos : ℤ

mutual
  pub data GcRule : Type 0 where
    rule_not_set : GcRule
    max_age : Duration → GcRule
    max_num_versions : ℤ → GcRule
    intersection : Rules → GcRule
    union : Rules → GcRule

  pub data Rules : Type 0 where
    nil : Rules
    cons : GcRule → Rules → Rules

-- `TimeUtil::DurationToMilliseconds` and `ByteSizeLong` of the protobuf library.
pub record Protobuf : Type 0 where
  pub duration_to_milliseconds : Duration → ℤ
  pub byte_size_long : GcRule → ℕ

-- `kMaxGCRuleSize` of bigtable_limits.h.
abbrev pub max_gc_rule_size : ℕ
max_gc_rule_size = 500

abbrev pub rules_empty : Rules → Bool
rules_empty nil = true
rules_empty (cons r rs) = false

-- The conversion of an `int32_t` to `std::size_t`.
abbrev pub to_size_t : ℤ → ℕ
to_size_t (pos n) = n
to_size_t (negsuc n) = 2 ^ 64 - (n + 1)

module _ (pb : Protobuf) where
  unfoldable pub check_gc_rule_tree_node_has_valid_fields : GcRule → Status
  check_gc_rule_tree_node_has_valid_fields (max_age d) =
      if ltb_ℤ (pb.duration_to_milliseconds d) (pos 1) then err invalid_argument else ok tt
  check_gc_rule_tree_node_has_valid_fields (max_num_versions n) =
      if ltb_ℤ n (pos 1) then err invalid_argument else ok tt
  check_gc_rule_tree_node_has_valid_fields (intersection rs) = ok tt
  check_gc_rule_tree_node_has_valid_fields (union rs) = ok tt
  check_gc_rule_tree_node_has_valid_fields rule_not_set = ok tt

unfoldable mutual
  unfolding check_gc_rule_tree_node_has_valid_fields

  pub check_gc_rule_tree_has_valid_fields : Protobuf → GcRule → Status
  check_gc_rule_tree_has_valid_fields pb (intersection rs) =
      check_gc_rule_tree_node_has_valid_fields pb (intersection rs) >> check_rules pb rs
  check_gc_rule_tree_has_valid_fields pb (union rs) =
      check_gc_rule_tree_node_has_valid_fields pb (union rs) >> check_rules pb rs
  check_gc_rule_tree_has_valid_fields pb (max_age d) =
      check_gc_rule_tree_node_has_valid_fields pb (max_age d)
  check_gc_rule_tree_has_valid_fields pb (max_num_versions n) =
      check_gc_rule_tree_node_has_valid_fields pb (max_num_versions n)
  check_gc_rule_tree_has_valid_fields pb rule_not_set =
      check_gc_rule_tree_node_has_valid_fields pb rule_not_set

  -- The loop over the sub-rules, which stops at the first error.
  pub check_rules : Protobuf → Rules → Status
  check_rules pb nil = ok tt
  check_rules pb (cons r rs) = check_gc_rule_tree_has_valid_fields pb r >> check_rules pb rs

module _ (pb : Protobuf) where
  unfoldable pub check_gc_rule_size_is_below_limit : GcRule → Status
  check_gc_rule_size_is_below_limit rule =
      if ltb max_gc_rule_size (pb.byte_size_long rule) then err invalid_argument else ok tt

  unfoldable pub check_gc_rule_is_valid : GcRule → Status
  unfolding check_gc_rule_size_is_below_limit
  check_gc_rule_is_valid rule =
      check_gc_rule_size_is_below_limit rule >> check_gc_rule_tree_has_valid_fields pb rule

  -- The clock's reading less the age.
  unfoldable pub get_max_age_cut_off_timestamp : ℤ → Duration → ℤ
  get_max_age_cut_off_timestamp now d = now -ℤ pb.duration_to_milliseconds d

-- `now` is the clock's reading, `t` the cell's time stamp and `rank` the number of cells kept
-- before it.
unfoldable mutual
  pub gc_rule_erase_verdict : Protobuf → ℤ → GcRule → ℤ → ℕ → Bool
  gc_rule_erase_verdict pb now (max_age d) t rank = ltb_ℤ t (get_max_age_cut_off_timestamp pb now d)
  gc_rule_erase_verdict pb now (max_num_versions n) t rank = leb_ℤ n (pos rank)
  gc_rule_erase_verdict pb now (intersection rs) t rank =
      not (rules_empty rs) && all_erase pb now rs t rank
  gc_rule_erase_verdict pb now (union rs) t rank =
      not (rules_empty rs) && any_erase pb now rs t rank
  gc_rule_erase_verdict pb now rule_not_set t rank = false

  pub all_erase : Protobuf → ℤ → Rules → ℤ → ℕ → Bool
  all_erase pb now nil t rank = true
  all_erase pb now (cons r rs) t rank =
      gc_rule_erase_verdict pb now r t rank && all_erase pb now rs t rank

  pub any_erase : Protobuf → ℤ → Rules → ℤ → ℕ → Bool
  any_erase pb now nil t rank = false
  any_erase pb now (cons r rs) t rank =
      gc_rule_erase_verdict pb now r t rank || any_erase pb now rs t rank

unfoldable pub apply_gc_rule_max_num_versions : ℕ → ColumnRow → ColumnRow
apply_gc_rule_max_num_versions n cells = if leb (length cells) n then cells else take n cells

module _ (pb : Protobuf) (now : ℤ) where
  unfoldable pub apply_gc_rule_max_age : Duration → ColumnRow → ColumnRow
  apply_gc_rule_max_age d cells = StdMap.up_to (get_max_age_cut_off_timestamp pb now d) cells

  -- The loop of `ApplyGCRuleVerdict` from the cell at `version_rank` on.
  unfoldable pub apply_gc_rule_verdict_from : GcRule → ℕ → ColumnRow → ColumnRow
  apply_gc_rule_verdict_from rule version_rank [] = []
  apply_gc_rule_verdict_from rule version_rank ((t, v) ∷ cells) =
      elim (gc_rule_erase_verdict pb now rule t version_rank) [
        | true ↦ apply_gc_rule_verdict_from rule version_rank cells
        | false ↦ (t, v) ∷ apply_gc_rule_verdict_from rule (version_rank + 1) cells
      ]

  unfoldable pub apply_gc_rule_verdict : GcRule → ColumnRow → ColumnRow
  unfolding apply_gc_rule_verdict_from
  apply_gc_rule_verdict rule cells = apply_gc_rule_verdict_from rule 0 cells

  -- `ColumnRow::RunGC`.
  unfoldable pub run_gc : GcRule → ColumnRow → ColumnRow
  run_gc (max_age d) cells = apply_gc_rule_max_age d cells
  run_gc (max_num_versions n) cells = apply_gc_rule_max_num_versions (to_size_t n) cells
  run_gc (intersection rs) cells = apply_gc_rule_verdict (intersection rs) cells
  run_gc (union rs) cells = apply_gc_rule_verdict (union rs) cells
  run_gc rule_not_set cells = cells
