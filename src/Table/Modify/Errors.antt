-- ===== src/Table/Modify/Errors.antt =====
-- The errors of the checks of a column family are `invalid_argument`.
use bigtable_emulator.Common.{Option, none, some, ◌≡◌, arith, inl, inr}
use bigtable_emulator.Common.Bytes.{bytes_order}
use bigtable_emulator.Status.{StatusOr-cases, StatusCode, err, invalid_argument}
use bigtable_emulator.GcRule.{
  GcRule, Rules, Protobuf, rule_not_set, max_age, max_num_versions, intersection, union, nil, cons,
  check_gc_rule_is_valid, check_gc_rule_size_is_below_limit, check_gc_rule_tree_has_valid_fields,
  check_rules, check_gc_rule_tree_node_has_valid_fields,
}
use bigtable_emulator.ColumnFamily.{
  ColumnFamily, set_gc_rule, construct_column_family, set_value_type, set_valid_gc_rule, ValueType,
  aggregate, other_type, sum, min, max, other_aggregator,
}

mutual
  unfolding check_gc_rule_tree_has_valid_fields check_rules check_gc_rule_tree_node_has_valid_fields

  tree_error :
      (pb : Protobuf) (r : GcRule) (code : StatusCode)
      → check_gc_rule_tree_has_valid_fields pb r ≡ err code
      → code ≡ invalid_argument
  tree_error pb (max_age d) code h = ground (arith, h)
  tree_error pb (max_num_versions n) code h = ground (arith, h)
  tree_error pb (intersection rs) code h = rules_error pb rs code h
  tree_error pb (union rs) code h = rules_error pb rs code h
  tree_error pb rule_not_set code h = absurd (ground (arith, h))

  rules_error :
      (pb : Protobuf) (rs : Rules) (code : StatusCode)
      → check_rules pb rs ≡ err code
      → code ≡ invalid_argument
  rules_error pb nil code h = absurd (ground (arith, h))
  rules_error pb (cons r rs) code h =
      elim (StatusOr-cases (check_gc_rule_tree_has_valid_fields pb r)) [
        | inl (u, fine) ↦ rules_error pb rs code (ground (arith, fine, h))
        | inr (e, failed) ↦ tree_error pb r code (ground (arith, failed, h))
      ]

pub check_gc_rule_is_valid_error :
    (pb : Protobuf) (r : GcRule) (code : StatusCode)
    → check_gc_rule_is_valid pb r ≡ err code
    → code ≡ invalid_argument
unfolding check_gc_rule_is_valid check_gc_rule_size_is_below_limit
check_gc_rule_is_valid_error pb r code h = ground (arith, h, tree_error pb r code)

set_value_type_error :
    (t : Option ValueType) (cf : ColumnFamily) (code : StatusCode)
    → set_value_type t cf ≡ err code
    → code ≡ invalid_argument
unfolding set_value_type
set_value_type_error none cf code h = absurd (ground (arith, h))
set_value_type_error (some (aggregate sum)) cf code h = absurd (ground (arith, h))
set_value_type_error (some (aggregate min)) cf code h = absurd (ground (arith, h))
set_value_type_error (some (aggregate max)) cf code h = absurd (ground (arith, h))
set_value_type_error (some (aggregate other_aggregator)) cf code h = ground (arith, h)
set_value_type_error (some other_type) cf code h = ground (arith, h)

pub construct_column_family_error :
    (pb : Protobuf) (t : Option ValueType) (rule : Option GcRule) (code : StatusCode)
    → construct_column_family pb t rule ≡ err code
    → code ≡ invalid_argument
unfolding construct_column_family set_valid_gc_rule
construct_column_family_error pb t none code h =
    ground (arith, h, set_value_type_error t bigtable_emulator.ColumnFamily.empty code)
construct_column_family_error pb t (some rule) code h = ground (
  arith,
  h,
  set_value_type_error t bigtable_emulator.ColumnFamily.empty code,
  check_gc_rule_is_valid_error pb rule code,
)
