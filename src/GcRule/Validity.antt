-- ===== src/GcRule/Validity.antt =====
-- Which garbage collection rules pass the validation, and how deep a valid one nests.
use bigtable_emulator.Common.{ℕ, suc, ◌+◌, ◌*◌, ◌≤◌, pos, ◌≡◌, refl, arith, ◌≤ℤ◌, ◌↔◌}
use Prim.Native.Nat.{max}
use bigtable_emulator.Status.{ok}
use bigtable_emulator.GcRule.{
  GcRule, rule_not_set, max_age, max_num_versions, intersection, union, Rules, nil, cons, Protobuf,
  check_gc_rule_tree_node_has_valid_fields, check_gc_rule_tree_has_valid_fields, check_rules,
  check_gc_rule_size_is_below_limit, check_gc_rule_is_valid,
}

-- Every age in the rule is at least 1ms, and every number of versions at least 1.
abbrev mutual
  pub HasValidFields : Protobuf → GcRule → Type 0
  HasValidFields pb (max_age d) = pos 1 ≤ℤ pb.duration_to_milliseconds d
  HasValidFields pb (max_num_versions n) = pos 1 ≤ℤ n
  HasValidFields pb (intersection rs) = AllHaveValidFields pb rs
  HasValidFields pb (union rs) = AllHaveValidFields pb rs
  HasValidFields pb rule_not_set = Unit {0}

  pub AllHaveValidFields : Protobuf → Rules → Type 0
  AllHaveValidFields pb nil = Unit {0}
  AllHaveValidFields pb (cons r rs) = HasValidFields pb r × AllHaveValidFields pb rs

mutual
  unfolding check_gc_rule_tree_has_valid_fields check_rules check_gc_rule_tree_node_has_valid_fields

  tree_sound :
      (pb : Protobuf) (r : GcRule)
      → check_gc_rule_tree_has_valid_fields pb r ≡ ok tt
      → HasValidFields pb r
  tree_sound pb (max_age d) h = ground arith
  tree_sound pb (max_num_versions n) h = ground arith
  tree_sound pb (intersection rs) h = rules_sound pb rs h
  tree_sound pb (union rs) h = rules_sound pb rs h
  tree_sound pb rule_not_set h = tt

  rules_sound : (pb : Protobuf) (rs : Rules) → check_rules pb rs ≡ ok tt → AllHaveValidFields pb rs
  rules_sound pb nil h = tt
  rules_sound pb (cons r rs) h = (tree_sound pb r (ground arith), rules_sound pb rs (ground arith))

mutual
  unfolding check_gc_rule_tree_has_valid_fields check_rules check_gc_rule_tree_node_has_valid_fields

  tree_complete :
      (pb : Protobuf) (r : GcRule)
      → HasValidFields pb r
      → check_gc_rule_tree_has_valid_fields pb r ≡ ok tt
  tree_complete pb (max_age d) h = ground arith
  tree_complete pb (max_num_versions n) h = ground arith
  tree_complete pb (intersection rs) h = rules_complete pb rs h
  tree_complete pb (union rs) h = rules_complete pb rs h
  tree_complete pb rule_not_set h = refl

  rules_complete :
      (pb : Protobuf) (rs : Rules) → AllHaveValidFields pb rs → check_rules pb rs ≡ ok tt
  rules_complete pb nil h = refl
  rules_complete pb (cons r rs) h = ground (arith, tree_complete pb r h.0, rules_complete pb rs h.1)

-- `CheckGCRuleIsValid` accepts a rule just if its size is at most 500 bytes, and every age in it
-- is at least a millisecond and every number of versions at least 1.
pub check_gc_rule_is_valid_iff :
    (pb : Protobuf) (r : GcRule)
    → (check_gc_rule_is_valid pb r ≡ ok tt) ↔ ((pb.byte_size_long r ≤ 500) × HasValidFields pb r)
unfolding check_gc_rule_is_valid check_gc_rule_size_is_below_limit
check_gc_rule_is_valid_iff pb r = (
  λ h. (ground arith, tree_sound pb r (ground arith)),
  λ h. ground (arith, tree_complete pb r h.1),
)

-- The number of rules on the longest path down, which is the depth of the recursive calls.
unfoldable mutual
  pub depth : GcRule → ℕ
  depth (max_age d) = 1
  depth (max_num_versions n) = 1
  depth (intersection rs) = suc (depth_rules rs)
  depth (union rs) = suc (depth_rules rs)
  depth rule_not_set = 1

  pub depth_rules : Rules → ℕ
  depth_rules nil = 0
  depth_rules (cons r rs) = max (depth r) (depth_rules rs)

abbrev pub AllFit : Protobuf → ℕ → Rules → Type 0
AllFit pb size nil = Unit {0}
AllFit pb size (cons r rs) = (pb.byte_size_long r + 4 ≤ size) × AllFit pb size rs

-- The wire format: a rule inside a list of rules is wrapped by two fields, each with a tag and a
-- length of at least one byte.
pub record IsWireFormat (pb : Protobuf) : Type 0 where
  pub intersection_size : (rs : Rules) → AllFit pb (pb.byte_size_long (intersection rs)) rs
  pub union_size : (rs : Rules) → AllFit pb (pb.byte_size_long (union rs)) rs

mutual
  unfolding depth depth_rules

  depth-le :
      (pb : Protobuf) → IsWireFormat pb → (r : GcRule) → 4 * depth r ≤ pb.byte_size_long r + 4
  depth-le pb w (max_age d) = omega arith
  depth-le pb w (max_num_versions n) = omega arith
  depth-le pb w (intersection rs) =
      omega (
        arith,
        depth_rules-le pb w rs (pb.byte_size_long (intersection rs)) (w.intersection_size rs),
      )
  depth-le pb w (union rs) =
      omega (arith, depth_rules-le pb w rs (pb.byte_size_long (union rs)) (w.union_size rs))
  depth-le pb w rule_not_set = omega arith

  depth_rules-le :
      (pb : Protobuf)
      → IsWireFormat pb
      → (rs : Rules) (size : ℕ) → AllFit pb size rs
      → 4 * depth_rules rs ≤ size
  depth_rules-le pb w nil size f = omega arith
  depth_rules-le pb w (cons r rs) size f =
      omega (arith, depth-le pb w r, depth_rules-le pb w rs size f.1)

-- Where a rule in a list adds at least 4 bytes to its own in the wire format, a rule that
-- `CheckGCRuleIsValid` accepts has a depth of at most 126.
pub depth-bounded :
    (pb : Protobuf)
    → IsWireFormat pb
    → (r : GcRule) → check_gc_rule_is_valid pb r ≡ ok tt
    → depth r ≤ 126
depth-bounded pb w r h = omega (arith, depth-le pb w r, ((check_gc_rule_is_valid_iff pb r).0 h).0)
