-- ===== src/ColumnFamily/History.antt =====
-- Any sequence of calls on a column family, from its construction on.
use bigtable_emulator.Common.{
  List, [], ◌∷◌, Option, none, some, ◌≡◌, sym, subst, ◌∙◌, ℤ, arith, inl, inr, All,
}
use bigtable_emulator.Common.Bytes.{Bytes, bytes_order}
use bigtable_emulator.StdMap.Values.{AllValues}
use bigtable_emulator.Status.{ok, StatusOr-cases}
use bigtable_emulator.External.{BigEndian}
use bigtable_emulator.StdMap.{IsSorted}
use bigtable_emulator.ColumnRow.{TimestampRange}
use bigtable_emulator.GcRule.{GcRule, Protobuf, check_gc_rule_is_valid}
use bigtable_emulator.ColumnFamily
use bigtable_emulator.ColumnFamily.{
  ColumnFamily, ValueType, set_value_type, set_valid_gc_rule, construct_column_family, aggregate,
  sum, min, max, other_aggregator, other_type, empty,
}
use bigtable_emulator.ColumnFamily.Validity.{
  IsValid, IsFilled, set_cell-IsValid, update_cell-IsValid, increment-IsValid, append-IsValid,
  delete_row-IsValid, delete_column-IsValid, delete_time_stamp-IsValid, run_gc-IsValid,
  clear-IsValid,
}

-- A call of a method, with the clock's reading where the method takes it.
pub data Call : Type 0 where
  set_cell : Bytes → Bytes → ℤ → Bytes → Call
  update_cell : Bytes → Bytes → ℤ → Bytes → Call
  increment : ℤ → Bytes → Bytes → ℤ → Call
  append : ℤ → Bytes → Bytes → Bytes → Call
  delete_row : Bytes → Call
  delete_column : Bytes → Bytes → TimestampRange → Call
  delete_time_stamp : Bytes → Bytes → ℤ → Call
  run_gc : ℤ → Call
  clear : Call
  set_gc_rule : GcRule → Call

module _ (pb : Protobuf) (be : BigEndian) where
  unfoldable pub step : Call → ColumnFamily → ColumnFamily
  step (set_cell r q t v) cf = (ColumnFamily.set_cell r q t v cf).0
  step (update_cell r q t v) cf = (ColumnFamily.update_cell be r q t v cf).0
  step (increment now r q n) cf = (ColumnFamily.increment be now r q n cf).0
  step (append now r q v) cf = (ColumnFamily.append now r q v cf).0
  step (delete_row r) cf = (ColumnFamily.delete_row r cf).0
  step (delete_column r q range) cf = (ColumnFamily.delete_column r q range cf).0
  step (delete_time_stamp r q t) cf = (ColumnFamily.delete_time_stamp r q t cf).0
  step (run_gc now) cf = ColumnFamily.run_gc pb now cf
  step clear cf = ColumnFamily.clear cf
  step (set_gc_rule rule) cf = ColumnFamily.set_gc_rule rule cf

  unfoldable pub run : List Call → ColumnFamily → ColumnFamily
  run [] cf = cf
  run (c ∷ calls) cf = run calls (step c cf)

  -- `SetGCRule` stores any rule: its callers check it before.
  abbrev pub IsChecked : Call → Type 0
  IsChecked (set_gc_rule rule) = check_gc_rule_is_valid pb rule ≡ ok tt
  IsChecked _ = Unit {0}

  set_gc_rule-IsValid :
      (rule : GcRule) (cf : ColumnFamily)
      → check_gc_rule_is_valid pb rule ≡ ok tt
      → IsValid pb cf
      → IsValid pb (ColumnFamily.set_gc_rule rule cf)
  unfolding ColumnFamily.set_gc_rule
  set_gc_rule-IsValid rule cf checked h = record {
    sorted = h.sorted;
    filled = h.filled;
    checked = λ other e.
        subst (λ x. check_gc_rule_is_valid pb x ≡ ok tt) (let same : rule ≡ other = cc in same)
          checked;
  }

  step-IsValid :
      (c : Call) (cf : ColumnFamily) → IsChecked c → IsValid pb cf → IsValid pb (step c cf)
  unfolding step
  step-IsValid (set_cell r q t v) cf k h = set_cell-IsValid pb r q cf h t v
  step-IsValid (update_cell r q t v) cf k h = update_cell-IsValid pb r q cf h be t v
  step-IsValid (increment now r q n) cf k h = increment-IsValid pb r q cf h be now n
  step-IsValid (append now r q v) cf k h = append-IsValid pb r q cf h now v
  step-IsValid (delete_row r) cf k h = delete_row-IsValid pb r cf h
  step-IsValid (delete_column r q range) cf k h = delete_column-IsValid pb r q cf h range
  step-IsValid (delete_time_stamp r q t) cf k h = delete_time_stamp-IsValid pb r q cf h t
  step-IsValid (run_gc now) cf k h = run_gc-IsValid pb now cf h
  step-IsValid clear cf k h = clear-IsValid pb cf h
  step-IsValid (set_gc_rule rule) cf k h = set_gc_rule-IsValid rule cf k h

  run-IsValid :
      (calls : List Call) (cf : ColumnFamily)
      → All IsChecked calls
      → IsValid pb cf
      → IsValid pb (run calls cf)
  unfolding run
  run-IsValid [] cf k h = h
  run-IsValid (c ∷ calls) cf k h = run-IsValid calls (step c cf) k.1 (step-IsValid c cf k.0 h)

  no_rows-IsValid :
      (cf : ColumnFamily)
      → cf.rows ≡ []
      → ((rule : GcRule) → cf.gc_rule ≡ some rule → check_gc_rule_is_valid pb rule ≡ ok tt)
      → IsValid pb cf
  no_rows-IsValid cf no_rows checked = record {
    sorted = subst (λ rows. IsSorted rows) (sym no_rows) tt;
    filled = subst (AllValues IsFilled) (sym no_rows) tt;
    checked = checked;
  }

  set_value_type-empty :
      (value_type : Option ValueType) (cf : ColumnFamily)
      → set_value_type value_type empty ≡ ok cf
      → (cf.rows ≡ []) × (cf.gc_rule ≡ none)
  unfolding set_value_type
  set_value_type-empty none cf h = ground arith
  set_value_type-empty (some (aggregate sum)) cf h = ground arith
  set_value_type-empty (some (aggregate min)) cf h = ground arith
  set_value_type-empty (some (aggregate max)) cf h = ground arith
  set_value_type-empty (some (aggregate other_aggregator)) cf h = ground arith
  set_value_type-empty (some other_type) cf h = ground arith

  set_valid_gc_rule-checked :
      (gc_rule : Option GcRule) (start cf : ColumnFamily)
      → start.gc_rule ≡ none
      → set_valid_gc_rule pb gc_rule start ≡ ok cf
      → (cf.rows ≡ start.rows)
        × ((rule : GcRule) → cf.gc_rule ≡ some rule → check_gc_rule_is_valid pb rule ≡ ok tt)
  unfolding set_valid_gc_rule
  set_valid_gc_rule-checked none start cf fresh h = (ground arith, λ rule e. ground arith)
  set_valid_gc_rule-checked (some rule) start cf fresh h =
      elim (StatusOr-cases (check_gc_rule_is_valid pb rule)) [
        | inl (u, e) ↦
            let stored : record start { gc_rule = some rule } ≡ cf = ground arith in
            (
              ground arith,
              λ other f.
                  subst (λ x. check_gc_rule_is_valid pb x ≡ ok tt)
                    (let same : rule ≡ other = ground arith in same) e,
            )
        | inr (code, e) ↦ absurd (ground arith)
      ]

  constructed-IsValid :
      (value_type : Option ValueType) (gc_rule : Option GcRule) (cf : ColumnFamily)
      → construct_column_family pb value_type gc_rule ≡ ok cf
      → IsValid pb cf
  unfolding construct_column_family
  constructed-IsValid value_type gc_rule cf h =
      elim (StatusOr-cases (set_value_type value_type empty)) [
        | inl (start, e) ↦
            let fresh = set_value_type-empty value_type start e in
            let (rows, checked) =
              set_valid_gc_rule-checked gc_rule start cf fresh.1
                (rw (e, construct_column_family) at h) in
            no_rows-IsValid cf (rows ∙ fresh.0) checked
        | inr (code, e) ↦ absurd (let f = rw (e, construct_column_family) at h in ground arith)
      ]

  -- Whatever sequence of calls is made on a column family that `ConstructColumnFamily`
  -- returned, where the validation accepts each rule that `SetGCRule` is given, its maps stay
  -- sorted, no row and no column is left empty, and its garbage collection rule, if any, is
  -- one that the validation accepts.
  pub run-construct_column_family :
      (value_type : Option ValueType) (gc_rule : Option GcRule) (cf : ColumnFamily)
      (calls : List Call)
      → All IsChecked calls
      → construct_column_family pb value_type gc_rule ≡ ok cf
      → IsValid pb (run calls cf)
  run-construct_column_family value_type gc_rule cf calls k h =
      run-IsValid calls cf k (constructed-IsValid value_type gc_rule cf h)
