-- ===== src/RowTransaction/ReadModifyWrite/Rollback.antt =====
-- A `ReadModifyWriteRow` that fails is taken back.
use bigtable_emulator.Common.{
  true, List, [], ◌∷◌, ◌≡◌, refl, ℤ, pos, leb_ℤ, ltb, arith, freshest_first, Bool-cases, inl, inr,
  ap, ◌∙◌, subst, is_empty, length,
}
use bigtable_emulator.Common.Bytes.{Bytes, bytes_order}
use bigtable_emulator.Status.{Status, StatusOr, StatusOr-cases, StatusCode, ok, err}
use bigtable_emulator.External.{BigEndian}
use bigtable_emulator.StdMap.{IsSorted}
use bigtable_emulator.StdMap.Values.{AllValues}
use bigtable_emulator.GcRule.{Protobuf}
use bigtable_emulator.ColumnRow.{ReadModifyWriteCellResult}
use bigtable_emulator.ColumnFamily.{ColumnFamily}
use bigtable_emulator.ColumnFamily.Validity.{IsValid, increment-IsValid, append-IsValid}
use bigtable_emulator.ColumnFamily.Reads.{read}
use bigtable_emulator.RowTransaction.{Families, Transaction, Context, find_column_family, undo}
use bigtable_emulator.RowTransaction.Rollback.{read_cell, find-find_column_family}
use bigtable_emulator.RowTransaction.Reverts.{undo_all-revert_all}
use bigtable_emulator.RowTransaction.Undoing.{
  AfterEpoch, Undoable, IsRecent, fresh-Undoable, cf-IsValid, unseen-Undoable, write-Undoable,
}
use bigtable_emulator.RowTransaction.Writes.{
  IsWrite, append-IsWrite, increment-IsWrite, increment-failed, ok-injective,
}
use bigtable_emulator.RowTransaction.ReadModifyWrite.{
  Rule, Operation, append_value, increment_amount, operation_not_set, Progress, apply_rule,
  apply_rules, read_modify_write, transaction_read_modify_write_row, read_modify_write_row,
  process_read_modify_write_result,
}
use bigtable_emulator.Table.{max_row_len}

module _ (pb : Protobuf) (c : Context) (be : BigEndian) where
  module _ (now : ℤ) (now_late : leb_ℤ (pos 0) now ≡ true) (family_name q : Bytes)
      (cf : ColumnFamily) where
    abbrev call : Operation → ColumnFamily × StatusOr ReadModifyWriteCellResult
    call o =
        read_modify_write c be now
          (record { family_name = family_name; column_qualifier = q; operation = o }) cf

    call-IsWrite :
        (o : Operation) (result : ReadModifyWriteCellResult)
        → (call o).1 ≡ ok result
        → IsWrite be now now_late c.row_key q cf (call o).0 result
    unfolding read_modify_write
    call-IsWrite (append_value v) result h =
        subst (λ x. IsWrite be now now_late c.row_key q cf (call (append_value v)).0 x)
          (ok-injective _ result h) (append-IsWrite be now now_late c.row_key q cf v)
    call-IsWrite (increment_amount n) result h =
        increment-IsWrite be now now_late c.row_key q cf n result h
    call-IsWrite operation_not_set result h = absurd (ground (arith, h))

    call-failed :
        (o : Operation) (code : StatusCode) (r' q' : Bytes) (t' : ℤ)
        → (call o).1 ≡ err code
        → read r' q' t' (call o).0 ≡ read r' q' t' cf
    unfolding read_modify_write
    call-failed (append_value v) code r' q' t' h = absurd (ground (arith, h))
    call-failed (increment_amount n) code r' q' t' h =
        increment-failed be now now_late c.row_key q cf n code r' q' t' h
    call-failed operation_not_set code r' q' t' h = refl

    call-IsValid : (o : Operation) → IsValid pb cf → IsValid pb (call o).0
    unfolding read_modify_write
    call-IsValid (append_value v) h = append-IsValid pb c.row_key q cf h now v
    call-IsValid (increment_amount n) h = increment-IsValid pb c.row_key q cf h be now n
    call-IsValid operation_not_set h = h

  apply_rule-Undoable :
      (now : ℤ) (rule : Rule) (start : Families) (p : Progress)
      → leb_ℤ (pos 0) now ≡ true
      → Undoable pb c start p.tx
      → Undoable pb c start (apply_rule c be now rule p).0.tx
  unfolding apply_rule process_read_modify_write_result
  apply_rule-Undoable now rule start p late u =
      elim (StatusOr-cases (find_column_family c.table_name rule.family_name p.tx.families)) [
        | inr (code, failed) ↦ rw (failed, apply_rule) u
        | inl ((key, cf), ok_cf) ↦
            let found =
              find-find_column_family c.table_name rule.family_name key cf p.tx.families ok_cf in
            elim (StatusOr-cases (read_modify_write c be now rule cf).1) [
              | inr (code, failed) ↦
                  rw (ok_cf, failed, apply_rule)
                    (unseen-Undoable pb c start p.tx u key cf found
                      (read_modify_write c be now rule cf).0 p.tx.storage_calls
                      (call-IsValid now late rule.family_name rule.column_qualifier cf
                        rule.operation (cf-IsValid pb c start p.tx u key cf found))
                      (λ r' q' t'.
                        call-failed now late rule.family_name rule.column_qualifier cf
                          rule.operation code r' q' t' failed))
              | inl (result, fine) ↦
                  let w =
                    call-IsWrite now late rule.family_name rule.column_qualifier cf rule.operation
                      result fine in
                  rw (ok_cf, fine, apply_rule)
                    (write-Undoable pb c start p.tx u key cf found rule.column_qualifier
                      result.timestamp result.value rule.family_name
                      (read_modify_write c be now rule cf).0 result.maybe_old_value
                      p.tx.storage_calls w.late w.same_family w.same_old)
            ]
      ]

  pub apply_rules-Undoable :
      (rules : List (ℤ × Rule)) (start : Families) (p : Progress)
      → AfterEpoch rules
      → Undoable pb c start p.tx
      → Undoable pb c start (apply_rules c be rules p).0.tx
  unfolding apply_rules
  apply_rules-Undoable [] start p late u = u
  apply_rules-Undoable ((now, rule) ∷ rules) start p late u =
      let v = apply_rule-Undoable now rule start p late.0 u in
      elim (StatusOr-cases (apply_rule c be now rule p).1) [
        | inr (code, failed) ↦ rw (failed, apply_rules) v
        | inl (done, fine) ↦
            rw (fine, apply_rules)
              (apply_rules-Undoable rules start (apply_rule c be now rule p).0 late.1 v)
      ]

  -- Where the column families of a table are sorted by name and valid, no cell has a time
  -- stamp before 0 and the clock never reads one, an error from `ReadModifyWriteRow`,
  -- whichever rule it comes from, leaves every cell of the column families in memory reading
  -- what it did before.
  pub read_modify_write_row-failed :
      (rules : List (ℤ × Rule)) (tx : Transaction) (code : StatusCode)
      → AfterEpoch rules
      → IsSorted tx.families
      → AllValues (IsValid pb) tx.families
      → IsRecent tx.families
      → (read_modify_write_row c be rules tx).1 ≡ err code
      → (f r q : Bytes) (t : ℤ)
      → read_cell f r q t (read_modify_write_row c be rules tx).0.families
        ≡ read_cell f r q t tx.families
  unfolding read_modify_write_row transaction_read_modify_write_row undo
  read_modify_write_row-failed rules tx code late s h early failed f r q t =
      elim (Bool-cases (ltb max_row_len (length c.row_key))) [
        | inl long ↦ ground (arith, long)
        | inr short ↦ elim (Bool-cases (is_empty c.row_key)) [
          | inl no_key ↦ ground (arith, short, no_key)
          | inr some_key ↦ elim (StatusOr-cases done.1) [
            | inl (u, fine) ↦ absurd (ground (arith, short, some_key, fine, failed))
            | inr (e, bad) ↦ ground (arith, short, some_key, bad, undone)
          ]
        ]
      ]
    where
      done : Progress × Status
      done = apply_rules c be rules (record { tx = record tx { undo_log = [] }; tmp_families = [] })

      undoable : Undoable pb c tx.families done.0.tx
      undoable =
          apply_rules-Undoable rules tx.families _ late
            (fresh-Undoable pb c tx.families tx.storage_calls s h early)

      undone : read_cell f r q t (undo c done.0.tx).families ≡ read_cell f r q t tx.families
      undone =
          ap (λ x. read_cell f r q t x)
            (undo_all-revert_all pb c done.0.tx.undo_log (record done.0.tx { undo_log = [] }))
          ∙ undoable.back.reads f r q t
