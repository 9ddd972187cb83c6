-- ===== src/Table/Requests/WellFormed.antt =====
-- What a table keeps of its column families, and the rollbacks that keep it.
use bigtable_emulator.Common.{
  List, [], ◌∷◌, ◌≡◌, refl, ℤ, ltb, arith, is_empty, length, ◌⊎◌, Bool-cases, inl, inr, sym, ◌∙◌,
  subst,
}
use bigtable_emulator.Common.Bytes.{Bytes, bytes_order}
use bigtable_emulator.Status.{Status, StatusOr-cases}
use bigtable_emulator.External.{BigEndian}
use bigtable_emulator.StdMap.{IsSorted}
use bigtable_emulator.StdMap.Values.{AllValues}
use bigtable_emulator.GcRule.{Protobuf}
use bigtable_emulator.ColumnFamily.Validity.{IsValid}
use bigtable_emulator.RowTransaction.{
  Families, Transaction, Context, UndoEntry, restore_value, delete_value, undo,
}
use bigtable_emulator.RowTransaction.Reverts.{
  has_family, has-change_family, revert, revert_all, undo_all-revert_all, revert-AllValid,
}
use bigtable_emulator.RowTransaction.Undoing.{AfterEpoch, IsRecent, Undoable, fresh-Undoable}
use bigtable_emulator.RowTransaction.ReadModifyWrite.{
  Rule, Progress, apply_rules, read_modify_write_row, transaction_read_modify_write_row,
}
use bigtable_emulator.RowTransaction.ReadModifyWrite.Rollback.{apply_rules-Undoable}
use bigtable_emulator.Table.{
  Mutation, do_mutations, do_mutations_with_possible_rollback, max_row_len,
}
use bigtable_emulator.Table.Atomicity.{do_mutations-Undoable}
use bigtable_emulator.Table.Modify.Alignment.{change_family-IsSorted}

pub record IsWellFormed (pb : Protobuf) (families : Families) : Type 0 where
  pub sorted : IsSorted families
  pub valid : AllValues (IsValid pb) families
  pub recent : IsRecent families

-- Well-formed column families with the names of others.
pub record IsKept (pb : Protobuf) (start families : Families) : Type 0 where
  pub well_formed : IsWellFormed pb families
  pub same_names : (f : Bytes) → has_family f families ≡ has_family f start

module _ (pb : Protobuf) (c : Context) where
  has-revert :
      (f : Bytes) (e : UndoEntry) (families : Families)
      → has_family f (revert pb c e families) ≡ has_family f families
  has-revert f (restore_value key q t old) families = has-change_family pb c f key _ families
  has-revert f (delete_value key name q t) families = has-change_family pb c f key _ families

  has-revert_all :
      (f : Bytes) (log : List UndoEntry) (families : Families)
      → has_family f (revert_all pb c log families) ≡ has_family f families
  has-revert_all f [] families = refl
  has-revert_all f (e ∷ log) families =
      has-revert_all f log (revert pb c e families) ∙ has-revert f e families

  revert-IsSorted :
      (e : UndoEntry) (families : Families) → IsSorted families → IsSorted (revert pb c e families)
  revert-IsSorted (restore_value key q t old) families s = change_family-IsSorted key _ families s
  revert-IsSorted (delete_value key name q t) families s = change_family-IsSorted key _ families s

  revert_all-IsSorted :
      (log : List UndoEntry) (families : Families)
      → IsSorted families
      → IsSorted (revert_all pb c log families)
  revert_all-IsSorted [] families s = s
  revert_all-IsSorted (e ∷ log) families s =
      revert_all-IsSorted log (revert pb c e families) (revert-IsSorted e families s)

  revert_all-AllValid :
      (log : List UndoEntry) (families : Families)
      → AllValues (IsValid pb) families
      → AllValues (IsValid pb) (revert_all pb c log families)
  revert_all-AllValid [] families h = h
  revert_all-AllValid (e ∷ log) families h =
      revert_all-AllValid log (revert pb c e families) (revert-AllValid pb c e families h)

  module _ (start : Families) (w : IsWellFormed pb start) (tx : Transaction)
      (u : Undoable pb c start tx) where
    pub committed-IsKept : IsKept pb start tx.families
    committed-IsKept = record {
      well_formed = record { sorted = u.sorted; valid = u.valid; recent = u.recent };
      same_names = λ f. sym (has-revert_all f tx.undo_log tx.families) ∙ u.back.has f;
    }

    reverted-IsKept : IsKept pb start (revert_all pb c tx.undo_log tx.families)
    reverted-IsKept = record {
      well_formed = record {
        sorted = revert_all-IsSorted tx.undo_log tx.families u.sorted;
        valid = revert_all-AllValid tx.undo_log tx.families u.valid;
        recent = λ f r q t early. u.back.reads f r q t ∙ w.recent f r q t early;
      };
      same_names = u.back.has;
    }

    pub undone-IsKept : IsKept pb start (undo c tx).families
    unfolding undo
    undone-IsKept =
        subst (λ x. IsKept pb start x)
          (sym (undo_all-revert_all pb c tx.undo_log (record tx { undo_log = [] }))) reverted-IsKept

  pub same-IsKept : (start : Families) → IsWellFormed pb start → IsKept pb start start
  same-IsKept start w = record { well_formed = w; same_names = λ f. refl }

  module _ (be : BigEndian) (start : Families) (w : IsWellFormed pb start) where
    abbrev fresh_start : Transaction
    fresh_start = record { families = start; undo_log = []; storage_calls = [] }

    pub do_mutations_with_possible_rollback-IsKept :
        (mutations : List (ℤ × Mutation))
        → AfterEpoch mutations
        → IsKept pb start
            (do_mutations_with_possible_rollback c be mutations fresh_start).0.families
    unfolding do_mutations_with_possible_rollback
    do_mutations_with_possible_rollback-IsKept mutations late =
        elim (Bool-cases (ltb max_row_len (length c.row_key))) [
          | inl long ↦ rw (long, do_mutations_with_possible_rollback) (same-IsKept start w)
          | inr short ↦ elim (StatusOr-cases done.1) [
            | inl (v, fine) ↦
                rw (short, fine, do_mutations_with_possible_rollback)
                  (committed-IsKept start w done.0 undoable)
            | inr (e, bad) ↦
                rw (short, bad, do_mutations_with_possible_rollback)
                  (undone-IsKept start w done.0 undoable)
          ]
        ]
      where
        done : Transaction × Status
        done = do_mutations c be mutations fresh_start

        undoable : Undoable pb c start done.0
        undoable =
            do_mutations-Undoable pb c be start mutations fresh_start late
              (fresh-Undoable pb c start [] w.sorted w.valid w.recent)

    transaction-IsKept :
        (rules : List (ℤ × Rule)) (families : Families)
        → AfterEpoch rules
        → ((families ≡ start)
            ⊎ ((families
                  ≡ (apply_rules c be rules
                      (record { tx = fresh_start; tmp_families = [] })).0.tx.families)
                ⊎ (families
                    ≡ (undo c
                        (apply_rules c be rules
                          (record { tx = fresh_start; tmp_families = [] })).0.tx).families)))
        → IsKept pb start families
    transaction-IsKept rules families late cases = elim cases [
      | inl same ↦ subst (λ x. IsKept pb start x) (sym same) (same-IsKept start w)
      | inr (inl committed) ↦
          subst (λ x. IsKept pb start x) (sym committed)
            (committed-IsKept start w done.0.tx undoable)
      | inr (inr undone) ↦
          subst (λ x. IsKept pb start x) (sym undone) (undone-IsKept start w done.0.tx undoable)
    ]
      where
        done : Progress × Status
        done = apply_rules c be rules (record { tx = fresh_start; tmp_families = [] })

        undoable : Undoable pb c start done.0.tx
        undoable =
            apply_rules-Undoable pb c be rules start
              (record { tx = fresh_start; tmp_families = [] }) late
              (fresh-Undoable pb c start [] w.sorted w.valid w.recent)

    pub read_modify_write_row-IsKept :
        (rules : List (ℤ × Rule))
        → AfterEpoch rules
        → IsKept pb start (read_modify_write_row c be rules fresh_start).0.families
    unfolding read_modify_write_row transaction_read_modify_write_row undo
    read_modify_write_row-IsKept rules late =
        transaction-IsKept rules _ late (elim (Bool-cases (ltb max_row_len (length c.row_key))) [
          | inl long ↦ inl (ground (arith, long))
          | inr short ↦ elim (Bool-cases (is_empty c.row_key)) [
            | inl no_key ↦ inl (ground (arith, short, no_key))
            | inr some_key ↦
                elim (StatusOr-cases
                  (apply_rules c be rules (record { tx = fresh_start; tmp_families = [] })).1) [
                    | inl (u, fine) ↦ inr (inl (ground (arith, short, some_key, fine)))
                    | inr (e, bad) ↦ inr (inr (ground (arith, short, some_key, bad)))
                  ]
          ]
        ])
