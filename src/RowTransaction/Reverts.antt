-- ===== src/RowTransaction/Reverts.antt =====
-- What the rollback of row transactions does to the reads of a table, entry by entry.
use bigtable_emulator.Common.{
  Bool, true, false, ◌&&◌, List, [], ◌∷◌, none, some, ◌≡◌, refl, ℤ, arith, if◌then◌else◌,
  freshest_first, Option-cases, inl, inr, sym, subst,
}
use bigtable_emulator.Common.Bytes.{Bytes, bytes_order}
use bigtable_emulator.StdMap.{find, put}
use bigtable_emulator.StdMap.Lookup.{same, find-put}
use bigtable_emulator.StdMap.Values.{AllValues, AllValues-find, AllValues-put}
use bigtable_emulator.GcRule.{Protobuf}
use bigtable_emulator.ColumnFamilyRow.Reads.{same_cell}
use bigtable_emulator.ColumnFamily
use bigtable_emulator.ColumnFamily.{ColumnFamily}
use bigtable_emulator.ColumnFamily.Validity.{IsValid, set_cell-IsValid, delete_time_stamp-IsValid}
use bigtable_emulator.ColumnFamily.Reads.{read-set_cell, read-delete_time_stamp}
use bigtable_emulator.RowTransaction.{
  Families, Transaction, Context, UndoEntry, restore_value, delete_value, undo_entry, undo_all,
  change_family,
}
use bigtable_emulator.RowTransaction.Rollback.{read_cell, same_key}

abbrev pub has_family : Bytes → Families → Bool
has_family f families = elim (find f families) [ none ↦ false | some cf ↦ true ]

-- Tables with the same families that read the same.
pub record Alike (a b : Families) : Type 0 where
  pub has : (f : Bytes) → has_family f a ≡ has_family f b
  pub reads : (f r q : Bytes) (t : ℤ) → read_cell f r q t a ≡ read_cell f r q t b

module _ (pb : Protobuf) (c : Context) where
  abbrev pub revert : UndoEntry → Families → Families
  revert (restore_value key q t old) families =
      change_family key (λ cf. (ColumnFamily.set_cell c.row_key q t old cf).0) families
  revert (delete_value key name q t) families =
      change_family key (λ cf. (ColumnFamily.delete_time_stamp c.row_key q t cf).0) families

  abbrev pub revert_all : List UndoEntry → Families → Families
  revert_all [] families = families
  revert_all (e ∷ log) families = revert_all log (revert e families)

  pub undo_all-revert_all :
      (log : List UndoEntry) (tx : Transaction)
      → (undo_all c log tx).families ≡ revert_all log tx.families
  unfolding undo_all undo_entry
  undo_all-revert_all [] tx = refl
  undo_all-revert_all (restore_value key q t old ∷ log) tx =
      undo_all-revert_all log (undo_entry c (restore_value key q t old) tx)
  undo_all-revert_all (delete_value key name q t ∷ log) tx =
      undo_all-revert_all log (undo_entry c (delete_value key name q t) tx)

  pub has-change_family :
      (f key : Bytes) (g : ColumnFamily → ColumnFamily) (families : Families)
      → has_family f (change_family key g families) ≡ has_family f families
  has-change_family f key g families = elim (Option-cases (find key families)) [
    | inl missing ↦ ground (arith, missing)
    | inr (cf, found) ↦ ground (arith, found, find-put f key (g cf) families, same_key f key)
  ]

  change_family-missing :
      (key : Bytes) (g : ColumnFamily → ColumnFamily) (families : Families)
      → find key families ≡ none
      → change_family key g families ≡ families
  change_family-missing key g families e = ground (arith, e)

  change_family-found :
      (key : Bytes) (g : ColumnFamily → ColumnFamily) (cf : ColumnFamily) (families : Families)
      → find key families ≡ some cf
      → change_family key g families ≡ put key (g cf) families
  change_family-found key g cf families e = ground (arith, e)

  change_family-AllValid :
      (key : Bytes) (g : ColumnFamily → ColumnFamily) (families : Families)
      → ((cf : ColumnFamily) → IsValid pb cf → IsValid pb (g cf))
      → AllValues (IsValid pb) families
      → AllValues (IsValid pb) (change_family key g families)
  change_family-AllValid key g families keeps h = elim (Option-cases (find key families)) [
    | inl missing ↦
        subst (λ x. AllValues (IsValid pb) x) (sym (change_family-missing key g families missing)) h
    | inr (cf, found) ↦
        subst (λ x. AllValues (IsValid pb) x) (sym (change_family-found key g cf families found))
          (AllValues-put (IsValid pb) key (g cf) families
            (keeps cf (AllValues-find (IsValid pb) key cf families h found)) h)
  ]

  pub revert-AllValid :
      (e : UndoEntry) (families : Families)
      → AllValues (IsValid pb) families
      → AllValues (IsValid pb) (revert e families)
  revert-AllValid (restore_value key q t old) families h =
      change_family-AllValid key _ families (λ cf v. set_cell-IsValid pb c.row_key q cf v t old) h
  revert-AllValid (delete_value key name q t) families h =
      change_family-AllValid key _ families
        (λ cf v. delete_time_stamp-IsValid pb c.row_key q cf v t) h

  pub read-restore_value :
      (f r q : Bytes) (t : ℤ) (key q' : Bytes) (t' : ℤ) (old : Bytes) (families : Families)
      → read_cell f r q t (revert (restore_value key q' t' old) families) ≡ (
          if has_family key families && (same f key && (same r c.row_key && same_cell q t q' t'))
          then some old
          else read_cell f r q t families)
  read-restore_value f r q t key q' t' old families = elim (Option-cases (find key families)) [
    | inl missing ↦ ground (arith, missing)
    | inr (cf, found) ↦ ground (
      arith,
      found,
      find-put f key (ColumnFamily.set_cell c.row_key q' t' old cf).0 families,
      read-set_cell r q t c.row_key q' t' old cf,
      same_key f key,
    )
  ]

  read-delete_value :
      (f r q : Bytes) (t : ℤ) (key name q' : Bytes) (t' : ℤ) (families : Families)
      → AllValues (IsValid pb) families
      → read_cell f r q t (revert (delete_value key name q' t') families) ≡ (
          if has_family key families && (same f key && (same r c.row_key && same_cell q t q' t'))
          then none
          else read_cell f r q t families)
  read-delete_value f r q t key name q' t' families h = elim (Option-cases (find key families)) [
    | inl missing ↦ ground (arith, missing)
    | inr (cf, found) ↦ ground (
      arith,
      found,
      find-put f key (ColumnFamily.delete_time_stamp c.row_key q' t' cf).0 families,
      read-delete_time_stamp pb cf (AllValues-find (IsValid pb) key cf families h found) r q t
          c.row_key q' t',
      same_key f key,
    )
  ]

  revert-Alike :
      (e : UndoEntry) (a b : Families)
      → AllValues (IsValid pb) a
      → AllValues (IsValid pb) b
      → Alike a b
      → Alike (revert e a) (revert e b)
  revert-Alike (restore_value key q' t' old) a b va vb l = record {
    has = λ f. ground (
      arith,
      l.has f,
      has-change_family f key (λ cf. (ColumnFamily.set_cell c.row_key q' t' old cf).0) a,
      has-change_family f key (λ cf. (ColumnFamily.set_cell c.row_key q' t' old cf).0) b,
    );
    reads = λ f r q t. ground (
      arith,
      read-restore_value f r q t key q' t' old a,
      read-restore_value f r q t key q' t' old b,
      l.has key,
      l.reads f r q t,
    );
  }
  revert-Alike (delete_value key name q' t') a b va vb l = record {
    has = λ f. ground (
      arith,
      l.has f,
      has-change_family f key (λ cf. (ColumnFamily.delete_time_stamp c.row_key q' t' cf).0) a,
      has-change_family f key (λ cf. (ColumnFamily.delete_time_stamp c.row_key q' t' cf).0) b,
    );
    reads = λ f r q t. ground (
      arith,
      read-delete_value f r q t key name q' t' a va,
      read-delete_value f r q t key name q' t' b vb,
      l.has key,
      l.reads f r q t,
    );
  }

  pub revert_all-Alike :
      (log : List UndoEntry) (a b : Families)
      → AllValues (IsValid pb) a
      → AllValues (IsValid pb) b
      → Alike a b
      → Alike (revert_all log a) (revert_all log b)
  revert_all-Alike [] a b va vb l = l
  revert_all-Alike (e ∷ log) a b va vb l =
      revert_all-Alike log (revert e a) (revert e b) (revert-AllValid e a va)
        (revert-AllValid e b vb) (revert-Alike e a b va vb l)
