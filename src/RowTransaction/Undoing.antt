-- ===== src/RowTransaction/Undoing.antt =====
-- A transaction whose undo log leads back to the table as it was at the start, and what keeps it so:
-- a write with its entry, a change that no reader sees, and a deletion with its entries.
use bigtable_emulator.Common.{
  leb_ℤ, pos, true, false, List, [], ◌∷◌, Option, none, some, ◌≡◌, refl, ℤ, arith, freshest_first,
  ◌∙◌, subst,
}
use bigtable_emulator.Common.Bytes.{Bytes, bytes_order}
use bigtable_emulator.StdMap.{find, put, IsSorted}
use bigtable_emulator.StdMap.Sorted.{put-IsSorted}
use bigtable_emulator.StdMap.Lookup.{find-put}
use bigtable_emulator.StdMap.Values.{AllValues, AllValues-find, AllValues-put}
use bigtable_emulator.GcRule.{Protobuf}
use bigtable_emulator.ColumnRow.{unbounded}
use bigtable_emulator.ColumnRow.Deletion.{in_time_range}
use bigtable_emulator.ColumnFamily
use bigtable_emulator.ColumnFamily.{ColumnFamily}
use bigtable_emulator.ColumnFamily.Validity.{IsValid, set_cell-IsValid}
use bigtable_emulator.ColumnFamily.Reads.{read, read-set_cell}
use bigtable_emulator.RowTransaction.{
  Families, Transaction, Context, StorageCall, undo_write, change_family,
}
use bigtable_emulator.RowTransaction.Rollback.{
  read_cell, same_key, read_cell-changed, read-undo_new, read-undo_old,
}
use bigtable_emulator.RowTransaction.Reverts.{
  Alike, revert, revert_all, has-change_family, revert-AllValid, revert_all-Alike,
}

pub Alike-trans : (a b d : Families) → Alike a b → Alike b d → Alike a d
Alike-trans a b d k l = record {
  has = λ f. k.has f ∙ l.has f;
  reads = λ f r q t. k.reads f r q t ∙ l.reads f r q t;
}

-- Every reading of the clock is at or after the epoch.
abbrev pub AfterEpoch {ℓ} : {A : Type ℓ} → List (ℤ × A) → Type 0
AfterEpoch [] = Unit {0}
AfterEpoch ((now, step) ∷ steps) = (leb_ℤ (pos 0) now ≡ true) × AfterEpoch steps

-- No cell has a time stamp before 0, where the deletion of a whole row does not look.
abbrev pub IsRecent : Families → Type 0
IsRecent families =
    (f r q : Bytes) (t : ℤ) → in_time_range unbounded t ≡ false → read_cell f r q t families ≡ none

module _ (pb : Protobuf) (c : Context) where
  pub record Undoable (start : Families) (tx : Transaction) : Type 0 where
    pub sorted : IsSorted tx.families
    pub valid : AllValues (IsValid pb) tx.families
    pub recent : IsRecent tx.families
    pub back : Alike (revert_all pb c tx.undo_log tx.families) start

  pub fresh-Undoable :
      (families : Families) (calls : List StorageCall)
      → IsSorted families
      → AllValues (IsValid pb) families
      → IsRecent families
      → Undoable families (record { families = families; undo_log = []; storage_calls = calls })
  fresh-Undoable families calls s h early = record {
    sorted = s;
    valid = h;
    recent = early;
    back = record { has = λ f. refl; reads = λ f r q t. refl };
  }

  module _ (start : Families) (tx : Transaction) (u : Undoable start tx) (key : Bytes)
      (cf : ColumnFamily) (found : find key tx.families ≡ some cf) where
    pub cf-IsValid : IsValid pb cf
    cf-IsValid = AllValues-find (IsValid pb) key cf tx.families u.valid found

    -- Two changes of the family, the second of which takes the first back.
    changed-Alike :
        (cf' : ColumnFamily) (g : ColumnFamily → ColumnFamily)
        → ((r q : Bytes) (t : ℤ) → read r q t (g cf') ≡ read r q t cf)
        → Alike (change_family key g (put key cf' tx.families)) tx.families
    changed-Alike cf' g h = record {
      has = λ f. ground (
        arith,
        found,
        has-change_family pb c f key g (put key cf' tx.families),
        find-put f key cf' tx.families,
        same_key f key,
      );
      reads = λ f r q t. read_cell-changed f r q t key g cf cf' tx.families found (h r q t);
    }

    put-Alike :
        (cf' : ColumnFamily)
        → ((r q : Bytes) (t : ℤ) → read r q t cf' ≡ read r q t cf)
        → Alike (put key cf' tx.families) tx.families
    put-Alike cf' h = record {
      has = λ f. ground (arith, found, find-put f key cf' tx.families, same_key f key);
      reads =
          λ f r q t. ground (arith, found, find-put f key cf' tx.families, same_key f key, h r q t);
    }

    -- A change that no reader sees needs no entry.
    pub unseen-Undoable :
        (cf' : ColumnFamily) (calls : List StorageCall)
        → IsValid pb cf'
        → ((r q : Bytes) (t : ℤ) → read r q t cf' ≡ read r q t cf)
        → Undoable start (record {
          families = put key cf' tx.families;
          undo_log = tx.undo_log;
          storage_calls = calls;
        })
    unseen-Undoable cf' calls v h =
        let after = AllValues-put (IsValid pb) key cf' tx.families v u.valid in
        record {
          sorted = put-IsSorted key cf' tx.families u.sorted;
          valid = after;
          recent = λ f r q t early. (put-Alike cf' h).reads f r q t ∙ u.recent f r q t early;
          back =
              Alike-trans _ (revert_all pb c tx.undo_log tx.families) start
                (revert_all-Alike pb c tx.undo_log (put key cf' tx.families) tx.families after
                  u.valid (put-Alike cf' h))
                u.back;
        }

    module _ (q : Bytes) (t : ℤ) (v : Bytes) where
      abbrev pub written : ColumnFamily × Option Bytes
      written = ColumnFamily.set_cell c.row_key q t v cf

      -- The entry for the value that was found takes the write back.
      entry-Alike :
          (name : Bytes) (old : Option Bytes)
          → written.1 ≡ old
          → Alike
              (revert pb c (undo_write key name q t old) (put key written.0 tx.families))
              tx.families
      unfolding undo_write
      entry-Alike name none e =
          changed-Alike written.0 _
            (λ r q' t'. read-undo_new pb c.row_key q t v cf cf-IsValid r q' t' e)
      entry-Alike name (some old) e =
          changed-Alike written.0 _
            (λ r q' t'. read-undo_old pb c.row_key q t v cf cf-IsValid r q' t' old e)

      write-IsRecent : in_time_range unbounded t ≡ true → IsRecent (put key written.0 tx.families)
      write-IsRecent late f r q' t' early = ground (
        arith,
        found,
        find-put f key written.0 tx.families,
        same_key f key,
        read-set_cell r q' t' c.row_key q t v cf,
        freshest_first.less_connex t' t,
        u.recent f r q' t',
      )

      pub write-Undoable :
          (name : Bytes) (cf' : ColumnFamily) (old : Option Bytes) (calls : List StorageCall)
          → in_time_range unbounded t ≡ true
          → written.0 ≡ cf'
          → written.1 ≡ old
          → Undoable start (record {
            families = put key cf' tx.families;
            undo_log = undo_write key name q t old ∷ tx.undo_log;
            storage_calls = calls;
          })
      write-Undoable name cf' old calls late e h =
          let after =
            AllValues-put (IsValid pb) key written.0 tx.families
              (set_cell-IsValid pb c.row_key q cf cf-IsValid t v) u.valid in
          subst
            (λ x. Undoable start (record {
              families = put key x tx.families;
              undo_log = undo_write key name q t old ∷ tx.undo_log;
              storage_calls = calls;
            }))
            e
            (record {
              sorted = put-IsSorted key written.0 tx.families u.sorted;
              valid = after;
              recent = write-IsRecent late;
              back =
                  Alike-trans _ (revert_all pb c tx.undo_log tx.families) start
                    (revert_all-Alike pb c tx.undo_log _ tx.families
                      (revert-AllValid pb c (undo_write key name q t old) _ after) u.valid
                      (entry-Alike name old h))
                    u.back;
            })
