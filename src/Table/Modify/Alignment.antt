-- ===== src/Table/Modify/Alignment.antt =====
-- Each modification keeps the names of the schema and of the column families the same.
use bigtable_emulator.Common.{
  true, false, List, some, ◌≡◌, ◌≢◌, arith, if◌then◌else◌, Option-cases, inl, inr, ◌∙◌,
}
use bigtable_emulator.Common.Bytes.{Bytes, bytes_order}
use bigtable_emulator.Status.{Status, err, internal}
use bigtable_emulator.StdMap.{find, put, erase, IsSorted}
use bigtable_emulator.StdMap.Lookup.{same, find-put, find-erase}
use bigtable_emulator.StdMap.Sorted.{put-IsSorted}
use bigtable_emulator.GcRule.{GcRule}
use bigtable_emulator.ColumnFamily.{ColumnFamily, set_gc_rule}
use bigtable_emulator.RowTransaction.{Families, change_family}
use bigtable_emulator.RowTransaction.Rollback.{same_key}
use bigtable_emulator.RowTransaction.Reverts.{has_family}
use bigtable_emulator.Table.Modify.{Object, shared, created, Progress, set_rule, is_present}

pub record Aligned (p : Progress) : Type 0 where
  pub definitions_sorted : IsSorted p.definitions
  pub families_sorted : IsSorted p.families
  pub running_sorted : IsSorted p.running
  pub same_names :
      (id : Bytes) → is_present (find id p.definitions) ≡ is_present (find id p.running)
  pub backed : (id : Bytes) → find id p.running ≡ some shared → has_family id p.families ≡ true

-- What one modification does where the names agree.
pub record Kept (result : Progress × Status) : Type 0 where
  pub aligned : Aligned result.0
  pub no_internal : result.1 ≢ err internal

pub put-is_present {ℓ} :
    {V : Type ℓ} (id k : Bytes) (v : V) (m : List (Bytes × V))
    → is_present (find id (put k v m)) ≡ (if same id k then true else is_present (find id m))
put-is_present id k v m = ground (arith, find-put id k v m)

pub erase-is_present {ℓ} :
    {V : Type ℓ} (id k : Bytes) (m : List (Bytes × V))
    → IsSorted m
    → is_present (find id (erase k m)) ≡ (if same id k then false else is_present (find id m))
erase-is_present id k m s = ground (arith, find-erase id k m s)

has_family-change_family :
    (id : Bytes) (g : ColumnFamily → ColumnFamily) (f : Bytes) (families : Families)
    → has_family f (change_family id g families) ≡ has_family f families
has_family-change_family id g f families = elim (Option-cases (find id families)) [
  | inl missing ↦ ground (arith, missing)
  | inr (cf, found) ↦ ground (arith, found, find-put f id (g cf) families, same_key f id)
]

pub change_family-IsSorted :
    (id : Bytes) (g : ColumnFamily → ColumnFamily) (families : Families)
    → IsSorted families
    → IsSorted (change_family id g families)
change_family-IsSorted id g families s = elim (Option-cases (find id families)) [
  | inl missing ↦ ground (arith, missing, s)
  | inr (cf, found) ↦ ground (arith, found, put-IsSorted id (g cf) families s)
]

pub set_rule-Aligned :
    (id : Bytes) (rule : GcRule) (object old : Object) (p : Progress)
    → find id p.running ≡ some old
    → Aligned p
    → Aligned (set_rule id rule object p)
unfolding set_rule
set_rule-Aligned id rule shared old p found a = record {
  definitions_sorted = a.definitions_sorted;
  families_sorted = change_family-IsSorted id (set_gc_rule rule) p.families a.families_sorted;
  running_sorted = a.running_sorted;
  same_names = a.same_names;
  backed = λ f h. has_family-change_family id (set_gc_rule rule) f p.families ∙ a.backed f h;
}
set_rule-Aligned id rule (created cf) old p found a = record {
  families_sorted = a.families_sorted;
  definitions_sorted = a.definitions_sorted;
  running_sorted = put-IsSorted id (created (set_gc_rule rule cf)) p.running a.running_sorted;
  same_names = λ f. ground (
    arith,
    found,
    a.same_names f,
    put-is_present f id (created (set_gc_rule rule cf)) p.running,
    same_key f id,
  );
  backed =
      λ f h. ground (arith, h, a.backed f, find-put f id (created (set_gc_rule rule cf)) p.running);
}
