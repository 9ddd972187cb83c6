-- ===== src/Table/Requests/Rows.antt =====
-- `DropRowRange` keeps the column families well-formed.
use bigtable_emulator.Common.{Bool, not, List, [], ◌∷◌, ◌≡◌, refl, arith, keep, subst, sym}
use bigtable_emulator.Common.Bytes.{Bytes, bytes_order}
use bigtable_emulator.StdMap.{find, AllAfter, IsSorted}
use bigtable_emulator.StdMap.Keep.{keep-IsSorted}
use bigtable_emulator.StdMap.Values.{AllValues}
use bigtable_emulator.GcRule.{Protobuf}
use bigtable_emulator.ColumnFamily.{ColumnFamily}
use bigtable_emulator.ColumnFamily.Validity.{IsValid, IsFilled, clear-IsValid}
use bigtable_emulator.RowTransaction.{Families}
use bigtable_emulator.RowTransaction.Reverts.{has_family}
use bigtable_emulator.Table.Drop.{
  Target, row_key_prefix, delete_all_data_from_table, target_not_set, starts_with, drop_rows,
  clear_all, drop_rows_everywhere, drop_row_range,
}
use bigtable_emulator.Table.Drop.Prefix.{drop_rows_lem, read_cell-drop_row_range}
use bigtable_emulator.Table.Requests.WellFormed.{IsWellFormed, IsKept}

AllValues-keep {ℓ} :
    {V : Type ℓ} (P : V → Type 0) (p : Bytes → Bool) (m : List (Bytes × V))
    → AllValues P m
    → AllValues P (keep (λ e. p e.0) m)
AllValues-keep P p [] h = tt
AllValues-keep P p ((k, v) ∷ m) h = ground (arith, h.0, AllValues-keep P p m h.1)

module _ (pb : Protobuf) where
  dropped-IsValid :
      (prefix : Bytes) (cf : ColumnFamily)
      → IsValid pb cf
      → IsValid pb (record cf { rows = drop_rows prefix cf.rows })
  dropped-IsValid prefix cf h =
      let e = sym (drop_rows_lem prefix cf.rows h.sorted) in
      record {
        sorted =
            subst (λ x. IsSorted x) e
              (keep-IsSorted (λ k. not (starts_with prefix k)) cf.rows h.sorted);
        filled =
            subst (λ x. AllValues IsFilled x) e
              (AllValues-keep IsFilled (λ k. not (starts_with prefix k)) cf.rows h.filled);
        checked = h.checked;
      }

  everywhere-IsValid :
      (prefix : Bytes) (families : Families)
      → AllValues (IsValid pb) families
      → AllValues (IsValid pb) (drop_rows_everywhere prefix families)
  unfolding drop_rows_everywhere
  everywhere-IsValid prefix [] h = tt
  everywhere-IsValid prefix ((key, cf) ∷ families) h =
      (dropped-IsValid prefix cf h.0, everywhere-IsValid prefix families h.1)

  everywhere-AllAfter :
      (prefix k : Bytes) (families : Families)
      → AllAfter k families
      → AllAfter k (drop_rows_everywhere prefix families)
  unfolding drop_rows_everywhere
  everywhere-AllAfter prefix k [] a = tt
  everywhere-AllAfter prefix k ((key, cf) ∷ families) a =
      (a.0, everywhere-AllAfter prefix k families a.1)

  everywhere-IsSorted :
      (prefix : Bytes) (families : Families)
      → IsSorted families
      → IsSorted (drop_rows_everywhere prefix families)
  unfolding drop_rows_everywhere
  everywhere-IsSorted prefix [] s = tt
  everywhere-IsSorted prefix ((key, cf) ∷ families) s =
      (everywhere-AllAfter prefix key families s.0, everywhere-IsSorted prefix families s.1)

  has-everywhere :
      (prefix f : Bytes) (families : Families)
      → has_family f (drop_rows_everywhere prefix families) ≡ has_family f families
  unfolding drop_rows_everywhere find
  has-everywhere prefix f [] = refl
  has-everywhere prefix f ((key, cf) ∷ families) = ground (arith, has-everywhere prefix f families)

  clear_all-IsValid :
      (families : Families)
      → AllValues (IsValid pb) families
      → AllValues (IsValid pb) (clear_all families)
  unfolding clear_all
  clear_all-IsValid [] h = tt
  clear_all-IsValid ((key, cf) ∷ families) h =
      (clear-IsValid pb cf h.0, clear_all-IsValid families h.1)

  clear_all-AllAfter :
      (k : Bytes) (families : Families) → AllAfter k families → AllAfter k (clear_all families)
  unfolding clear_all
  clear_all-AllAfter k [] a = tt
  clear_all-AllAfter k ((key, cf) ∷ families) a = (a.0, clear_all-AllAfter k families a.1)

  clear_all-IsSorted : (families : Families) → IsSorted families → IsSorted (clear_all families)
  unfolding clear_all
  clear_all-IsSorted [] s = tt
  clear_all-IsSorted ((key, cf) ∷ families) s =
      (clear_all-AllAfter key families s.0, clear_all-IsSorted families s.1)

  has-clear_all :
      (f : Bytes) (families : Families) → has_family f (clear_all families) ≡ has_family f families
  unfolding clear_all find
  has-clear_all f [] = refl
  has-clear_all f ((key, cf) ∷ families) = ground (arith, has-clear_all f families)

  drop_row_range-IsValid :
      (target : Target) (families : Families)
      → IsSorted families
      → AllValues (IsValid pb) families
      → IsSorted (drop_row_range target families).0
        × AllValues (IsValid pb) (drop_row_range target families).0
  unfolding drop_row_range
  drop_row_range-IsValid target_not_set families s h = (s, h)
  drop_row_range-IsValid (delete_all_data_from_table all) families s h =
      (clear_all-IsSorted families s, clear_all-IsValid families h)
  drop_row_range-IsValid (row_key_prefix prefix) families s h =
      ground
        (arith, s, h, everywhere-IsSorted prefix families s, everywhere-IsValid prefix families h)

  has-drop_row_range :
      (target : Target) (f : Bytes) (families : Families)
      → has_family f (drop_row_range target families).0 ≡ has_family f families
  unfolding drop_row_range
  has-drop_row_range target_not_set f families = refl
  has-drop_row_range (delete_all_data_from_table all) f families = has-clear_all f families
  has-drop_row_range (row_key_prefix prefix) f families =
      ground (arith, has-everywhere prefix f families)

  pub drop_row_range-IsKept :
      (target : Target) (families : Families)
      → IsWellFormed pb families
      → IsKept pb families (drop_row_range target families).0
  drop_row_range-IsKept target families w =
      let v = drop_row_range-IsValid target families w.sorted w.valid in
      record {
        well_formed = record {
          sorted = v.0;
          valid = v.1;
          recent = λ f r q t early. ground (
            arith,
            (read_cell-drop_row_range pb target f r q t families w.valid).1,
            w.recent f r q t early,
          );
        };
        same_names = λ f. has-drop_row_range target f families;
      }
