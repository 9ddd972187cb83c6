-- ===== src/RowTransaction/Rollback.antt =====
-- The column families of a table in memory as a map from families, row keys, qualifiers and time
-- stamps to values, and what a rollback does to it.
use bigtable_emulator.Common.{
  true, ◌&&◌, [], ◌∷◌, ◌++◌, Option, none, some, ◌≡◌, refl, ℤ, arith, freshest_first, Option-cases,
  inl, inr,
}
use bigtable_emulator.Common.Bytes.{Bytes, bytes_order}
use bigtable_emulator.Status.{ok}
use bigtable_emulator.StdMap.{find, put}
use bigtable_emulator.StdMap.Lookup.{same, find-put, find-put_self}
use bigtable_emulator.GcRule.{Protobuf}
use bigtable_emulator.ColumnFamilyRow.Reads.{same_cell}
use bigtable_emulator.ColumnFamily
use bigtable_emulator.ColumnFamily.{ColumnFamily}
use bigtable_emulator.ColumnFamily.Validity.{IsValid, set_cell-IsValid}
use bigtable_emulator.ColumnFamily.Reads.{read, read-set_cell, read-delete_time_stamp}
use bigtable_emulator.RowTransaction.{Families, find_column_family, change_family}

abbrev pub read_cell : Bytes → Bytes → Bytes → ℤ → Families → Option Bytes
read_cell f r q t families = elim (find f families) [ none ↦ none | some cf ↦ read r q t cf ]

-- Equivalent addresses are the same one.
read_same :
    (r q : Bytes) (t : ℤ) (r' q' : Bytes) (t' : ℤ) (cf : ColumnFamily)
    → (same r r' && same_cell q t q' t') ≡ true
    → read r' q' t' cf ≡ read r q t cf
read_same r q t r' q' t' cf h =
    let e : r ≡ r' = ground (arith, bytes_order.less_connex r r') in
    let f : q ≡ q' = ground (arith, bytes_order.less_connex q q') in
    let g : t ≡ t' = ground (arith, freshest_first.less_connex t t') in rw (e, f, g) refl

module _ (pb : Protobuf) (r' q' : Bytes) (t' : ℤ) (v : Bytes) (cf : ColumnFamily)
    (h : IsValid pb cf) where
  -- A write that found no value is taken back by the deletion of its cell.
  pub read-undo_new :
      (r q : Bytes) (t : ℤ)
      → (ColumnFamily.set_cell r' q' t' v cf).1 ≡ none
      → read r q t
          (ColumnFamily.delete_time_stamp r' q' t' (ColumnFamily.set_cell r' q' t' v cf).0).0
        ≡ read r q t cf
  read-undo_new r q t e = ground (
    arith,
    e,
    read-delete_time_stamp pb (ColumnFamily.set_cell r' q' t' v cf).0
        (set_cell-IsValid pb r' q' cf h t' v) r q t r' q' t',
    read-set_cell r q t r' q' t' v cf,
    read_same r q t r' q' t' cf,
  )

  -- A write that replaced a value is taken back by a write of that value.
  pub read-undo_old :
      (r q : Bytes) (t : ℤ) (old : Bytes)
      → (ColumnFamily.set_cell r' q' t' v cf).1 ≡ some old
      → read r q t (ColumnFamily.set_cell r' q' t' old (ColumnFamily.set_cell r' q' t' v cf).0).0
        ≡ read r q t cf
  read-undo_old r q t old e = ground (
    arith,
    e,
    read-set_cell r q t r' q' t' old (ColumnFamily.set_cell r' q' t' v cf).0,
    read-set_cell r q t r' q' t' v cf,
    read_same r q t r' q' t' cf,
  )

pub find-find_column_family :
    (table_name name key : Bytes) (cf : ColumnFamily) (families : Families)
    → find_column_family table_name name families ≡ ok (key, cf)
    → find key families ≡ some cf
unfolding find_column_family
find-find_column_family table_name name key cf families e =
    elim (Option-cases (find name families)) [
      | inr (direct, found) ↦ ground (arith, found)
      | inl missing ↦ elim (Option-cases (find (table_name ++ (47 ∷ [] ++ name)) families)) [
        | inl none_at_all ↦ ground (arith, missing, none_at_all)
        | inr (prefixed, found) ↦ ground (arith, missing, found)
      ]
    ]

pub same_key : (f key : Bytes) → same f key ≡ true → f ≡ key
same_key f key h = ground (arith, bytes_order.less_connex f key)

-- A family that was changed twice reads as the second change left it, the others as before.
pub read_cell-changed :
    (f r q : Bytes) (t : ℤ) (key : Bytes) (g : ColumnFamily → ColumnFamily) (cf cf' : ColumnFamily)
    (families : Families)
    → find key families ≡ some cf
    → read r q t (g cf') ≡ read r q t cf
    → read_cell f r q t (change_family key g (put key cf' families)) ≡ read_cell f r q t families
read_cell-changed f r q t key g cf cf' families found h = ground (
  arith,
  found,
  h,
  find-put_self key cf' families,
  find-put f key cf' families,
  find-put f key (g cf') (put key cf' families),
  same_key f key,
)
