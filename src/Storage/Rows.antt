-- ===== src/Storage/Rows.antt =====
-- `Storage::DeleteRow`: the keys that it deletes.
use bigtable_emulator.Common.{
  Bool, true, false, ◌&&◌, List, [], ◌∷◌, ◌++◌, none, some, ℤ, ◌≡◌, refl, ap, ◌∙◌, arith, All,
  any_of, is_empty, if◌then◌else◌, List-cases, inl, inr,
}
use mathlib.Core.List.{append_assoc}
use bigtable_emulator.Common.Bytes.{Bytes, eq_bytes}
use bigtable_emulator.RowTransaction.{slash}
use bigtable_emulator.Cluster.{slash_tables_slash}
use bigtable_emulator.Table.Drop.{starts_with}
use bigtable_emulator.Storage.{
  Handle, RocksDb, Storage, strip, row_start, full_key, stored, calculate_prefix_end,
  delete_everywhere, delete_row,
}
use bigtable_emulator.Storage.Prefix.{IsBytes, calculate_prefix_end_lem}

strip-append : (p q : Bytes) → is_empty (strip q) ≡ false → is_empty (strip (p ++ q)) ≡ false
unfolding strip
strip-append [] q h = h
strip-append (x ∷ p) q h = elim (List-cases (strip (p ++ q))) [
  | inl nothing ↦ absurd (let e = rw nothing at (strip-append p q h) in ground (arith, e))
  | inr (y, ys, more) ↦ rw (more, strip) refl
]

row_start-strip : (table row : Bytes) → is_empty (strip (row_start table row)) ≡ false
unfolding strip
row_start-strip table row = strip-append slash_tables_slash (table ++ (slash ++ (row ++ slash))) (
    strip-append table (slash ++ (row ++ slash))
      (strip-append slash (row ++ slash) (strip-append row slash refl)))

-- The handles that were made for their own column families, none a null pointer.
abbrev pub AllOwn : List (Bytes × Handle) → Type 0
AllOwn = All (λ e. e.1 ≡ some e.0)

abbrev pub has_handle : Bytes → List (Bytes × Handle) → Bool
has_handle f = any_of (λ e. eq_bytes f e.0)

module _ (rocks : RocksDb) (to_string : ℤ → Bytes) where
  get-delete_everywhere :
      (f key start : Bytes) (handles : List (Bytes × Handle)) (db : rocks.Db)
      → IsBytes start
      → IsBytes key
      → is_empty (strip start) ≡ false
      → AllOwn handles
      → rocks.get f key (delete_everywhere rocks to_string start handles db)
        ≡ (if has_handle f handles && starts_with start key then none else rocks.get f key db)
  unfolding delete_everywhere
  get-delete_everywhere f key start [] db bs bk e own = refl
  get-delete_everywhere f key start ((name, handle) ∷ handles) db bs bk e own =
      let end = calculate_prefix_end start in
      get-delete_everywhere f key start handles (rocks.delete_range handle start end db) bs bk e
        own.1
      ∙ rw own.0 (
          ground (
            arith,
            rocks.get-delete_range f key name start end db,
            calculate_prefix_end_lem start key bs bk e,
          ))

  -- Where the numbers in the keys are bytes and each handle of the storage is that of its own
  -- column family, `Storage::DeleteRow` deletes in every column family with a handle the keys
  -- that start with the table, the row and a slash behind it, and no others.
  pub stored-delete_row :
      (table row f key : Bytes) (s : Storage rocks to_string)
      → IsBytes (row_start table row)
      → IsBytes key
      → AllOwn s.cf_handles
      → stored rocks to_string f key (delete_row rocks to_string table row s) ≡ (
          if has_handle f s.cf_handles && starts_with (row_start table row) key
          then none
          else stored rocks to_string f key s)
  unfolding delete_row
  stored-delete_row table row f key s br bk own =
      get-delete_everywhere f key (row_start table row) s.cf_handles s.db br bk
        (row_start-strip table row) own

  starts_with-append : (p x : Bytes) → starts_with p (p ++ x) ≡ true
  starts_with-append [] x = refl
  starts_with-append (b ∷ p) x = ground (arith, starts_with-append p x)

  full_key-longer :
      (table row rest q : Bytes) (t : ℤ)
      → full_key rocks to_string table (row ++ (slash ++ rest)) q t
        ≡ row_start table row ++ (rest ++ (slash ++ (q ++ (slash ++ to_string t))))
  full_key-longer table row rest q t = simp append_assoc

  -- Where the numbers in the keys are bytes and each handle of the storage is that of its own
  -- column family, `Storage::DeleteRow` leaves no value at the cells of a row whose key is that of
  -- the deleted row, a slash, and more, in any column family with a handle.
  pub stored-delete_row_longer :
      (table row rest f q : Bytes) (t : ℤ) (s : Storage rocks to_string)
      → IsBytes (row_start table row)
      → IsBytes (full_key rocks to_string table (row ++ (slash ++ rest)) q t)
      → AllOwn s.cf_handles
      → has_handle f s.cf_handles ≡ true
      → stored rocks to_string f
          (full_key rocks to_string table (row ++ (slash ++ rest)) q t)
          (delete_row rocks to_string table row s)
        ≡ none
  stored-delete_row_longer table row rest f q t s br bk own there =
      let tail = rest ++ (slash ++ (q ++ (slash ++ to_string t))) in
      let starts =
        ap (λ k. starts_with (row_start table row) k) (full_key-longer table row rest q t)
        ∙ starts_with-append (row_start table row) tail in
      stored-delete_row table row f (full_key rocks to_string table (row ++ (slash ++ rest)) q t) s
        br bk own
      ∙ rw (there, starts) refl
