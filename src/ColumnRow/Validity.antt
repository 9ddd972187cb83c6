-- ===== src/ColumnRow/Validity.antt =====
-- The invariant of `ColumnRow`: its time stamps strictly decrease.
use bigtable_emulator.Common.{
  true, [], ◌∷◌, some, ◌≡◌, refl, ℤ, arith, ltb_ℤ, freshest_first, Option-cases, Bool-cases, inl,
  inr,
}
use bigtable_emulator.Common.Bytes.{Bytes}
use bigtable_emulator.Status.{StatusOr, StatusOr-cases}
use bigtable_emulator.External.{BigEndian}
use bigtable_emulator.StdMap
use bigtable_emulator.StdMap.{IsSorted, find}
use bigtable_emulator.StdMap.Sorted.{put-IsSorted, erase-IsSorted}
use bigtable_emulator.ColumnRow.{
  ColumnRow, set_cell, update_cell, delete_time_stamp, write_latest, increment, append, has_cells,
}

pub record IsFilled (cells : ColumnRow) : Type 0 where
  pub sorted : IsSorted cells
  pub some_cell : has_cells cells ≡ true

has_cells-put : (t : ℤ) (v : Bytes) (cells : ColumnRow) → has_cells (StdMap.put t v cells) ≡ true
unfolding StdMap.put
has_cells-put t v [] = refl
has_cells-put t v ((u, w) ∷ cells) = ground arith

put-IsFilled :
    (t : ℤ) (v : Bytes) (cells : ColumnRow) → IsSorted cells → IsFilled (StdMap.put t v cells)
put-IsFilled t v cells s = record {
  sorted = put-IsSorted t v cells s;
  some_cell = has_cells-put t v cells;
}

pub set_cell-IsFilled :
    (t : ℤ) (v : Bytes) (cells : ColumnRow) → IsSorted cells → IsFilled (set_cell t v cells).0
unfolding set_cell
set_cell-IsFilled t v cells s = put-IsFilled t v cells s

has_cells_of_found :
    (t : ℤ) (v : Bytes) (cells : ColumnRow) → find t cells ≡ some v → has_cells cells ≡ true
unfolding find
has_cells_of_found t v [] h = ground arith
has_cells_of_found t v (c ∷ cells) h = refl

pub update_cell-IsFilled :
    (f : Bytes → Bytes → StatusOr Bytes) (t : ℤ) (v : Bytes) (cells : ColumnRow)
    → IsSorted cells
    → IsFilled (update_cell f t v cells).0
unfolding update_cell
update_cell-IsFilled f t v cells s = elim (Option-cases (find t cells)) [
  | inl missing ↦ rw (missing, update_cell) (put-IsFilled t v cells s)
  | inr (old, found) ↦ elim (StatusOr-cases (f old v)) [
    | inl (new, e) ↦ rw (found, update_cell, e) (put-IsFilled t new cells s)
    | inr (code, e) ↦
        rw (found, update_cell, e)
          (record { sorted = s; some_cell = has_cells_of_found t old cells found })
  ]
]

write_latest-IsFilled :
    (now t : ℤ) (old v : Bytes) (rest : ColumnRow)
    → IsSorted ((t, old) ∷ rest)
    → IsFilled (write_latest now t old rest v).0
unfolding write_latest
write_latest-IsFilled now t old v rest s = elim (Bool-cases (ltb_ℤ t now)) [
  | inl e ↦ rw e (put-IsFilled now v ((t, old) ∷ rest) s)
  | inr e ↦ rw e (record { sorted = s; some_cell = refl })
]

pub increment-IsFilled :
    (be : BigEndian) (now n : ℤ) (cells : ColumnRow)
    → IsSorted cells
    → IsFilled (increment be now n cells).0
unfolding increment
increment-IsFilled be now n [] s = put-IsFilled now _ [] s
increment-IsFilled be now n ((t, old) ∷ rest) s = elim (StatusOr-cases (be.decode_big_endian old)) [
  | inl (k, e) ↦ rw (e, increment) (write_latest-IsFilled now t old _ rest s)
  | inr (code, e) ↦ rw (e, increment) (record { sorted = s; some_cell = refl })
]

pub append-IsFilled :
    (now : ℤ) (v : Bytes) (cells : ColumnRow) → IsSorted cells → IsFilled (append now v cells).0
unfolding append
append-IsFilled now v [] s = put-IsFilled now v [] s
append-IsFilled now v ((t, old) ∷ rest) s = write_latest-IsFilled now t old _ rest s

pub delete_time_stamp-IsSorted :
    (t : ℤ) (cells : ColumnRow) → IsSorted cells → IsSorted (delete_time_stamp t cells).0
unfolding delete_time_stamp
delete_time_stamp-IsSorted t cells s = elim (Option-cases (find t cells)) [
  | inl missing ↦ rw (missing, IsSorted, delete_time_stamp) s
  | inr (v, found) ↦ rw (found, IsSorted, delete_time_stamp) (erase-IsSorted t cells s)
]
