-- ===== src/GcRule/Equivalence.antt =====
-- The garbage collection of one column: the short cuts for a single rule against the verdict loop.
use bigtable_emulator.Common.{
  ℕ, zero, suc, ◌+◌, ◌≤◌, true, [], ◌∷◌, ℤ, pos, negsuc, ltb_ℤ, length, take, freshest_first, ◌≡◌,
  refl, ap, ◌∙◌, sym, arith,
}
use bigtable_emulator.Status.{ok}
use bigtable_emulator.StdMap
use bigtable_emulator.StdMap.{IsSorted, AllAfter, find}
use bigtable_emulator.ColumnRow.{ColumnRow}
use bigtable_emulator.GcRule.{
  Duration, GcRule, rule_not_set, max_age, max_num_versions, intersection, union, Protobuf,
  check_gc_rule_tree_has_valid_fields, check_gc_rule_size_is_below_limit, check_gc_rule_is_valid,
  get_max_age_cut_off_timestamp, gc_rule_erase_verdict, apply_gc_rule_max_num_versions,
  apply_gc_rule_max_age, apply_gc_rule_verdict_from, apply_gc_rule_verdict, run_gc,
}

take_all : (n : ℕ) (cells : ColumnRow) → length cells ≤ n → take n cells ≡ cells
take_all zero [] h = refl
take_all zero (c ∷ cells) h = absurd (omega arith)
take_all (suc n) [] h = refl
take_all (suc n) (c ∷ cells) h = ap (◌∷◌ c) (take_all n cells (omega arith))

max_num_versions-take :
    (n : ℕ) (cells : ColumnRow) → apply_gc_rule_max_num_versions n cells ≡ take n cells
unfolding apply_gc_rule_max_num_versions
max_num_versions-take n cells = ground (arith, take_all n cells)

module _ (pb : Protobuf) (now : ℤ) where
  verdict-take :
      (k rank n : ℕ) (cells : ColumnRow)
      → n ≡ rank + k
      → apply_gc_rule_verdict_from pb now (max_num_versions (pos n)) rank cells ≡ take k cells
  unfolding apply_gc_rule_verdict_from gc_rule_erase_verdict
  verdict-take zero rank n [] e = refl
  verdict-take (suc k) rank n [] e = refl
  verdict-take zero rank n (c ∷ cells) e = ground (arith, verdict-take zero rank n cells)
  verdict-take (suc k) rank n (c ∷ cells) e = ground (arith, verdict-take k (rank + 1) n cells)

  verdict-stale :
      (d : Duration) (rank : ℕ) (t : ℤ) (cells : ColumnRow)
      → ltb_ℤ t (get_max_age_cut_off_timestamp pb now d) ≡ true
      → AllAfter t cells
      → apply_gc_rule_verdict_from pb now (max_age d) rank cells ≡ []
  unfolding apply_gc_rule_verdict_from gc_rule_erase_verdict
  verdict-stale d rank t [] h a = refl
  verdict-stale d rank t ((u, v) ∷ cells) h a = ground (arith, verdict-stale d rank t cells h a.1)

  verdict-up_to :
      (d : Duration) (rank : ℕ) (cells : ColumnRow)
      → IsSorted cells
      → apply_gc_rule_verdict_from pb now (max_age d) rank cells
        ≡ StdMap.up_to (get_max_age_cut_off_timestamp pb now d) cells
  unfolding apply_gc_rule_verdict_from gc_rule_erase_verdict StdMap.up_to
  verdict-up_to d rank [] s = refl
  verdict-up_to d rank ((t, v) ∷ cells) s =
      ground (arith, verdict-up_to d (rank + 1) cells s.1, verdict-stale d rank t cells)

  verdict-not_set :
      (rank : ℕ) (cells : ColumnRow)
      → apply_gc_rule_verdict_from pb now rule_not_set rank cells ≡ cells
  unfolding apply_gc_rule_verdict_from gc_rule_erase_verdict
  verdict-not_set rank [] = refl
  verdict-not_set rank (c ∷ cells) = ap (◌∷◌ c) (verdict-not_set (rank + 1) cells)

  versions_pos :
      (n : ℤ) → check_gc_rule_is_valid pb (max_num_versions n) ≡ ok tt → (k : ℕ) × (n ≡ pos k)
  unfolding check_gc_rule_is_valid check_gc_rule_size_is_below_limit
      check_gc_rule_tree_has_valid_fields
  versions_pos (pos k) h = (k, refl)
  versions_pos (negsuc k) h = absurd (ground arith)

  -- On a sorted column, for a rule that the validation accepts and at one reading of the clock,
  -- `RunGC`, with its shortcuts for an age and for a number of versions, leaves the cells that
  -- the verdict of the rule leaves when it is applied cell by cell.
  pub run_gc-verdict :
      (rule : GcRule) (cells : ColumnRow)
      → IsSorted cells
      → check_gc_rule_is_valid pb rule ≡ ok tt
      → run_gc pb now rule cells ≡ apply_gc_rule_verdict pb now rule cells
  unfolding run_gc apply_gc_rule_verdict apply_gc_rule_max_age
  run_gc-verdict (max_age d) cells s h = sym (verdict-up_to d 0 cells s)
  run_gc-verdict (max_num_versions n) cells s h =
      let (k, e) = versions_pos n h in
      rw e (max_num_versions-take k cells ∙ sym (verdict-take k 0 k cells (omega arith)))
  run_gc-verdict (intersection rs) cells s h = refl
  run_gc-verdict (union rs) cells s h = refl
  run_gc-verdict rule_not_set cells s h = sym (verdict-not_set 0 cells)

  verdict-AllAfter :
      (rule : GcRule) (rank : ℕ) (t : ℤ) (cells : ColumnRow)
      → AllAfter t cells
      → AllAfter t (apply_gc_rule_verdict_from pb now rule rank cells)
  unfolding apply_gc_rule_verdict_from
  verdict-AllAfter rule rank t [] a = tt
  verdict-AllAfter rule rank t ((u, v) ∷ cells) a =
      ground (
        arith,
        verdict-AllAfter rule rank t cells a.1,
        verdict-AllAfter rule (rank + 1) t cells a.1,
      )

  verdict-IsSorted :
      (rule : GcRule) (rank : ℕ) (cells : ColumnRow)
      → IsSorted cells
      → IsSorted (apply_gc_rule_verdict_from pb now rule rank cells)
  unfolding apply_gc_rule_verdict_from
  verdict-IsSorted rule rank [] s = tt
  verdict-IsSorted rule rank ((t, v) ∷ cells) s = ground (
    arith,
    verdict-IsSorted rule rank cells s.1,
    verdict-IsSorted rule (rank + 1) cells s.1,
    verdict-AllAfter rule (rank + 1) t cells s.0,
  )

  pub run_gc-IsSorted :
      (rule : GcRule) (cells : ColumnRow)
      → IsSorted cells
      → check_gc_rule_is_valid pb rule ≡ ok tt
      → IsSorted (run_gc pb now rule cells)
  unfolding apply_gc_rule_verdict
  run_gc-IsSorted rule cells s h =
      rw (run_gc-verdict rule cells s h) (verdict-IsSorted rule 0 cells s)
