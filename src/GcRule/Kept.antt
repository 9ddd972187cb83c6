-- ===== src/GcRule/Kept.antt =====
-- How many cells of a column a rule leaves: `RunGC` against a count by recursion on the rule.
use bigtable_emulator.Common.{
  ℕ, suc, ◌+◌, ◌-◌, ◌≤◌, Bool, true, false, ◌&&◌, ◌||◌, [], ◌∷◌, ℤ, pos, pos_part, ltb_ℤ, leb_ℤ,
  leb, length, take, keep, freshest_first, ◌≡◌, refl, ◌∙◌, arith, if◌then◌else◌, Bool-cases, inl,
  inr,
}
use bigtable_emulator.Status.{ok}
use bigtable_emulator.StdMap.{IsSorted, AllAfter}
use bigtable_emulator.ColumnRow.{ColumnRow}
use bigtable_emulator.GcRule.{
  GcRule, Rules, rule_not_set, max_age, max_num_versions, intersection, union, nil, cons, Protobuf,
  check_gc_rule_is_valid, get_max_age_cut_off_timestamp, gc_rule_erase_verdict, all_erase,
  any_erase, rules_empty, apply_gc_rule_verdict_from, apply_gc_rule_verdict, run_gc,
}
use bigtable_emulator.GcRule.Equivalence.{run_gc-verdict}

abbrev pub larger : ℕ → ℕ → ℕ
larger a b = if leb a b then b else a

abbrev pub smaller : ℕ → ℕ → ℕ
smaller a b = if leb a b then a else b

-- The number of cells that a rule leaves of a column.
unfoldable mutual
  pub kept : Protobuf → ℤ → GcRule → ColumnRow → ℕ
  kept pb now (max_age d) cells =
      length (keep (λ e. leb_ℤ (get_max_age_cut_off_timestamp pb now d) e.0) cells)
  kept pb now (max_num_versions n) cells = smaller (pos_part n) (length cells)
  kept pb now (intersection rs) cells =
      if rules_empty rs then length cells else most pb now rs cells
  kept pb now (union rs) cells = fewest pb now rs cells
  kept pb now rule_not_set cells = length cells

  pub most : Protobuf → ℤ → Rules → ColumnRow → ℕ
  most pb now nil cells = 0
  most pb now (cons r rs) cells = larger (kept pb now r cells) (most pb now rs cells)

  pub fewest : Protobuf → ℤ → Rules → ColumnRow → ℕ
  fewest pb now nil cells = length cells
  fewest pb now (cons r rs) cells = smaller (kept pb now r cells) (fewest pb now rs cells)

-- The number of cells before the first that a verdict erases.
first : (ℤ → ℕ → Bool) → ℕ → ColumnRow → ℕ
first p rank [] = 0
first p rank ((t, v) ∷ cells) =
    let rest = first p (rank + 1) cells in if p t rank then 0 else suc rest

-- A verdict that erases a cell erases the older ones.
abbrev IsPersistent : (ℤ → ℕ → Bool) → Type 0
IsPersistent p = (t u : ℤ) (m n : ℕ) → ltb_ℤ u t ≡ true → m ≤ n → p t m ≡ true → p u n ≡ true

first-later :
    (p : ℤ → ℕ → Bool) (t : ℤ) (m n : ℕ) (cells : ColumnRow)
    → IsPersistent p
    → m ≤ n
    → p t m ≡ true
    → AllAfter t cells
    → first p n cells ≡ 0
unfolding first
first-later p t m n [] h le e a = refl
first-later p t m n ((u, v) ∷ cells) h le e a = ground (arith, h t u m n a.0 le e)

first-and :
    (p q : ℤ → ℕ → Bool) (rank : ℕ) (cells : ColumnRow)
    → IsPersistent p
    → IsPersistent q
    → IsSorted cells
    → first (λ t k. p t k && q t k) rank cells ≡ larger (first p rank cells) (first q rank cells)
unfolding first
first-and p q rank [] h k s = refl
first-and p q rank ((t, v) ∷ cells) h k s = ground (
  arith,
  first-and p q (rank + 1) cells h k s.1,
  first-later p t rank (rank + 1) cells h (omega arith),
  first-later q t rank (rank + 1) cells k (omega arith),
  s.0,
)

first-or :
    (p q : ℤ → ℕ → Bool) (rank : ℕ) (cells : ColumnRow)
    → first (λ t k. p t k || q t k) rank cells ≡ smaller (first p rank cells) (first q rank cells)
unfolding first
first-or p q rank [] = refl
first-or p q rank ((t, v) ∷ cells) = ground (arith, first-or p q (rank + 1) cells)

first-never : (rank : ℕ) (cells : ColumnRow) → first (λ t k. false) rank cells ≡ length cells
unfolding first
first-never rank [] = refl
first-never rank (c ∷ cells) = ground (arith, first-never (rank + 1) cells)

first-always : (rank : ℕ) (cells : ColumnRow) → first (λ t k. true) rank cells ≡ 0
unfolding first
first-always rank [] = refl
first-always rank (c ∷ cells) = refl

module _ (pb : Protobuf) (now : ℤ) where
  mutual
    unfolding gc_rule_erase_verdict

    verdict-IsPersistent : (rule : GcRule) → IsPersistent (gc_rule_erase_verdict pb now rule)
    verdict-IsPersistent (max_age d) t u m n older le e = ground arith
    verdict-IsPersistent (max_num_versions v) t u m n older le e = ground arith
    verdict-IsPersistent (intersection rs) t u m n older le e =
        ground (arith, all-IsPersistent rs t u m n older le)
    verdict-IsPersistent (union rs) t u m n older le e =
        ground (arith, any-IsPersistent rs t u m n older le)
    verdict-IsPersistent rule_not_set t u m n older le e = e

    all-IsPersistent : (rs : Rules) → IsPersistent (all_erase pb now rs)
    all-IsPersistent nil t u m n older le e = refl
    all-IsPersistent (cons r rs) t u m n older le e =
        ground
          (arith, verdict-IsPersistent r t u m n older le, all-IsPersistent rs t u m n older le)

    any-IsPersistent : (rs : Rules) → IsPersistent (any_erase pb now rs)
    any-IsPersistent nil t u m n older le e = e
    any-IsPersistent (cons r rs) t u m n older le e =
        ground
          (arith, verdict-IsPersistent r t u m n older le, any-IsPersistent rs t u m n older le)

  verdict-later :
      (rule : GcRule) (t : ℤ) (rank : ℕ) (cells : ColumnRow)
      → gc_rule_erase_verdict pb now rule t rank ≡ true
      → AllAfter t cells
      → apply_gc_rule_verdict_from pb now rule rank cells ≡ []
  unfolding apply_gc_rule_verdict_from
  verdict-later rule t rank [] e a = refl
  verdict-later rule t rank ((u, v) ∷ cells) e a = ground (
    arith,
    verdict-later rule t rank cells e a.1,
    verdict-IsPersistent rule t u rank rank a.0 (omega arith) e,
  )

  verdict-first :
      (rule : GcRule) (rank : ℕ) (cells : ColumnRow)
      → IsSorted cells
      → apply_gc_rule_verdict_from pb now rule rank cells
        ≡ take (first (gc_rule_erase_verdict pb now rule) rank cells) cells
  unfolding apply_gc_rule_verdict_from first
  verdict-first rule rank [] s = refl
  verdict-first rule rank ((t, v) ∷ cells) s =
      elim (Bool-cases (gc_rule_erase_verdict pb now rule t rank)) [
        | inl erased ↦
            rw (erased, apply_gc_rule_verdict_from, first)
              (verdict-later rule t rank cells erased s.0)
        | inr stays ↦ ground (arith, stays, verdict-first rule (rank + 1) cells s.1)
      ]

  first-age :
      (cutoff : ℤ) (rank : ℕ) (cells : ColumnRow)
      → IsSorted cells
      → first (λ t k. ltb_ℤ t cutoff) rank cells ≡ length (keep (λ e. leb_ℤ cutoff e.0) cells)
  unfolding first
  first-age cutoff rank [] s = refl
  first-age cutoff rank ((t, v) ∷ cells) s = ground (
    arith,
    first-age cutoff (rank + 1) cells s.1,
    first-later (λ u k. ltb_ℤ u cutoff) t rank (rank + 1) cells (λ x y m n older le e. ground arith)
        (omega arith),
    s.0,
  )

  -- From a rank on, as many cells stay as the number of versions leaves beyond the rank.
  first-versions :
      (n : ℤ) (rank : ℕ) (cells : ColumnRow)
      → first (λ t k. leb_ℤ n (pos k)) rank cells ≡ smaller (pos_part n - rank) (length cells)
  unfolding first
  first-versions n rank [] = ground arith
  first-versions n rank ((t, v) ∷ cells) = ground (arith, first-versions n (rank + 1) cells)

  mutual
    unfolding gc_rule_erase_verdict kept

    first-kept :
        (rule : GcRule) (cells : ColumnRow)
        → IsSorted cells
        → first (gc_rule_erase_verdict pb now rule) 0 cells ≡ kept pb now rule cells
    first-kept (max_age d) cells s = first-age (get_max_age_cut_off_timestamp pb now d) 0 cells s
    first-kept (max_num_versions n) cells s = ground (arith, first-versions n 0 cells)
    first-kept (intersection nil) cells s = first-never 0 cells
    first-kept (intersection (cons r rs)) cells s = first-most (cons r rs) cells s
    first-kept (union nil) cells s = first-never 0 cells
    first-kept (union (cons r rs)) cells s = first-fewest (cons r rs) cells s
    first-kept rule_not_set cells s = first-never 0 cells

    first-most :
        (rs : Rules) (cells : ColumnRow)
        → IsSorted cells
        → first (all_erase pb now rs) 0 cells ≡ most pb now rs cells
    first-most nil cells s = first-always 0 cells
    first-most (cons r rs) cells s =
        first-and (gc_rule_erase_verdict pb now r) (all_erase pb now rs) 0 cells
          (verdict-IsPersistent r) (all-IsPersistent rs) s
        ∙ rw (first-kept r cells s, first-most rs cells s) refl

    first-fewest :
        (rs : Rules) (cells : ColumnRow)
        → IsSorted cells
        → first (any_erase pb now rs) 0 cells ≡ fewest pb now rs cells
    first-fewest nil cells s = first-never 0 cells
    first-fewest (cons r rs) cells s =
        first-or (gc_rule_erase_verdict pb now r) (any_erase pb now rs) 0 cells
        ∙ rw (first-kept r cells s, first-fewest rs cells s) refl

  -- On a sorted column, for a rule that the validation accepts and at one reading of the clock,
  -- `RunGC` leaves the freshest cells and no others: for an age, those not before the cut-off;
  -- for a number of versions, that many; for a list of rules, as many as the rule of an
  -- intersection that leaves the most, or the rule of a union that leaves the fewest; without a
  -- rule or for an empty list, all.
  pub run_gc-kept :
      (rule : GcRule) (cells : ColumnRow)
      → IsSorted cells
      → check_gc_rule_is_valid pb rule ≡ ok tt
      → run_gc pb now rule cells ≡ take (kept pb now rule cells) cells
  unfolding apply_gc_rule_verdict
  run_gc-kept rule cells s h =
      run_gc-verdict pb now rule cells s h
      ∙ (verdict-first rule 0 cells s ∙ rw (first-kept rule cells s) refl)
