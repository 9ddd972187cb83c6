-- ===== src/StdMap/Keep.antt =====
-- A map whose entries are kept by a test on their keys.
use bigtable_emulator.Common.{Bool, List, [], ◌∷◌, none, ◌≡◌, arith, Less, keep, if◌then◌else◌}
use bigtable_emulator.StdMap.{find, AllAfter, IsSorted}
use bigtable_emulator.StdMap.Lookup.{find_of_AllAfter}
use bigtable_emulator.StdMap.Sorted.{AllAfter-weaken}

module _ {ℓ κ} {K : Type ℓ} {V : Type κ} ⦃o : Less K⦄ (p : K → Bool) where
  AllAfter-keep : (k : K) (m : List (K × V)) → AllAfter k m → AllAfter k (keep (λ e. p e.0) m)
  AllAfter-keep k [] a = tt
  AllAfter-keep k ((j, v) ∷ m) a = ground (arith, AllAfter-keep k m a.1)

  pub keep-IsSorted : (m : List (K × V)) → IsSorted m → IsSorted (keep (λ e. p e.0) m)
  keep-IsSorted [] s = tt
  keep-IsSorted ((j, v) ∷ m) s = ground (arith, keep-IsSorted m s.1, AllAfter-keep j m s.0)

  pub find-keep :
      (k : K) (m : List (K × V))
      → IsSorted m
      → find k (keep (λ e. p e.0) m) ≡ (if p k then find k m else none)
  unfolding find
  find-keep k [] s = ground arith
  find-keep k ((j, v) ∷ m) s = ground (
    arith,
    find-keep k m s.1,
    AllAfter-weaken k j m,
    find_of_AllAfter k m,
    find_of_AllAfter k (keep (λ e. p e.0) m),
    AllAfter-keep k m,
    o.less_connex k j,
  )
