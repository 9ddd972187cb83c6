-- ===== src/StdMap/Sorted.antt =====
-- The operations of a map keep its keys sorted.
use bigtable_emulator.Common.{true, List, [], ◌∷◌, ◌≡◌, arith, Less}
use bigtable_emulator.StdMap.{put, erase, AllAfter, IsSorted}

module _ {ℓ κ} {K : Type ℓ} {V : Type κ} ⦃o : Less K⦄ where
  pub AllAfter-weaken :
      (i j : K) (m : List (K × V)) → o.less i j ≡ true → AllAfter j m → AllAfter i m
  AllAfter-weaken i j [] h a = tt
  AllAfter-weaken i j ((k, v) ∷ m) h a = (o.less_trans i j k h a.0, AllAfter-weaken i j m h a.1)

  AllAfter-put :
      (i k : K) (v : V) (m : List (K × V))
      → o.less i k ≡ true
      → AllAfter i m
      → AllAfter i (put k v m)
  unfolding put
  AllAfter-put i k v [] h a = (h, tt)
  AllAfter-put i k v ((j, w) ∷ m) h a = ground (arith, AllAfter-put i k v m)

  pub put-IsSorted : (k : K) (v : V) (m : List (K × V)) → IsSorted m → IsSorted (put k v m)
  unfolding put
  put-IsSorted k v [] s = (tt, tt)
  put-IsSorted k v ((j, w) ∷ m) s =
      ground (arith, put-IsSorted k v m, AllAfter-weaken k j m, AllAfter-put j k v m)

  pub AllAfter-erase : (i k : K) (m : List (K × V)) → AllAfter i m → AllAfter i (erase k m)
  unfolding erase
  AllAfter-erase i k [] a = tt
  AllAfter-erase i k ((j, w) ∷ m) a = ground (arith, AllAfter-erase i k m)

  pub erase-IsSorted : (k : K) (m : List (K × V)) → IsSorted m → IsSorted (erase k m)
  unfolding erase
  erase-IsSorted k [] s = tt
  erase-IsSorted k ((j, w) ∷ m) s = ground (arith, erase-IsSorted k m, AllAfter-erase j k m)
