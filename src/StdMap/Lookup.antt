-- ===== src/StdMap/Lookup.antt =====
-- What a lookup finds after the other operations of a map.
use bigtable_emulator.Common.{
  Bool, true, List, [], ◌∷◌, none, some, ◌≡◌, refl, arith, Less, if◌then◌else◌, ◌&&◌, not,
}
use bigtable_emulator.StdMap.{find, put, erase, AllAfter, IsSorted}
use bigtable_emulator.StdMap.Sorted.{AllAfter-weaken}

-- Two keys are equivalent when neither is before the other.
abbrev pub same {ℓ} : {K : Type ℓ} ⦃o : Less K⦄ → K → K → Bool
same ⦃o⦄ a b = not (o.less a b) && not (o.less b a)

module _ {ℓ κ} {K : Type ℓ} {V : Type κ} ⦃o : Less K⦄ where
  pub find_of_AllAfter : (k : K) (m : List (K × V)) → AllAfter k m → find k m ≡ none
  unfolding find
  find_of_AllAfter k [] a = refl
  find_of_AllAfter k ((j, w) ∷ m) a = ground arith

  pub find_of_before :
      (i k : K) (m : List (K × V)) → AllAfter k m → o.less i k ≡ true → find i m ≡ none
  find_of_before i k m a h = find_of_AllAfter i m (AllAfter-weaken i k m h a)

  pub find-put :
      (q k : K) (v : V) (m : List (K × V))
      → find q (put k v m) ≡ (if same q k then some v else find q m)
  unfolding find put
  find-put q k v [] = ground arith
  find-put q k v ((j, w) ∷ m) = ground (
    arith,
    find-put q k v m,
    o.less_trans q k j,
    o.less_trans q j k,
    o.less_trans j q k,
    o.less_trans k j q,
    o.less_trans k q j,
    o.less_trans j k q,
    o.less_connex q k,
    o.less_connex q j,
    o.less_connex j k,
    o.less_irrefl q,
    o.less_irrefl j,
    o.less_irrefl k,
  )

  pub find-erase :
      (q k : K) (m : List (K × V))
      → IsSorted m
      → find q (erase k m) ≡ (if same q k then none else find q m)
  unfolding find erase
  find-erase q k [] s = ground arith
  find-erase q k ((j, w) ∷ m) s = ground (
    arith,
    find-erase q k m,
    find_of_AllAfter q m,
    AllAfter-weaken q j m,
    o.less_trans q k j,
    o.less_trans q j k,
    o.less_trans j q k,
    o.less_trans k j q,
    o.less_trans k q j,
    o.less_trans j k q,
    o.less_connex q k,
    o.less_connex q j,
    o.less_connex j k,
    o.less_irrefl q,
    o.less_irrefl j,
    o.less_irrefl k,
  )

  pub find-put_self : (k : K) (v : V) (m : List (K × V)) → find k (put k v m) ≡ some v
  find-put_self k v m = ground (arith, find-put k k v m, o.less_irrefl k)
