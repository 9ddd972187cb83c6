-- ===== src/StdMap/Values.antt =====
-- A predicate of all the values of a map.
use bigtable_emulator.Common.{List, [], ◌∷◌, some, ◌≡◌, ◌⊎◌, inl, inr, subst, arith, Less}
use bigtable_emulator.StdMap.{find, put, erase}

abbrev pub AllValues {ℓ κ} : {K : Type ℓ} {V : Type κ} → (V → Type 0) → List (K × V) → Type 0
AllValues P [] = Unit {0}
AllValues P ((k, v) ∷ m) = P v × AllValues P m

module _ {ℓ κ} {K : Type ℓ} {V : Type κ} ⦃o : Less K⦄ (P : V → Type 0) where
  found_or_later :
      (k j : K) (v w : V) (m : List (K × V))
      → find k ((j, w) ∷ m) ≡ some v
      → (w ≡ v) ⊎ (find k m ≡ some v)
  unfolding find
  found_or_later k j v w m h = ground arith

  pub AllValues-find : (k : K) (v : V) (m : List (K × V)) → AllValues P m → find k m ≡ some v → P v
  unfolding find
  AllValues-find k v [] a h = absurd (ground arith)
  AllValues-find k v ((j, w) ∷ m) a h = elim (found_or_later k j v w m h) [
    | inl e ↦ subst P e a.0
    | inr later ↦ AllValues-find k v m a.1 later
  ]

  pub AllValues-put :
      (k : K) (v : V) (m : List (K × V)) → P v → AllValues P m → AllValues P (put k v m)
  unfolding put
  AllValues-put k v [] h a = (h, tt)
  AllValues-put k v ((j, w) ∷ m) h a = ground (arith, AllValues-put k v m h a.1)

  pub AllValues-erase : (k : K) (m : List (K × V)) → AllValues P m → AllValues P (erase k m)
  unfolding erase
  AllValues-erase k [] a = tt
  AllValues-erase k ((j, w) ∷ m) a = ground (arith, AllValues-erase k m a.1)
