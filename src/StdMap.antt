-- ===== src/StdMap.antt =====
-- `std::map<K, V, Compare>` as the list of its entries in the order of `Compare`: the calls that
-- cell_view.h, column_family.{h,cc} and table.cc make of it. The container is the C++ standard
-- library's, so nothing here maps to a line of the repository.
pub mod Lookup
pub mod Keep
pub mod Sorted
pub mod Values
use bigtable_emulator.Common.{
  Bool, true, false, List, [], ◌∷◌, Option, none, some, ◌≡◌, ◌&&◌, not, Less, if◌then◌else◌,
}

module _ {ℓ κ} {K : Type ℓ} {V : Type κ} ⦃o : Less K⦄ where
  -- `m.find(k)`: the value of the entry whose key is equivalent to `k`.
  unfoldable pub find : K → List (K × V) → Option V
  find k [] = none
  find k ((j, v) ∷ m) = if o.less k j then none else if o.less j k then find k m else some v

  -- `m[k] = v`.
  unfoldable pub put : K → V → List (K × V) → List (K × V)
  put k v [] = (k, v) ∷ []
  put k v ((j, w) ∷ m) =
      if o.less k j
      then (k, v) ∷ (j, w) ∷ m
      else if o.less j k
      then (j, w) ∷ put k v m
      else (j, v) ∷ m

  -- `m.erase(m.find(k))`, and nothing where the key is missing.
  unfoldable pub erase : K → List (K × V) → List (K × V)
  erase k [] = []
  erase k ((j, w) ∷ m) =
      if o.less k j then (j, w) ∷ m else if o.less j k then (j, w) ∷ erase k m else m

  -- `m.lower_bound(k)`: the entries from the first whose key is not before `k`.
  unfoldable pub lower_bound : K → List (K × V) → List (K × V)
  lower_bound k [] = []
  lower_bound k ((j, w) ∷ m) = if o.less j k then lower_bound k m else (j, w) ∷ m

  -- `m.upper_bound(k)`: the entries from the first whose key is after `k`.
  unfoldable pub upper_bound : K → List (K × V) → List (K × V)
  upper_bound k [] = []
  upper_bound k ((j, w) ∷ m) = if o.less k j then (j, w) ∷ m else upper_bound k m

  -- The entries before `m.upper_bound(k)`.
  unfoldable pub up_to : K → List (K × V) → List (K × V)
  up_to k [] = []
  up_to k ((j, w) ∷ m) = if o.less k j then [] else (j, w) ∷ up_to k m

  -- Every key of the map is after `k`.
  abbrev pub AllAfter : K → List (K × V) → Type 0
  AllAfter k [] = Unit {0}
  AllAfter k ((j, w) ∷ m) = (o.less k j ≡ true) × AllAfter k m

  -- What the container maintains: the keys strictly increase.
  abbrev pub IsSorted : List (K × V) → Type 0
  IsSorted [] = Unit {0}
  IsSorted ((j, w) ∷ m) = AllAfter j m × IsSorted m

  -- `m[k]` where a missing entry is default-constructed.
  abbrev pub find_or : K → V → List (K × V) → V
  find_or k d m = elim (find k m) [ none ↦ d | some v ↦ v ]
