-- ===== src/Common/Bytes.antt =====
-- `std::string` as the list of its bytes, under the lexicographic order of `std::less`.
use mathlib.Core.Path.{◌≡◌, refl}
use mathlib.Core.Bool.{Bool, true, false}
use mathlib.Core.List.{List, [], ◌∷◌}
use Prim.Native.Nat.{ℕ}
use native.Mathlib.Omega.{arith}
use bigtable_emulator.Common.Tests.{ltb, if◌then◌else◌, ◌==◌}
use bigtable_emulator.Common.Order.{Less}

abbrev pub Bytes : Type 0
Bytes = List ℕ

abbrev pub less_bytes : Bytes → Bytes → Bool
less_bytes [] [] = false
less_bytes [] (y ∷ ys) = true
less_bytes (x ∷ xs) [] = false
less_bytes (x ∷ xs) (y ∷ ys) = if ltb x y then true else if ltb y x then false else less_bytes xs ys

pub less_bytes_irrefl : (a : Bytes) → less_bytes a a ≡ false
less_bytes_irrefl [] = refl
less_bytes_irrefl (x ∷ xs) = ground (arith, less_bytes_irrefl xs)

pub less_bytes_trans :
    (a b c : Bytes) → less_bytes a b ≡ true → less_bytes b c ≡ true → less_bytes a c ≡ true
less_bytes_trans [] [] c h k = k
less_bytes_trans [] (y ∷ ys) [] h k = k
less_bytes_trans [] (y ∷ ys) (z ∷ zs) h k = refl
less_bytes_trans (x ∷ xs) [] c h k = ground arith
less_bytes_trans (x ∷ xs) (y ∷ ys) [] h k = k
less_bytes_trans (x ∷ xs) (y ∷ ys) (z ∷ zs) h k = ground (arith, less_bytes_trans xs ys zs)

pub less_bytes-connex : (a b : Bytes) → less_bytes a b ≡ false → less_bytes b a ≡ false → a ≡ b
less_bytes-connex [] [] h k = refl
less_bytes-connex [] (y ∷ ys) h k = ground arith
less_bytes-connex (x ∷ xs) [] h k = ground arith
less_bytes-connex (x ∷ xs) (y ∷ ys) h k = ground (arith, less_bytes-connex xs ys)

instance abbrev pub bytes_order : Less Bytes
bytes_order = record {
  less = less_bytes;
  less_irrefl = less_bytes_irrefl;
  less_trans = less_bytes_trans;
  less_connex = less_bytes-connex;
}

abbrev pub eq_bytes : Bytes → Bytes → Bool
eq_bytes [] [] = true
eq_bytes [] (y ∷ ys) = false
eq_bytes (x ∷ xs) [] = false
eq_bytes (x ∷ xs) (y ∷ ys) = if x == y then eq_bytes xs ys else false

pub eq_of_eq_bytes : (a b : Bytes) → eq_bytes a b ≡ true → a ≡ b
eq_of_eq_bytes [] [] h = refl
eq_of_eq_bytes [] (y ∷ ys) h = ground arith
eq_of_eq_bytes (x ∷ xs) [] h = ground arith
eq_of_eq_bytes (x ∷ xs) (y ∷ ys) h = ground (arith, eq_of_eq_bytes xs ys)

pub eq_bytes_refl : (a : Bytes) → eq_bytes a a ≡ true
eq_bytes_refl [] = refl
eq_bytes_refl (x ∷ xs) = ground (arith, eq_bytes_refl xs)
