-- ===== src/Common/Order.antt =====
-- `Compare` of the C++ containers: a strict total order given by a Boolean `less`, with the laws
-- that the containers ask of it.
use mathlib.Core.Path.{◌≡◌}
use mathlib.Core.Bool.{Bool, true, false}
use native.Mathlib.Omega.{arith}
use bigtable_emulator.Common.Int.{ℤ, ltb_ℤ, eq_of_parts}

pub record Less {ℓ} (K : Type ℓ) : Type ℓ where
  pub less : K → K → Bool
  pub less_irrefl : (a : K) → less a a ≡ false
  pub less_trans : (a b c : K) → less a b ≡ true → less b c ≡ true → less a c ≡ true
  pub less_connex : (a b : K) → less a b ≡ false → less b a ≡ false → a ≡ b

pub less_asymm {ℓ} : {K : Type ℓ} ⦃o : Less K⦄ (a b : K) → o.less a b ≡ true → o.less b a ≡ false
less_asymm ⦃o⦄ a b h = ground (arith, o.less_trans a b a, o.less_irrefl a)

pub ltb_ℤ-irrefl : (a : ℤ) → ltb_ℤ a a ≡ false
ltb_ℤ-irrefl a = ground arith

pub ltb_ℤ-trans : (a b c : ℤ) → ltb_ℤ b a ≡ true → ltb_ℤ c b ≡ true → ltb_ℤ c a ≡ true
ltb_ℤ-trans a b c h k = ground arith

pub ltb_ℤ-connex : (a b : ℤ) → ltb_ℤ b a ≡ false → ltb_ℤ a b ≡ false → a ≡ b
ltb_ℤ-connex a b h k = ground (arith, eq_of_parts a b)

-- `std::greater<>` on time stamps: the freshest first.
instance abbrev pub freshest_first : Less ℤ
freshest_first = record {
  less = λ a b. ltb_ℤ b a;
  less_irrefl = ltb_ℤ-irrefl;
  less_trans = ltb_ℤ-trans;
  less_connex = ltb_ℤ-connex;
}
