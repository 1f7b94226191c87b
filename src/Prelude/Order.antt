-- ===== src/Prelude/Order.antt =====
-- The interface of a comparison: what the `Less` of an ordered container must be.
use Prim.Native.Nat.{ℕ}
use mathlib.Core.Path.{◌≡◌}
use mathlib.Core.Logic.{◌⊎◌, inl, inr}
use mathlib.Core.Bool.{Bool, true, false}
use native.Mathlib.Omega.{arith}
use libtxl.Prelude.Tests.{ltb, Bool-cases}

-- A strict weak order, as `std::less` and the standard algorithms ask for.
pub record Less (K : Type 0) : Type 0 where
  pub less : K → K → Bool
  pub irrefl : (a : K) → less a a ≡ false
  pub trans : (a b c : K) → less a b ≡ true → less b c ≡ true → less a c ≡ true
  pub cotrans : (a b c : K) → less a c ≡ true → (less a b ≡ true) ⊎ (less b c ≡ true)

pub ltb_irrefl : (a : ℕ) → ltb a a ≡ false
ltb_irrefl a = ground arith

pub ltb_trans : (a b c : ℕ) → ltb a b ≡ true → ltb b c ≡ true → ltb a c ≡ true
ltb_trans a b c p q = ground arith

pub ltb_cotrans : (a b c : ℕ) → ltb a c ≡ true → (ltb a b ≡ true) ⊎ (ltb b c ≡ true)
ltb_cotrans a b c p = ground arith

unfoldable pub nat_less : Less ℕ
nat_less = record { less = ltb; irrefl = ltb_irrefl; trans = ltb_trans; cotrans = ltb_cotrans }

module _ {K : Type 0} (o : Less K) where
  open o use {less}

  -- Neither comes before the other.
  unfoldable pub same : K → K → Bool
  same a b = elim (less a b) [
    | true ↦ false
    | false ↦ elim (less b a) [ true ↦ false | false ↦ true ]
  ]

  pub less_asym : (a b : K) → less a b ≡ true → less b a ≡ false
  less_asym a b p = elim (Bool-cases (less b a)) [
    | inl q ↦ ground (arith, o.trans a b a p q, o.irrefl a)
    | inr q ↦ q
  ]

  -- What is not less passes along.
  pub not_less_trans : (a b c : K) → less b a ≡ false → less c b ≡ false → less c a ≡ false
  not_less_trans a b c p q = elim (Bool-cases (less c a)) [
    | inl r ↦ elim (o.cotrans c b a r) [ inl s ↦ ground arith | inr s ↦ ground arith ]
    | inr r ↦ r
  ]

  pub less-not_less : (a b c : K) → less a b ≡ true → less c b ≡ false → less a c ≡ true
  less-not_less a b c p q = elim (o.cotrans a c b p) [ inl r ↦ r | inr r ↦ ground arith ]

  pub not_less-less : (a b c : K) → less b a ≡ false → less b c ≡ true → less a c ≡ true
  not_less-less a b c p q = elim (o.cotrans b a c q) [ inl r ↦ ground arith | inr r ↦ r ]

  pub same_of_less : (a b : K) → less a b ≡ true → same a b ≡ false
  unfolding same
  same_of_less a b e = rw (e, same)

  pub same_of_greater : (a b : K) → less b a ≡ true → same a b ≡ false
  unfolding same
  same_of_greater a b e = rw (less_asym b a e, same, e)

  pub same_of_neither : (a b : K) → less a b ≡ false → less b a ≡ false → same a b ≡ true
  unfolding same
  same_of_neither a b e f = rw (e, same, f)
