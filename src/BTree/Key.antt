-- ===== src/BTree/Key.antt =====
-- What include/txl/btree.h uses of the type of its keys: `<` and `==`, in a strict total order.
use libtxl.Prelude.{
  ℕ, Bool, true, false, Bool-cases, ◌≡◌, ◌≢◌, ◌↔◌, ◌⊎◌, inl, inr, refl, ap, ltb, ltb→le, ◌==◌,
  ==_iff, arith,
}
use libtxl.Prelude.Order.{ltb_irrefl, ltb_trans}

pub record Key (K : Type 0) : Type 0 where
  pub less : K → K → Bool
  pub equal : K → K → Bool
  pub irrefl : (a : K) → less a a ≡ false
  pub trans : (a b c : K) → less a b ≡ true → less b c ≡ true → less a c ≡ true
  pub total : (a b : K) → (less a b ≡ true) ⊎ ((a ≡ b) ⊎ (less b a ≡ true))
  pub equal_iff : (a b : K) → (equal a b ≡ true) ↔ (a ≡ b)

pub ltb_total : (a b : ℕ) → (ltb a b ≡ true) ⊎ ((a ≡ b) ⊎ (ltb b a ≡ true))
ltb_total a b = elim (Bool-cases (ltb a b)) [
  | inl p ↦ inl p
  | inr p ↦ elim (Bool-cases (ltb b a)) [
    | inl q ↦ inr (inr q)
    | inr q ↦ inr (inl (omega (arith, ltb→le a b p, ltb→le b a q)))
  ]
]

unfoldable pub nat_key : Key ℕ
nat_key = record {
  less = ltb;
  equal = λ a b. a == b;
  irrefl = ltb_irrefl;
  trans = ltb_trans;
  total = ltb_total;
  equal_iff = ==_iff;
}

module _ {K : Type 0} (o : Key K) where
  open o use {less, equal}

  pub less_ne : (a b : K) → less a b ≡ true → a ≢ b
  less_ne a b p e = absurd (ground (arith, p, ap (less a) e, o.irrefl a))

  pub less_asym : (a b : K) → less a b ≡ true → less b a ≡ false
  less_asym a b p = elim (Bool-cases (less b a)) [
    | inl q ↦ ground (arith, o.trans a b a p q, o.irrefl a)
    | inr q ↦ q
  ]

  pub less_of_not : (a b : K) → less a b ≡ false → a ≢ b → less b a ≡ true
  less_of_not a b p ne = elim (o.total a b) [
    | inl q ↦ cc
    | inr (inl q) ↦ absurd (ne q)
    | inr (inr q) ↦ q
  ]

  pub equal_self : (a : K) → equal a a ≡ true
  equal_self a = (o.equal_iff a a).1 refl

  pub ne-equal : (a b : K) → a ≢ b → equal a b ≡ false
  ne-equal a b ne = elim (Bool-cases (equal a b)) [
    | inl e ↦ absurd (ne ((o.equal_iff a b).0 e))
    | inr e ↦ e
  ]
