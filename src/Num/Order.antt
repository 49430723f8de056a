-- ===== src/Num/Order.antt =====
-- The order of an interface of numbers: what follows from the laws of `<` and `<=`.
use poly_meridian.Prelude.{◌≡◌, true, false, arith, Bool-cases, inl, inr}
use poly_meridian.Num.{Num, ◌<?◌, ◌≤?◌, min, max}

module _ {A : Type 0} ⦃n : Num A⦄ where
  pub le_of_not_lt : (a b : A) → (b <? a) ≡ false → (a ≤? b) ≡ true
  le_of_not_lt a b h = ground (arith, n.le_not_lt a b)

  pub not_lt_of_le : (a b : A) → (a ≤? b) ≡ true → (b <? a) ≡ false
  not_lt_of_le a b h = ground (arith, n.le_not_lt a b)

  pub le_refl : (a : A) → (a ≤? a) ≡ true
  le_refl a = ground (arith, n.le_not_lt a a, n.lt_irrefl a)

  pub le_of_lt : (a b : A) → (a <? b) ≡ true → (a ≤? b) ≡ true
  le_of_lt a b h = ground (arith, n.le_not_lt a b, n.lt_trans a b a, n.lt_irrefl a)

  pub lt_of_lt_of_le : (a b c : A) → (a <? b) ≡ true → (b ≤? c) ≡ true → (a <? c) ≡ true
  lt_of_lt_of_le a b c h k = ground (arith, n.le_not_lt b c, n.lt_total b c, n.lt_trans a b c)

  pub lt_of_le_of_lt : (a b c : A) → (a ≤? b) ≡ true → (b <? c) ≡ true → (a <? c) ≡ true
  lt_of_le_of_lt a b c h k = ground (arith, n.le_not_lt a b, n.lt_total a b, n.lt_trans a b c)

  pub le_trans : (a b c : A) → (a ≤? b) ≡ true → (b ≤? c) ≡ true → (a ≤? c) ≡ true
  le_trans a b c h k = elim (Bool-cases (c <? a)) [
    | inl over ↦ ground (arith, lt_of_lt_of_le c a b over h, not_lt_of_le b c k)
    | inr fine ↦ le_of_not_lt a c fine
  ]

  pub le_antisymm : (a b : A) → (a ≤? b) ≡ true → (b ≤? a) ≡ true → a ≡ b
  le_antisymm a b h k = n.lt_total a b (not_lt_of_le b a k) (not_lt_of_le a b h)

  pub min_le_left : (a b : A) → (min a b ≤? a) ≡ true
  min_le_left a b = ground (arith, le_refl a, le_of_lt b a)

  pub min_le_right : (a b : A) → (min a b ≤? b) ≡ true
  min_le_right a b = ground (arith, le_refl b, le_of_not_lt a b)

  pub le_max_left : (a b : A) → (a ≤? max a b) ≡ true
  le_max_left a b = ground (arith, le_refl a, le_of_lt a b)

  pub le_max_right : (a b : A) → (b ≤? max a b) ≡ true
  le_max_right a b = ground (arith, le_refl b, le_of_not_lt b a)

  pub max-le : (a b c : A) → (a ≤? c) ≡ true → (b ≤? c) ≡ true → (max a b ≤? c) ≡ true
  max-le a b c h k = ground arith

  pub le-min : (a b c : A) → (c ≤? a) ≡ true → (c ≤? b) ≡ true → (c ≤? min a b) ≡ true
  le-min a b c h k = ground arith
