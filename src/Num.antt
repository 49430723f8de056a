-- ===== src/Num.antt =====
-- Python's `float` and `Decimal`, which the program computes with: an interface of operations and
-- of the laws of its comparisons. Values are finite (no NaN, no infinity), and two decimals that
-- compare equal are one value.
use poly_meridian.Prelude.{
  ℕ, ◌≡◌, refl, ◌↔◌, Bool, true, false, not, Eq, if◌then◌else◌, Option, none, some, List, [], ◌∷◌,
}
pub mod Order
pub mod Fixed

pub record Num (A : Type 0) : Type 0 where
  pub add : A → A → A
  pub sub : A → A → A
  pub mul : A → A → A
  pub div : A → A → A
  pub neg : A → A
  -- `lit m k` is the literal m / 10 ^ k.
  pub lit : ℕ → ℕ → A
  pub lt : A → A → Bool
  pub le : A → A → Bool
  pub eq : A → A → Bool
  pub eq_iff : (a b : A) → (eq a b ≡ true) ↔ (a ≡ b)
  pub lt_irrefl : (a : A) → lt a a ≡ false
  pub lt_trans : (a b c : A) → lt a b ≡ true → lt b c ≡ true → lt a c ≡ true
  pub lt_total : (a b : A) → lt a b ≡ false → lt b a ≡ false → a ≡ b
  pub le_not_lt : (a b : A) → le a b ≡ not (lt b a)

module _ {A : Type 0} ⦃n : Num A⦄ where
  infixl 65 ◌+◌ ◌-◌
  infixl 70 ◌*◌ ◌/◌
  infix 50 ◌<?◌ ◌≤?◌
  abbrev pub ◌+◌ : A → A → A
  ◌+◌ = n.add

  abbrev pub ◌-◌ : A → A → A
  ◌-◌ = n.sub

  abbrev pub ◌*◌ : A → A → A
  ◌*◌ = n.mul

  abbrev pub ◌/◌ : A → A → A
  ◌/◌ = n.div

  abbrev pub neg : A → A
  neg = n.neg

  abbrev pub lit : ℕ → ℕ → A
  lit = n.lit

  -- `a < b`; `a > b` is written `b <? a`.
  abbrev pub ◌<?◌ : A → A → Bool
  ◌<?◌ = n.lt

  abbrev pub ◌≤?◌ : A → A → Bool
  ◌≤?◌ = n.le

  -- `min(a, b)` and `max(a, b)` return the first argument on a tie.
  abbrev pub min : A → A → A
  min a b = if b <? a then b else a

  abbrev pub max : A → A → A
  max a b = if a <? b then b else a

  abbrev pub abs : A → A
  abs a = if a <? lit 0 0 then neg a else a

  instance abbrev pub num_eq : Eq A
  num_eq = record { beq = n.eq; beq_iff = n.eq_iff }

  -- `sum(xs, start=Decimal(0))` adds from the left.
  abbrev pub sum_from : A → List A → A
  sum_from acc [] = acc
  sum_from acc (x ∷ xs) = sum_from (acc + x) xs

  abbrev pub sum : List A → A
  sum = sum_from (lit 0 0)

-- `math.sqrt`, `math.pow`, `math.log`, `math.exp` and `float("inf")`.
pub record Maths (F : Type 0) : Type 0 where
  pub sqrt : F → F
  pub power : F → F → F
  pub log : F → F
  pub exp : F → F
  pub infinity : F

-- `x.quantize(Decimal("0.01"))` is `quantize 2 x`.
pub record Quantize (D : Type 0) : Type 0 where
  pub quantize : ℕ → D → D

-- `float(d)` of a decimal, and `Decimal(str(x))` of a float.
pub record Convert (F D : Type 0) : Type 0 where
  pub to_float : D → F
  pub to_decimal : F → D

abbrev pub quantize : {D : Type 0} ⦃q : Quantize D⦄ → ℕ → D → D
quantize ⦃q⦄ = q.quantize

abbrev pub to_float : {F D : Type 0} ⦃c : Convert F D⦄ → D → F
to_float ⦃c⦄ = c.to_float

abbrev pub to_decimal : {F D : Type 0} ⦃c : Convert F D⦄ → F → D
to_decimal ⦃c⦄ = c.to_decimal

-- Sums and differences of decimals are exact while they fit the 28 digits of the context. What the
-- proofs use of that: an amount can be moved between two terms, and both are read off a sum.
pub record Exact (D : Type 0) ⦃n : Num D⦄ : Type 0 where
  pub add_zero : (a : D) → lit 0 0 + a ≡ a
  pub add_assoc : (a b c : D) → a + (b + c) ≡ (a + b) + c
  pub add_swap : (a b c : D) → (a + b) + c ≡ (a + c) + b
  pub add_sub : (a b x : D) → (a + x) + (b - x) ≡ a + b
  pub le_add : (a b : D) → (a ≤? a + b) ≡ (lit 0 0 ≤? b)
  pub add_le : (a b : D) → (a + b ≤? a) ≡ (b ≤? lit 0 0)
  pub sub_nonneg : (a b : D) → (lit 0 0 ≤? a - b) ≡ (b ≤? a)
