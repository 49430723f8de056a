-- ===== src/Num/Fixed.antt =====
-- A concrete number: an integer count of ten-thousandths, which computes. It fills the interface.
use Prim.Native.Nat.{◌+◌, ◌-◌, ◌*◌, ◌/◌, ◌^◌}
use poly_meridian.Prelude.{
  ℕ, suc, ◌≡◌, ◌↔◌, Bool, true, false, not, ◌&&◌, arith, ltb, leb, if◌then◌else◌,
}
use poly_meridian.Num.{Num, Quantize, Convert, Exact}

-- `negsuc n` is -(n + 1) units.
pub data ℤ : Type 0 where
  pos : ℕ → ℤ
  negsuc : ℕ → ℤ

abbrev pub pos_part : ℤ → ℕ
pos_part (pos n) = n
pos_part (negsuc n) = 0

abbrev pub neg_part : ℤ → ℕ
neg_part (pos n) = 0
neg_part (negsuc n) = suc n

abbrev pub sub_ℕ : ℕ → ℕ → ℤ
sub_ℕ a b = if leb b a then pos (a - b) else negsuc (b - a - 1)

abbrev pub scale : ℕ
scale = 10000

abbrev pub add : ℤ → ℤ → ℤ
add a b = sub_ℕ (pos_part a + pos_part b) (neg_part a + neg_part b)

abbrev pub sub : ℤ → ℤ → ℤ
sub a b = sub_ℕ (pos_part a + neg_part b) (neg_part a + pos_part b)

-- Products and quotients are rounded towards zero.
abbrev pub mul : ℤ → ℤ → ℤ
mul a b =
    sub_ℕ ((pos_part a * pos_part b + neg_part a * neg_part b) / scale)
      ((pos_part a * neg_part b + neg_part a * pos_part b) / scale)

abbrev pub div : ℤ → ℤ → ℤ
div a b =
    sub_ℕ ((pos_part a * scale) / pos_part b + (neg_part a * scale) / neg_part b)
      ((pos_part a * scale) / neg_part b + (neg_part a * scale) / pos_part b)

abbrev pub lt : ℤ → ℤ → Bool
lt a b = ltb (pos_part a + neg_part b) (pos_part b + neg_part a)

abbrev pub le : ℤ → ℤ → Bool
le a b = leb (pos_part a + neg_part b) (pos_part b + neg_part a)

abbrev pub eq : ℤ → ℤ → Bool
eq a b = le a b && le b a

pub eq_iff : (a b : ℤ) → (eq a b ≡ true) ↔ (a ≡ b)
eq_iff (pos a) (pos b) = ground arith
eq_iff _ _ = ground arith

pub lt_irrefl : (a : ℤ) → lt a a ≡ false
lt_irrefl a = ground arith

pub lt_trans : (a b c : ℤ) → lt a b ≡ true → lt b c ≡ true → lt a c ≡ true
lt_trans a b c h k = ground arith

pub lt_total : (a b : ℤ) → lt a b ≡ false → lt b a ≡ false → a ≡ b
lt_total a b h k = ground arith

pub le_not_lt : (a b : ℤ) → le a b ≡ not (lt b a)
le_not_lt a b = ground arith

instance abbrev pub fixed : Num ℤ
fixed = record {
  add = add;
  sub = sub;
  mul = mul;
  div = div;
  neg = sub (pos 0);
  lit = λ m k. pos (m * scale / 10 ^ k);
  lt = lt;
  le = le;
  eq = eq;
  eq_iff = eq_iff;
  lt_irrefl = lt_irrefl;
  lt_trans = lt_trans;
  lt_total = lt_total;
  le_not_lt = le_not_lt;
}

-- Rounding towards zero to the given number of places, at most four.
instance abbrev pub fixed_quantize : Quantize ℤ
fixed_quantize = record {
  quantize = λ k a.
      let step : ℕ = scale / 10 ^ k in sub_ℕ (pos_part a / step * step) (neg_part a / step * step);
}

instance abbrev pub fixed_convert : Convert ℤ ℤ
fixed_convert = record { to_float = λ a. a; to_decimal = λ a. a }

add_zero : (a : ℤ) → add (pos 0) a ≡ a
add_zero (pos a) = ground arith
add_zero _ = ground arith

add_assoc : (a b c : ℤ) → add a (add b c) ≡ add (add a b) c
add_assoc a b c = ground arith

add_swap : (a b c : ℤ) → add (add a b) c ≡ add (add a c) b
add_swap a b c = ground arith

add_sub : (a b x : ℤ) → add (add a x) (sub b x) ≡ add a b
add_sub a b x = ground arith

le_add : (a b : ℤ) → le a (add a b) ≡ le (pos 0) b
le_add a b = ground arith

add_le : (a b : ℤ) → le (add a b) a ≡ le b (pos 0)
add_le a b = ground arith

sub_nonneg : (a b : ℤ) → le (pos 0) (sub a b) ≡ le b a
sub_nonneg a b = ground arith

pub fixed-Exact : Exact ℤ
fixed-Exact = record {
  add_zero = add_zero;
  add_assoc = add_assoc;
  add_swap = add_swap;
  add_sub = add_sub;
  le_add = le_add;
  add_le = add_le;
  sub_nonneg = sub_nonneg;
}
