-- ===== src/Tests/Fixed.antt =====
-- A concrete number type with the operations of `Double`: fixed point with twelve decimals.
-- Products and quotients are cut off, and taken of numbers that are not negative only.
use gsusb_canfd.Prelude.{ℕ, ◌+◌, ◌*◌, ◌/◌, ◌^◌, not, arith}
use gsusb_canfd.Prelude.Int.{ℤ, pos, pos_part, neg_part, ◌-ℤ◌, ltb_ℤ, sub_ℕ}
use gsusb_canfd.Floats.{Double, IsIeee}

abbrev pub one : ℕ
one = 10 ^ 12

abbrev pub add_ℤ : ℤ → ℤ → ℤ
add_ℤ a b = sub_ℕ (pos_part a + pos_part b) (neg_part a + neg_part b)

abbrev pub fixed : Double ℤ
fixed = record {
  literal = λ digits places. pos (digits * one / 10 ^ places);
  largest = pos (10 ^ 300);
  of_unsigned = λ n. pos (n * one);
  of_long = λ a. sub_ℕ (pos_part a * one) (neg_part a * one);
  add = add_ℤ;
  sub = λ a b. a -ℤ b;
  mul = λ a b. pos (pos_part a * pos_part b / one);
  div = λ a b. pos (pos_part a * one / pos_part b);
  lt = ltb_ℤ;
  le = λ a b. not (ltb_ℤ b a);
  fabs = λ a. pos (pos_part a + neg_part a);
  lround = λ a. pos ((pos_part a + one / 2) / one);
}

pub fixed-IsIeee : IsIeee fixed
fixed-IsIeee = record {
  lt_irrefl = λ a. ground arith;
  lt_of_lt_sub = λ a b h. ground (arith, h);
  sub_mono = λ x a b h k. ground (arith, h, k);
}
