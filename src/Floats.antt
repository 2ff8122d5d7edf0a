-- ===== src/Floats.antt =====
-- The C++ `double` with the operations and conversions that the code calls. The type is a
-- parameter; `IsIeee` holds facts of IEEE comparison and rounding that hold of every value, NaN and
-- infinities included.
use gsusb_canfd.Prelude.{ℕ, ◌≡◌, Bool, true, false}
use gsusb_canfd.Prelude.Int.{ℤ}

pub record Double (D : Type 0) : Type 0 where
  -- The double nearest to digits * 10 ^ -places.
  pub literal : (digits places : ℕ) → D
  -- std::numeric_limits<double>::max()
  pub largest : D
  pub of_unsigned : ℕ → D
  pub of_long : ℤ → D
  pub add : D → D → D
  pub sub : D → D → D
  pub mul : D → D → D
  pub div : D → D → D
  pub lt : D → D → Bool
  pub le : D → D → Bool
  pub fabs : D → D
  pub lround : D → ℤ

-- The comparison with a tolerance behaves as it does for IEEE doubles.
pub record IsIeee {D : Type 0} (F : Double D) : Type 0 where
  pub lt_irrefl : (a : D) → F.lt a a ≡ false
  -- Taking the tolerance off rounds to a value no larger, and is monotone.
  pub lt_of_lt_sub : (a b : D) → F.lt a (F.sub b (F.literal 1 12)) ≡ true → F.lt a b ≡ true
  pub sub_mono :
      (x a b : D)
      → F.lt a b ≡ true
      → F.lt x (F.sub a (F.literal 1 12)) ≡ true
      → F.lt x (F.sub b (F.literal 1 12)) ≡ true
