-- ===== src/Prelude/Bits.antt =====
-- `&` and `|` with masks, single bits and disjoint fields, as arithmetic.
use Prim.Native.Nat.{
  ℕ, zero, suc, ◌+◌, ◌-◌, ◌*◌, ◌/◌, ◌%◌, ◌^◌, ◌≤◌, ◌<◌, min, max, bit_and, bit_or, digits,
  bit_and-bitwise, bit_or-bitwise,
}
use mathlib.Core.Path.{◌≡◌, refl, sym, ap, ◌∙◌}
use native.Mathlib.Nat.{pow-suc, le_refl, one-le-pow, div-div-eq-div-mul, mul_comm}
use native.Mathlib.Omega.{arith}

-- Any fuel that covers the left operand gives the same digits.
module _ (at_zero : ℕ → ℕ) (digit : ℕ → ℕ → ℕ) where
  digits-zero : (fuel b : ℕ) → digits at_zero digit fuel 0 b ≡ at_zero b
  digits-zero zero b = refl
  digits-zero (suc fuel) b = refl

  digits_enough :
      (a b m n : ℕ) → a ≤ min m n → digits at_zero digit m a b ≡ digits at_zero digit n a b
  digits_enough zero b m n h = digits-zero m b ∙ sym (digits-zero n b)
  digits_enough (suc a) b (suc m) (suc n) h =
      rw (digits_enough (suc a / 2) (b / 2) m n (omega (arith, h)))
  digits_enough (suc a) b zero n h = absurd (omega (arith, h))
  digits_enough (suc a) b (suc m) zero h = absurd (omega (arith, h))

-- The lowest digit of each operation, and the rest.
pub bit_and_low : (a b : ℕ) → bit_and a b ≡ bit_and (a / 2) (b / 2) * 2 + min (a % 2) (b % 2)
bit_and_low (suc a) b =
    let half = suc a / 2 in
    let same = digits_enough (λ y. 0) min half (b / 2) a half (omega arith) in
    omega (arith, same, bit_and-bitwise half (b / 2), bit_and-bitwise (suc a) b)
bit_and_low zero b = omega (arith, bit_and-bitwise 0 (b / 2), bit_and-bitwise 0 b)

pub bit_or_low : (a b : ℕ) → bit_or a b ≡ bit_or (a / 2) (b / 2) * 2 + max (a % 2) (b % 2)
bit_or_low (suc a) b =
    let half = suc a / 2 in
    let same = digits_enough (λ y. y) max half (b / 2) a half (omega arith) in
    omega (arith, same, bit_or-bitwise half (b / 2), bit_or-bitwise (suc a) b)
bit_or_low zero b = omega (arith, bit_or-bitwise 0 (b / 2), bit_or-bitwise 0 b)

-- Zero on the right, up to a bound on the left operand.
beside_zero : (a bound : ℕ) → a ≤ bound → (bit_and a 0 ≡ 0) × (bit_or a 0 ≡ a)
beside_zero zero bound h = (refl, refl)
beside_zero (suc a) zero h = absurd (omega (arith, h))
beside_zero (suc a) (suc bound) h =
    let (both, either) = beside_zero (suc a / 2) bound (omega (arith, h)) in
    (omega (arith, both, bit_and_low (suc a) 0), omega (arith, either, bit_or_low (suc a) 0))

bit_and-zero : (a : ℕ) → bit_and a 0 ≡ 0
bit_and-zero a = (beside_zero a a (le_refl a)).0

pub bit_or-zero : (a : ℕ) → bit_or a 0 ≡ a
bit_or-zero a = (beside_zero a a (le_refl a)).1

zero-bit_or : (b : ℕ) → bit_or 0 b ≡ b
zero-bit_or b = bit_or-bitwise 0 b

half_double : (a : ℕ) → 2 * a / 2 ≡ a
half_double a = omega arith

shifted_double : (q k : ℕ) → q * 2 ^ suc k ≡ 2 * (q * 2 ^ k)
shifted_double q k = omega (arith, ap (λ (t : ℕ). q * t) (pow-suc 2 k))

-- Division and remainder by `2 * p`, through the half of the operand.
div-two-mul : (a p : ℕ) → a / (2 * p) ≡ a / 2 / p
div-two-mul a p = sym (div-div-eq-div-mul a 2 p)

mod-two-mul : (a p : ℕ) → 0 < p → a % (2 * p) ≡ a / 2 % p * 2 + a % 2
mod-two-mul a p h = grind arith

-- A mask of `k` ones keeps the remainder by `2 ^ k`.
pub bit_and_mask : (k a : ℕ) → bit_and a (2 ^ k - 1) ≡ a % 2 ^ k
bit_and_mask zero a = omega (arith, bit_and-zero a)
bit_and_mask (suc k) a = grind (
  arith,
  pow-suc 2 k,
  one-le-pow k 2,
  bit_and_low a (2 ^ suc k - 1),
  bit_and_mask k (a / 2),
  mod-two-mul a (2 ^ k),
)

-- Testing one bit.
pub bit_and_bit : (k a : ℕ) → bit_and a (2 ^ k) ≡ a / 2 ^ k % 2 * 2 ^ k
bit_and_bit zero a = omega (arith, bit_and_low a 1, bit_and-zero (a / 2))
bit_and_bit (suc k) a =
    rw (pow-suc 2 k, mul_comm (2 ^ k) 2)
      (omega (
        arith,
        bit_and_low a (2 * 2 ^ k),
        ap (λ (t : ℕ). bit_and (a / 2) t) (half_double (2 ^ k)),
        bit_and_bit k (a / 2),
        ap (λ (t : ℕ). t % 2 * (2 * 2 ^ k)) (div-two-mul a (2 ^ k)),
      ))

-- Setting one bit that is clear.
pub bit_or_bit : (k a : ℕ) → a / 2 ^ k % 2 ≡ 0 → bit_or a (2 ^ k) ≡ a + 2 ^ k
bit_or_bit zero a h = omega (arith, bit_or_low a 1, bit_or-zero (a / 2))
bit_or_bit (suc k) a h =
    grind
      (arith, pow-suc 2 k, bit_or_low a (2 ^ suc k), bit_or_bit k (a / 2), div-two-mul a (2 ^ k))

-- Joining a field that starts at bit `k` to what lies below it.
pub bit_or_field : (k r q : ℕ) → r < 2 ^ k → bit_or r (q * 2 ^ k) ≡ r + q * 2 ^ k
bit_or_field zero zero q h = omega (arith, zero-bit_or (q * 1))
bit_or_field zero (suc r) q h = absurd (omega arith)
bit_or_field (suc k) r q h = omega (
  arith,
  pow-suc 2 k,
  shifted_double q k,
  bit_or_low r (q * 2 ^ suc k),
  ap (λ (t : ℕ). bit_or (r / 2) (t / 2)) (shifted_double q k),
  ap (λ (t : ℕ). bit_or (r / 2) t) (half_double (q * 2 ^ k)),
  bit_or_field k (r / 2) q (omega (arith, pow-suc 2 k)),
)
