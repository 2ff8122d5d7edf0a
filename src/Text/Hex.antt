-- ===== src/Text/Hex.antt =====
-- Printing in hexadecimal and reading.
use gsusb_canfd.Prelude.{
  ℕ, zero, suc, ◌+◌, ◌-◌, ◌*◌, ◌/◌, ◌%◌, ◌^◌, ◌<◌, ◌≡◌, refl, ap, ◌∙◌, Bool, true, [], ◌∷◌, ◌++◌,
  arith, length, replicate, ltb, Bool-cases, inl, inr, ◌&&◌,
}
use mathlib.Core.List.{append_assoc}
use native.Mathlib.Nat.{pow-suc}
use gsusb_canfd.Text.{Bytes}
use gsusb_canfd.Text.Print.{digit_char, to_digits, print_hex}
use gsusb_canfd.Text.Scan.{digit_value, is_xdigit, read_digits}

pub digit_value-digit_char : (d : ℕ) → d < 16 → digit_value (digit_char d) ≡ d
digit_value-digit_char d h = ground (arith, h)

pub is_xdigit-digit_char : (d : ℕ) → d < 16 → is_xdigit (digit_char d) ≡ true
is_xdigit-digit_char d h = ground (arith, h)

read_digits-step :
    (read d next : ℕ) (rest : Bytes)
    → d < 16
    → read * 16 + d ≡ next
    → read_digits 16 read (digit_char d ∷ rest) ≡ read_digits 16 next rest
unfolding read_digits
read_digits-step read d next rest h e =
    ground (arith, digit_value-digit_char d h, ap (λ (r : ℕ). read_digits 16 r rest) e)

-- Reading the digits of a number and going on behind them.
pub read_digits-to_digits :
    (fuel n : ℕ) (rest : Bytes)
    → n < 16 ^ suc fuel
    → read_digits 16 0 (to_digits 16 fuel n ++ rest) ≡ read_digits 16 n rest
unfolding to_digits
read_digits-to_digits zero n rest h = read_digits-step 0 n n rest (omega (arith, h)) (omega arith)
read_digits-to_digits (suc fuel) n rest h = elim (Bool-cases (ltb n 16)) [
  | inl small ↦
      rw (small, to_digits) (read_digits-step 0 n n rest (ground (arith, small)) (omega arith))
  | inr large ↦
      let below : n / 16 < 16 ^ suc fuel = omega (arith, h, pow-suc 16 (suc fuel)) in
      rw (large, to_digits)
        (simp append_assoc (
          read_digits-to_digits fuel (n / 16) (digit_char (n % 16) ∷ rest) below
          ∙ read_digits-step (n / 16) (n % 16) n rest (omega arith) (omega arith)))
]

-- Leading zeros change nothing.
pub read_digits-zeros :
    (k : ℕ) (text : Bytes) → read_digits 16 0 (replicate k 48 ++ text) ≡ read_digits 16 0 text
unfolding read_digits
read_digits-zeros zero text = refl
read_digits-zeros (suc k) text = read_digits-zeros k text

-- Every byte of a text passes a test.
abbrev pub all_of : (ℕ → Bool) → Bytes → Bool
all_of test [] = true
all_of test (c ∷ cs) = test c && all_of test cs

all_of-append :
    (test : ℕ → Bool) (s t : Bytes)
    → all_of test s ≡ true
    → all_of test t ≡ true
    → all_of test (s ++ t) ≡ true
all_of-append test [] t h k = k
all_of-append test (c ∷ cs) t h k = ground (arith, h, all_of-append test cs t)

all_of-zeros : (k : ℕ) → all_of is_xdigit (replicate k 48) ≡ true
all_of-zeros zero = refl
all_of-zeros (suc k) = all_of-zeros k

all_of-to_digits : (fuel n : ℕ) → n < 16 ^ suc fuel → all_of is_xdigit (to_digits 16 fuel n) ≡ true
unfolding to_digits
all_of-to_digits zero n h = ground (arith, is_xdigit-digit_char n (omega (arith, h)))
all_of-to_digits (suc fuel) n h = elim (Bool-cases (ltb n 16)) [
  | inl small ↦
      rw (small, to_digits) (ground (arith, is_xdigit-digit_char n (ground (arith, small))))
  | inr large ↦
      rw (large, to_digits)
        (all_of-append is_xdigit (to_digits 16 fuel (n / 16)) (digit_char (n % 16) ∷ [])
          (all_of-to_digits fuel (n / 16) (omega (arith, h, pow-suc 16 (suc fuel))))
          (ground (arith, is_xdigit-digit_char (n % 16) (omega arith))))
]

-- A printed number is hexadecimal digits only, and reads back, whatever its width.
pub print_hex-digits : (width n : ℕ) → n < 2 ^ 64 → all_of is_xdigit (print_hex width n) ≡ true
unfolding print_hex
print_hex-digits width n h =
    all_of-append is_xdigit (replicate (width - length (to_digits 16 20 n)) 48) (to_digits 16 20 n)
      (all_of-zeros (width - length (to_digits 16 20 n))) (all_of-to_digits 20 n (omega (arith, h)))

pub read_digits-print_hex :
    (width n : ℕ) (rest : Bytes)
    → n < 2 ^ 64
    → read_digits 16 0 (print_hex width n ++ rest) ≡ read_digits 16 n rest
unfolding print_hex
read_digits-print_hex width n rest h = simp append_assoc (
    read_digits-zeros (width - length (to_digits 16 20 n)) (to_digits 16 20 n ++ rest)
    ∙ read_digits-to_digits 20 n rest (omega (arith, h)))
