-- ===== src/Text/Print.antt =====
-- The conversions of printf that the code uses: %X and %u with a width.
use gsusb_canfd.Prelude.{
  ℕ, zero, suc, ◌+◌, ◌-◌, ◌/◌, ◌%◌, [], ◌∷◌, ◌++◌, length, replicate, ltb, if◌then◌else◌,
}
use gsusb_canfd.Text.{Bytes}

-- '0' to '9' and 'A' to 'F'
abbrev pub digit_char : ℕ → ℕ
digit_char d = if ltb d 10 then 48 + d else 55 + d

-- The digits of a number, without leading zeros. Twenty rounds are enough for 64 bits.
unfoldable pub to_digits : (base fuel n : ℕ) → Bytes
to_digits base zero n = digit_char n ∷ []
to_digits base (suc fuel) n =
    let rest = to_digits base fuel (n / base) ++ (digit_char (n % base) ∷ []) in
    if ltb n base then digit_char n ∷ [] else rest

-- Filled on the left up to a width.
abbrev pub pad : (fill width : ℕ) → Bytes → Bytes
pad fill width text = replicate (width - length text) fill ++ text

-- %0<width>X, or %X for a width of 0
unfoldable pub print_hex : (width n : ℕ) → Bytes
print_hex width n = pad 48 width (to_digits 16 20 n)

-- %<width>u, or %u for a width of 0
unfoldable pub print_unsigned : (width n : ℕ) → Bytes
print_unsigned width n = pad 32 width (to_digits 10 20 n)
