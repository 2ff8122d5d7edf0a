-- ===== src/Text/Scan.antt =====
-- <cctype> in the "C" locale, and strtoul, strtol and atoi.
use gsusb_canfd.Prelude.{
  ℕ, zero, suc, ◌+◌, ◌-◌, ◌*◌, ◌%◌, ◌^◌, min, Bool, true, false, ◌&&◌, ◌||◌, [], ◌∷◌, ltb, leb,
  ◌==◌, if◌then◌else◌,
}
use gsusb_canfd.Prelude.Int.{ℤ, pos, negsuc}
use gsusb_canfd.Text.{Bytes}

abbrev pub is_digit : ℕ → Bool
is_digit c = leb 48 c && leb c 57

-- std::isxdigit
abbrev pub is_xdigit : ℕ → Bool
is_xdigit c = is_digit c || ((leb 65 c && leb c 70) || (leb 97 c && leb c 102))

-- std::isspace
abbrev pub is_space : ℕ → Bool
is_space c = c == 32 || (leb 9 c && leb c 13)

-- What a digit stands for; 36 for a byte that is no digit and no letter.
abbrev pub digit_value : ℕ → ℕ
digit_value c =
    if is_digit c
    then c - 48
    else if leb 65 c && leb c 90
    then c - 55
    else if leb 97 c && leb c 122
    then c - 87
    else 36

-- The digits at the front of a text, behind those already read.
unfoldable pub read_digits : (base read : ℕ) → Bytes → ℕ
read_digits base read [] = read
read_digits base read (c ∷ cs) =
    let rest = read_digits base (read * base + digit_value c) cs in
    if ltb (digit_value c) base then rest else read

unfoldable pub skip_space : Bytes → Bytes
skip_space [] = []
skip_space (c ∷ cs) = let rest = skip_space cs in if is_space c then rest else c ∷ cs

-- An optional sign: whether it is a minus, and what follows.
abbrev pub sign : Bytes → Bool × Bytes
sign [] = (false, [])
sign (c ∷ cs) = if c == b'-' then (true, cs) else if c == b'+' then (false, cs) else (false, c ∷ cs)

abbrev pub is_hex_prefix : (lead x digit : ℕ) → Bool
is_hex_prefix lead x digit =
    lead == b'0' && ((x == b'x' || x == b'X') && ltb (digit_value digit) 16)

-- "0x" counts as a prefix where a hexadecimal digit follows it.
abbrev pub has_hex_prefix : Bytes → Bool
has_hex_prefix (a ∷ b ∷ c ∷ cs) = is_hex_prefix a b c
has_hex_prefix _ = false

abbrev pub drop_two : Bytes → Bytes
drop_two (a ∷ b ∷ cs) = cs
drop_two _ = []

abbrev pub leading_zero : Bytes → Bool
leading_zero [] = false
leading_zero (c ∷ cs) = c == b'0'

-- The base that strtoul reads in, and the digits, for base 0 or 16.
abbrev pub based : (base : ℕ) → Bytes → ℕ × Bytes
based base text =
    if has_hex_prefix text
    then (16, drop_two text)
    else if base == 0
    then (if leading_zero text then 8 else 10, text)
    else (base, text)

-- std::strtoul(text, nullptr, base) for base 0 or 16: a value that does not fit gives the largest,
-- and a minus takes the value from 2 ^ 64.
unfoldable pub strtoul : (base : ℕ) → Bytes → ℕ
unfolding skip_space read_digits
strtoul base text =
    let (minus, unsigned) = sign (skip_space text) in
    let (base, digits) = based base unsigned in
    let value = read_digits base 0 digits in
    if ltb (2 ^ 64 - 1) value
    then 2 ^ 64 - 1
    else if minus
    then (2 ^ 64 - value) % 2 ^ 64
    else value

abbrev pub negated : ℕ → ℤ
negated zero = pos 0
negated (suc n) = negsuc n

-- std::strtol(text, nullptr, 10), held within the bounds of `long`.
unfoldable pub strtol : Bytes → ℤ
unfolding skip_space read_digits
strtol text =
    let (minus, digits) = sign (skip_space text) in
    let value = read_digits 10 0 digits in
    if minus then negated (min value (2 ^ 63)) else pos (min value (2 ^ 63 - 1))

-- A conversion of `long` to `int`, modulo 2 ^ 32.
abbrev pub signed32 : ℕ → ℤ
signed32 n = if ltb n (2 ^ 31) then pos n else negsuc (2 ^ 32 - 1 - n)

abbrev pub to_int : ℤ → ℤ
to_int (pos n) = signed32 (n % 2 ^ 32)
to_int (negsuc n) = signed32 (2 ^ 32 - 1 - n % 2 ^ 32)

-- std::atoi
unfoldable pub atoi : Bytes → ℤ
unfolding strtol
atoi text = to_int (strtol text)
