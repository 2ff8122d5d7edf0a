-- ===== src/Tools/Payload/RoundTrip.antt =====
-- Printing a payload and reading it.
use gsusb_canfd.Prelude.{
  ℕ, zero, suc, ◌+◌, ◌*◌, ◌/◌, ◌%◌, ◌≤◌, ◌<◌, ◌≡◌, refl, ap, ◌∙◌, Bool, true, false, List, [], ◌∷◌,
  ◌++◌, arith, length, take, ltb, u8, if◌then◌else◌, Bool-cases, inl, inr,
}
use gsusb_canfd.Prelude.Store.{byte_at}
use gsusb_canfd.Text.{Bytes, codes}
use gsusb_canfd.Text.Print.{digit_char, to_digits, print_hex}
use gsusb_canfd.Text.Scan.{strtoul, skip_space, read_digits}
use gsusb_canfd.Text.Hex.{is_xdigit-digit_char}
use gsusb_canfd.Frame.{CanFrame}
use gsusb_canfd.Frame.Show.{show_bytes}
use gsusb_canfd.Tools.Payload.{clean, pairs, parse_data, format_bytes}

one_digit : (fuel n : ℕ) → n < 16 → to_digits 16 fuel n ≡ digit_char n ∷ []
unfolding to_digits
one_digit zero n h = refl
one_digit (suc fuel) n h = rw (ltb_yes n 16 h, to_digits) refl
  where
    ltb_yes : (m k : ℕ) → m < k → ltb m k ≡ true
    ltb_yes m k h = ground (arith, h)

next_digit :
    (fuel n : ℕ)
    → 16 ≤ n
    → to_digits 16 (suc fuel) n ≡ to_digits 16 fuel (n / 16) ++ (digit_char (n % 16) ∷ [])
unfolding to_digits
next_digit fuel n h = let large : ltb n 16 ≡ false = ground (arith, h) in rw (large, to_digits) refl

-- %02X of a byte is two digits.
pub two_digits : (b : ℕ) → b < 256 → print_hex 2 b ≡ digit_char (b / 16) ∷ digit_char (b % 16) ∷ []
unfolding print_hex
two_digits b h = elim (Bool-cases (ltb b 16)) [
  | inl small ↦
      let quotient : b / 16 ≡ 0 = ground (arith, small) in
      let remainder : b % 16 ≡ b = ground (arith, small) in
      rw (one_digit 20 b (ground (arith, small)), quotient, remainder) refl
  | inr large ↦
      rw (next_digit 19 b (ground (arith, large)), one_digit 19 (b / 16) (omega (arith, h))) refl
]

-- strtoul of two digits.
byte_of_pair :
    (c d : ℕ) → c < 16 → d < 16 → strtoul 16 (digit_char c ∷ digit_char d ∷ []) ≡ c * 16 + d
unfolding strtoul skip_space read_digits
byte_of_pair c d hc hd = ground (arith, hc, hd)

-- `left` bytes from an index on.
slice : (left i : ℕ) → List ℕ → List ℕ
slice zero i bytes = []
slice (suc left) i bytes = byte_at bytes i ∷ slice left (suc i) bytes

clean-pair :
    (c d : ℕ) (rest : Bytes)
    → c < 16
    → d < 16
    → clean (digit_char c ∷ digit_char d ∷ rest) ≡ digit_char c ∷ digit_char d ∷ clean rest
unfolding clean
clean-pair c d rest hc hd = rw (is_xdigit-digit_char c hc, is_xdigit-digit_char d hd) refl

clean-separator :
    (more : Bool) (rest : Bytes) → clean ((if more then codes " " else []) ++ rest) ≡ clean rest
unfolding clean
clean-separator true rest = refl
clean-separator false rest = refl

parse_shown :
    (left i size : ℕ) (bytes : List ℕ)
    → ((j : ℕ) → byte_at bytes j < 256)
    → pairs (clean (show_bytes left i size bytes)) ≡ slice left i bytes
unfolding show_bytes clean pairs slice
parse_shown zero i size bytes small = refl
parse_shown (suc left) i size bytes small =
    let b = byte_at bytes i in
    let high : b / 16 < 16 = omega (arith, small i) in
    let low : b % 16 < 16 = omega arith in
    let rest = show_bytes left (suc i) size bytes in
    let separated = (if ltb (i + 1) size then codes " " else []) ++ rest in
    let value : u8 (strtoul 16 (digit_char (b / 16) ∷ digit_char (b % 16) ∷ [])) ≡ b =
      omega (arith, byte_of_pair (b / 16) (b % 16) high low, small i) in
    rw
      (
        two_digits b (small i),
        clean-pair (b / 16) (b % 16) separated high low,
        clean-separator (ltb (i + 1) size) rest,
        value,
        parse_shown left (suc i) size bytes small,
      )
      refl

slice-suc : (left i b : ℕ) (bytes : List ℕ) → slice left (suc i) (b ∷ bytes) ≡ slice left i bytes
unfolding slice
slice-suc zero i b bytes = refl
slice-suc (suc left) i b bytes =
    ap (λ (t : List ℕ). byte_at bytes i ∷ t) (slice-suc left (suc i) b bytes)

slice-take : (n : ℕ) (bytes : List ℕ) → n ≤ length bytes → slice n 0 bytes ≡ take n bytes
unfolding slice
slice-take zero bytes h = refl
slice-take (suc n) [] h = absurd (omega (arith, h))
slice-take (suc n) (b ∷ bytes) h =
    ap (λ (t : List ℕ). b ∷ t) (slice-suc n 0 b bytes ∙ slice-take n bytes (omega (arith, h)))

-- The payload of a frame, printed by the terminal's formatBytes, is read back by parseData as the
-- frame's bytes up to its size, where these are bytes and the frame has that many.
pub parse_data-format_bytes :
    {D : Type 0} (frame : CanFrame D)
    → frame.size ≤ length frame.bytes
    → ((j : ℕ) → byte_at frame.bytes j < 256)
    → parse_data (format_bytes frame) ≡ take frame.size frame.bytes
unfolding parse_data
parse_data-format_bytes frame fits small =
    parse_shown frame.size 0 frame.size frame.bytes small ∙ slice-take frame.size frame.bytes fits
