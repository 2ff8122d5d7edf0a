-- ===== src/Tools/HexId/Parsed.antt =====
-- Which identifiers parseHexId of canfd_term.cpp reads.
use gsusb_canfd.Prelude.{
  ℕ, zero, suc, ◌+◌, ◌-◌, ◌/◌, ◌%◌, ◌^◌, ◌<◌, ◌≡◌, refl, ap, sym, ◌∙◌, Bool, true, false, ◌&&◌,
  Option, none, some, [], ◌∷◌, ◌++◌, arith, length, replicate, leb, ltb, u32, if◌then◌else◌,
  Bool-cases, inl, inr,
}
use mathlib.Core.List.{append-nil}
use gsusb_canfd.Text.{Bytes, codes}
use gsusb_canfd.Text.Print.{print_hex, to_digits, digit_char}
use gsusb_canfd.Text.Scan.{
  is_xdigit, is_space, strtoul, skip_space, sign, based, has_hex_prefix, read_digits,
}
use gsusb_canfd.Text.Hex.{all_of, print_hex-digits, read_digits-print_hex}
use gsusb_canfd.Usb.Text.{to_lower, text_eq, is_empty}
use gsusb_canfd.Tools.HexId.{marked, parse_hex_id, id_of_digits, without, has_prefix, drop_front}

xdigit_not_space : (c : ℕ) → is_xdigit c ≡ true → is_space c ≡ false
xdigit_not_space c h = ground (arith, h)

skip_space-digits : (text : Bytes) → all_of is_xdigit text ≡ true → skip_space text ≡ text
unfolding skip_space
skip_space-digits [] h = refl
skip_space-digits (c ∷ cs) h = ground (arith, h)

sign-digits : (text : Bytes) → all_of is_xdigit text ≡ true → sign text ≡ (false, text)
sign-digits [] h = refl
sign-digits (c ∷ cs) h = ground (arith, h)

no_hex_prefix : (text : Bytes) → all_of is_xdigit text ≡ true → has_hex_prefix text ≡ false
no_hex_prefix [] h = refl
no_hex_prefix (a ∷ []) h = refl
no_hex_prefix (a ∷ b ∷ []) h = refl
no_hex_prefix (a ∷ b ∷ c ∷ cs) h = ground (arith, h)

based-digits : (text : Bytes) → all_of is_xdigit text ≡ true → based 16 text ≡ (16, text)
based-digits text h = rw (no_hex_prefix text h) refl

-- strtoul of hexadecimal digits alone is their value, where it fits.
pub strtoul-digits :
    (text : Bytes)
    → all_of is_xdigit text ≡ true
    → read_digits 16 0 text < 2 ^ 64
    → strtoul 16 text ≡ read_digits 16 0 text
unfolding strtoul
strtoul-digits text h fits =
    rw (skip_space-digits text h, sign-digits text h, no_hex_prefix text h) (ground (arith, fits))

no_ext : (text : Bytes) → all_of is_xdigit text ≡ true → has_prefix (codes "ext:") text ≡ false
unfolding to_lower text_eq
no_ext [] h = refl
no_ext (a ∷ []) h = refl
no_ext (a ∷ b ∷ []) h = refl
no_ext (a ∷ b ∷ c ∷ []) h = refl
no_ext (a ∷ b ∷ c ∷ d ∷ text) h = ground (arith, h)

no_0x : (text : Bytes) → all_of is_xdigit text ≡ true → has_prefix (codes "0x") text ≡ false
unfolding to_lower text_eq
no_0x [] h = refl
no_0x (a ∷ []) h = refl
no_0x (a ∷ b ∷ text) h = ground (arith, h)

-- The range of identifiers that are taken.
abbrev pub within_29 : (id : ℕ) → Option ℕ
within_29 id = if leb id 0x1FFFFFFF then some id else none

not_empty : (text : Bytes) → 0 < length text → is_empty text ≡ false
not_empty [] h = absurd (omega (arith, h))
not_empty (c ∷ cs) h = refl

id_of_digits-digits :
    (text : Bytes) (id : ℕ)
    → 0 < length text
    → all_of is_xdigit text ≡ true
    → read_digits 16 0 text ≡ id
    → id < 2 ^ 32
    → id_of_digits text ≡ within_29 id
unfolding id_of_digits
id_of_digits-digits text id some_text h e fits =
    let value : u32 (strtoul 16 text) ≡ id =
      omega (arith, strtoul-digits text h (omega (arith, e, fits)), e, fits) in
    rw (not_empty text some_text, h, value) refl

-- A token whose text behind the prefixes is digits of a number below 2 ^ 32.
of_parts :
    (token text : Bytes) (forced : Bool) (id : ℕ)
    → has_prefix (codes "ext:") token ≡ forced
    → without (codes "0x") (without (codes "ext:") token) ≡ text
    → 0 < length text
    → all_of is_xdigit text ≡ true
    → read_digits 16 0 text ≡ id
    → id < 2 ^ 32
    → parse_hex_id token ≡ marked forced (within_29 id)
unfolding parse_hex_id
of_parts token text forced id marks parts some_text h e fits =
    ap (marked (has_prefix (codes "ext:") token))
      (ap id_of_digits parts ∙ id_of_digits-digits text id some_text h e fits)
    ∙ ap (λ (f : Bool). marked f (within_29 id)) marks

without-none : (prefix text : Bytes) → has_prefix prefix text ≡ false → without prefix text ≡ text
without-none prefix text h = rw h refl

plain :
    (text : Bytes)
    → all_of is_xdigit text ≡ true
    → without (codes "0x") (without (codes "ext:") text) ≡ text
plain text h =
    ap (without (codes "0x")) (without-none (codes "ext:") text (no_ext text h))
    ∙ without-none (codes "0x") text (no_0x text h)

without-yes :
    (prefix text : Bytes)
    → has_prefix prefix text ≡ true
    → without prefix text ≡ drop_front (length prefix) text
without-yes prefix text h = rw h refl

longer : (n k l : ℕ) → k ≡ n + l → 0 < l → ltb n k ≡ true
longer n k l e h = ground (arith, e, h)

ext_prefix :
    (text : Bytes) → 0 < length text → has_prefix (codes "ext:") (codes "ext:" ++ text) ≡ true
unfolding to_lower text_eq
ext_prefix text h =
    ap (λ (b : Bool). b && true)
      (longer 4 (length (codes "ext:" ++ text)) (length text) (omega arith) h)

hex_prefix : (text : Bytes) → 0 < length text → has_prefix (codes "0x") (codes "0x" ++ text) ≡ true
unfolding to_lower text_eq
hex_prefix text h =
    ap (λ (b : Bool). b && true)
      (longer 2 (length (codes "0x" ++ text)) (length text) (omega arith) h)

not_ext : (text : Bytes) → 0 < length text → has_prefix (codes "ext:") (codes "0x" ++ text) ≡ false
unfolding to_lower text_eq
not_ext [] h = refl
not_ext (c ∷ []) h = refl
not_ext (c ∷ d ∷ cs) h = ground arith

append-filled : (s t : Bytes) → 0 < length t → 0 < length (s ++ t)
append-filled [] t h = h
append-filled (c ∷ cs) t h = omega arith

to_digits-filled : (fuel n : ℕ) → 0 < length (to_digits 16 fuel n)
unfolding to_digits
to_digits-filled zero n = omega arith
to_digits-filled (suc fuel) n = elim (Bool-cases (ltb n 16)) [
  | inl small ↦ rw (small, to_digits) (omega arith)
  | inr large ↦
      rw (large, to_digits)
        (append-filled (to_digits 16 fuel (n / 16)) (digit_char (n % 16) ∷ []) (omega arith))
]

print_hex-filled : (width n : ℕ) → 0 < length (print_hex width n)
unfolding print_hex
print_hex-filled width n =
    append-filled (replicate (width - length (to_digits 16 20 n)) 48) (to_digits 16 20 n)
      (to_digits-filled 20 n)

module _ (width id : ℕ) (fits : id < 2 ^ 32) where
  abbrev digits : Bytes
  digits = print_hex width id

  are_digits : all_of is_xdigit digits ≡ true
  are_digits = print_hex-digits width id (omega (arith, fits))

  value : read_digits 16 0 digits ≡ id
  unfolding read_digits
  value =
      ap (read_digits 16 0) (sym (append-nil digits))
      ∙ read_digits-print_hex width id [] (omega (arith, fits))

  filled : 0 < length digits
  filled = print_hex-filled width id

  -- A number of 32 bits, printed in hexadecimal with any width, is read as that identifier where it
  -- is at most 0x1FFFFFFF and is refused above; "ext:" in front of it marks it as extended, and
  -- "0x" in front of it changes nothing.
  pub parse_hex_id-print_hex :
      (parse_hex_id digits ≡ marked false (within_29 id))
      × (parse_hex_id (codes "ext:" ++ digits) ≡ marked true (within_29 id))
      × (parse_hex_id (codes "0x" ++ digits) ≡ marked false (within_29 id))
  parse_hex_id-print_hex = (
    of_parts digits digits false id (no_ext digits are_digits) (plain digits are_digits) filled
        are_digits value fits,
    of_parts (codes "ext:" ++ digits) digits true id (ext_prefix digits filled)
        (ap (without (codes "0x"))
            (without-yes (codes "ext:") (codes "ext:" ++ digits) (ext_prefix digits filled))
          ∙ without-none (codes "0x") digits (no_0x digits are_digits))
        filled are_digits value fits,
    of_parts (codes "0x" ++ digits) digits false id (not_ext digits filled)
        (ap (without (codes "0x"))
            (without-none (codes "ext:") (codes "0x" ++ digits) (not_ext digits filled))
          ∙ without-yes (codes "0x") (codes "0x" ++ digits) (hex_prefix digits filled))
        filled are_digits value fits,
  )
