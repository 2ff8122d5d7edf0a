-- ===== src/Wire.antt =====
-- Little-endian 32-bit words in a byte buffer: `putU32Le` and `getU32Le` of src/frame.cpp (the
-- same text stands in src/bit_timing.cpp and, as `readU32Le`, in src/device.cpp).
use gsusb_canfd.Prelude.{
  ℕ, ◌+◌, ◌*◌, ◌/◌, ◌%◌, ◌^◌, ◌≤◌, ◌<◌, ◌≡◌, List, arith, bit_and, bit_or, u8, u32, ◌<<<◌, ◌>>>◌,
  length, ◌⊎◌, set, length-set, get_or-set, All, get_or-All, ◌==◌, if◌then◌else◌,
}
use gsusb_canfd.Prelude.Bits.{bit_and_mask, bit_or_field}
use gsusb_canfd.Prelude.Store.{byte_at}

abbrev pub IsByte : ℕ → Type 0
IsByte b = b < 256

-- `out` is the buffer and the offset of its pointer into it.
unfoldable pub put_u32_le : (out : List ℕ) (offset value : ℕ) → List ℕ
put_u32_le out offset value =
    let out = set out offset (u8 (bit_and value 0xff)) in
    let out = set out (offset + 1) (u8 (bit_and (value >>> 8) 0xff)) in
    let out = set out (offset + 2) (u8 (bit_and (value >>> 16) 0xff)) in
    set out (offset + 3) (u8 (bit_and (value >>> 24) 0xff))

unfoldable pub get_u32_le : (buffer : List ℕ) (offset : ℕ) → ℕ
get_u32_le buffer offset =
    bit_or
      (bit_or (bit_or (byte_at buffer offset) (u32 (byte_at buffer (offset + 1) <<< 8)))
        (u32 (byte_at buffer (offset + 2) <<< 16)))
      (u32 (byte_at buffer (offset + 3) <<< 24))

low_byte : (v : ℕ) → u8 (bit_and v 0xff) ≡ v % 256
low_byte v = omega (arith, bit_and_mask 8 v)

pub length-put_u32_le :
    (out : List ℕ) (offset value : ℕ) → length (put_u32_le out offset value) ≡ length out
unfolding put_u32_le
length-put_u32_le out offset value = simp length-set

-- The four bytes of a word, lowest first, and the other bytes of the buffer as they were.
pub byte_at-put_u32_le :
    (out : List ℕ) (offset value j : ℕ)
    → offset + 4 ≤ length out
    → byte_at (put_u32_le out offset value) j ≡ (
        if j == offset
        then value % 256
        else if j == offset + 1
        then value / 2 ^ 8 % 256
        else if j == offset + 2
        then value / 2 ^ 16 % 256
        else if j == offset + 3
        then value / 2 ^ 24 % 256
        else byte_at out j)
unfolding put_u32_le
byte_at-put_u32_le out offset value j fits = simp low_byte (grind (arith, get_or-set, length-set))

joined_bytes :
    (a b c d : ℕ)
    → IsByte a
    → IsByte b
    → IsByte c
    → IsByte d
    → bit_or (bit_or (bit_or a (u32 (b <<< 8))) (u32 (c <<< 16))) (u32 (d <<< 24))
      ≡ a + 2 ^ 8 * b + 2 ^ 16 * c + 2 ^ 24 * d
joined_bytes a b c d ha hb hc hd =
    let eb : u32 (b <<< 8) ≡ b * 2 ^ 8 = omega arith in
    let ec : u32 (c <<< 16) ≡ c * 2 ^ 16 = omega arith in
    let ed : u32 (d <<< 24) ≡ d * 2 ^ 24 = omega arith in
    rw
      (
        eb,
        ec,
        ed,
        bit_or_field 8 a b ha,
        bit_or_field 16 (a + b * 2 ^ 8) c (omega arith),
        bit_or_field 24 (a + b * 2 ^ 8 + c * 2 ^ 16) d (omega arith),
      )
      (omega arith)

-- The word that four bytes stand for.
pub get_u32_le-eq-sum :
    (buffer : List ℕ) (offset : ℕ)
    → All IsByte buffer
    → get_u32_le buffer offset
      ≡ byte_at buffer offset
        + 2 ^ 8 * byte_at buffer (offset + 1)
        + 2 ^ 16 * byte_at buffer (offset + 2)
        + 2 ^ 24 * byte_at buffer (offset + 3)
unfolding get_u32_le
get_u32_le-eq-sum buffer offset bytes =
    joined_bytes _ _ _ _ (byte offset) (byte (offset + 1)) (byte (offset + 2)) (byte (offset + 3))
  where
    byte : (i : ℕ) → IsByte (byte_at buffer i)
    byte i = get_or-All IsByte buffer i 0 bytes (omega arith)

-- A stored word reads back.
pub get-put_u32_le :
    (out : List ℕ) (offset value : ℕ)
    → offset + 4 ≤ length out
    → value < 2 ^ 32
    → get_u32_le (put_u32_le out offset value) offset ≡ value
unfolding get_u32_le
get-put_u32_le out offset value fits small = ground (
  arith,
  byte_at-put_u32_le out offset value offset fits,
  byte_at-put_u32_le out offset value (offset + 1) fits,
  byte_at-put_u32_le out offset value (offset + 2) fits,
  byte_at-put_u32_le out offset value (offset + 3) fits,
  joined_bytes (value % 256) (value / 2 ^ 8 % 256) (value / 2 ^ 16 % 256) (value / 2 ^ 24 % 256),
)

-- A word elsewhere in the buffer stays as it was.
pub get-put_u32_le_apart :
    (out : List ℕ) (offset value other : ℕ)
    → offset + 4 ≤ length out
    → (other + 4 ≤ offset) ⊎ (offset + 4 ≤ other)
    → get_u32_le (put_u32_le out offset value) other ≡ get_u32_le out other
unfolding get_u32_le
get-put_u32_le_apart out offset value other fits apart = ground (
  arith,
  byte_at-put_u32_le out offset value other fits,
  byte_at-put_u32_le out offset value (other + 1) fits,
  byte_at-put_u32_le out offset value (other + 2) fits,
  byte_at-put_u32_le out offset value (other + 3) fits,
)
