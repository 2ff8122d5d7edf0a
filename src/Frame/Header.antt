-- ===== src/Frame/Header.antt =====
-- The twelve bytes that `header_bytes` writes, before the payload is copied in.
use gsusb_canfd.Prelude.{
  ℕ, ◌+◌, ◌^◌, ◌≤◌, ◌<◌, ◌≡◌, ◌∙◌, List, arith, length, length-set, length-replicate, get_or-set,
  get_or-replicate, replicate, set, ◌==◌, if◌then◌else◌,
}
use gsusb_canfd.Prelude.Store.{byte_at}
use gsusb_canfd.Wire.{
  put_u32_le, get_u32_le, length-put_u32_le, byte_at-put_u32_le, get-put_u32_le,
  get-put_u32_le_apart,
}
use gsusb_canfd.Frame.{header_bytes}

-- A word whose four bytes agree in two buffers reads the same.
pub get_u32_le-ext :
    (xs ys : List ℕ) (i : ℕ)
    → ((j : ℕ) → j < i + 4 → byte_at xs j ≡ byte_at ys j)
    → get_u32_le xs i ≡ get_u32_le ys i
unfolding get_u32_le
get_u32_le-ext xs ys i same = ground (
  arith,
  same i (omega arith),
  same (i + 1) (omega arith),
  same (i + 2) (omega arith),
  same (i + 3) (omega arith),
)

-- Four bytes stored behind the words.
byte_at-set_four :
    (xs : List ℕ) (a b c d j : ℕ)
    → 12 ≤ length xs
    → byte_at (set (set (set (set xs 8 a) 9 b) 10 c) 11 d) j ≡ (
        if j == 11
        then d
        else if j == 10
        then c
        else if j == 9
        then b
        else if j == 8
        then a
        else byte_at xs j)
byte_at-set_four xs a b c d j h = ground (
  arith,
  get_or-set (set (set (set xs 8 a) 9 b) 10 c) 11 j d 0,
  get_or-set (set (set xs 8 a) 9 b) 10 j c 0,
  get_or-set (set xs 8 a) 9 j b 0,
  get_or-set xs 8 j a 0,
  length-set (set (set xs 8 a) 9 b) 10 c,
  length-set (set xs 8 a) 9 b,
  length-set xs 8 a,
)

module _ (p echo_id can_id dlc channel flags : ℕ) where
  abbrev words : List ℕ
  words = put_u32_le (put_u32_le (replicate (12 + p) 0) 0 echo_id) 4 can_id

  length-words : length words ≡ 12 + p
  length-words = simp (length-put_u32_le, length-replicate)

  abbrev header : List ℕ
  header = header_bytes p echo_id can_id dlc channel flags

  pub length-header_bytes : length header ≡ 12 + p
  unfolding header_bytes
  length-header_bytes = simp (length-set, length-put_u32_le, length-replicate)

  -- The bytes of the header behind the two words, and the zeros behind the header.
  byte_at-header_bytes :
      (j : ℕ)
      → byte_at header j ≡ (
          if j == 11
          then 0
          else if j == 10
          then flags
          else if j == 9
          then channel
          else if j == 8
          then dlc
          else byte_at words j)
  unfolding header_bytes
  byte_at-header_bytes j =
      byte_at-set_four words dlc channel flags 0 j (omega (arith, length-words))

  -- The words read back, and the payload area is zero.
  pub header_fields :
      echo_id < 2 ^ 32
      → can_id < 2 ^ 32
      → (get_u32_le words 0 ≡ echo_id) × (get_u32_le words 4 ≡ can_id)
  header_fields he hc = ground (
    arith,
    get-put_u32_le_apart (put_u32_le (replicate (12 + p) 0) 0 echo_id) 4 can_id 0,
    get-put_u32_le (replicate (12 + p) 0) 0 echo_id,
    get-put_u32_le (put_u32_le (replicate (12 + p) 0) 0 echo_id) 4 can_id,
    length-put_u32_le (replicate (12 + p) 0) 0 echo_id,
    length-replicate {A = ℕ} (12 + p) 0,
  )

  byte_at-words : (j : ℕ) → 8 ≤ j → byte_at words j ≡ 0
  byte_at-words j h = ground (
    arith,
    byte_at-put_u32_le (put_u32_le (replicate (12 + p) 0) 0 echo_id) 4 can_id j,
    byte_at-put_u32_le (replicate (12 + p) 0) 0 echo_id j,
    length-put_u32_le (replicate (12 + p) 0) 0 echo_id,
    length-replicate {A = ℕ} (12 + p) 0,
    get_or-replicate {A = ℕ} (12 + p) j 0,
  )

  header_word : (i : ℕ) → i + 4 ≤ 8 → get_u32_le header i ≡ get_u32_le words i
  header_word i h = get_u32_le-ext header words i (λ j lt. ground (arith, byte_at-header_bytes j))

  pub header_echo : echo_id < 2 ^ 32 → can_id < 2 ^ 32 → get_u32_le header 0 ≡ echo_id
  header_echo he hc = header_word 0 (omega arith) ∙ (header_fields he hc).0

  pub header_id : echo_id < 2 ^ 32 → can_id < 2 ^ 32 → get_u32_le header 4 ≡ can_id
  header_id he hc = header_word 4 (omega arith) ∙ (header_fields he hc).1

  pub header_tail :
      (j : ℕ)
      → 8 ≤ j
      → byte_at header j
        ≡ (if j == 10 then flags else if j == 9 then channel else if j == 8 then dlc else 0)
  header_tail j h = ground (arith, byte_at-header_bytes j, byte_at-words j)
