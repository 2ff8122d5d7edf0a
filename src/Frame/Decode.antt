-- ===== src/Frame/Decode.antt =====
-- `decode_frame` on any buffer, well formed or not.
use gsusb_canfd.Prelude.{
  ℕ, ◌+◌, ◌-◌, ◌/◌, ◌%◌, ◌^◌, ◌≤◌, ◌<◌, ◌≡◌, refl, Bool, false, not, ◌&&◌, List, arith, bit_and,
  length, replicate, get_or-replicate, ltb, ◌==◌, if◌then◌else◌,
}
use gsusb_canfd.Prelude.Bits.{bit_and_mask, bit_and_bit}
use gsusb_canfd.Prelude.Store.{byte_at, copy_until, length-copy_until, byte_at-copy_until}
use gsusb_canfd.Wire.{get_u32_le}
use gsusb_canfd.Errors.{ok, err, bus_error, Message}
use gsusb_canfd.Floats.{Double}
use gsusb_canfd.Frame.{CanFrame, dlc_to_length, hw_seconds, decode_fields, decode_frame}
use gsusb_canfd.Frame.Dlc.{capacity, dlc_to_length-le}

-- Bit `k` of a word.
abbrev pub test_bit : ℕ → ℕ → Bool
test_bit k word = word / 2 ^ k % 2 == 1

flag_test : (k word : ℕ) → 0 < 2 ^ k → not (bit_and word (2 ^ k) == 0) ≡ test_bit k word
flag_test k word h = grind (arith, bit_and_bit k word)

-- What a buffer of at least twelve bytes stands for, `length` of its bytes having been received.
pub record IsDecoded {D : Type 0} (F : Double D) (now : D) (buffer : List ℕ) (received : ℕ)
    (hw_timestamp : Bool) (frame : CanFrame D) : Type 0 where
  pub id : frame.id ≡ get_u32_le buffer 4 % 2 ^ 29
  pub extended : frame.extended ≡ test_bit 31 (get_u32_le buffer 4)
  pub remote : frame.remote ≡ test_bit 30 (get_u32_le buffer 4)
  pub error : frame.error ≡ test_bit 29 (get_u32_le buffer 4)
  pub echo : frame.echo ≡ not (get_u32_le buffer 0 == 2 ^ 32 - 1)
  pub channel : frame.channel ≡ byte_at buffer 9
  pub overflow : frame.overflow ≡ test_bit 0 (byte_at buffer 10)
  pub fd : frame.fd ≡ test_bit 1 (byte_at buffer 10)
  pub brs : frame.brs ≡ test_bit 2 (byte_at buffer 10)
  pub size : frame.size ≡ dlc_to_length (byte_at buffer 8) frame.fd
  pub fits : frame.size ≤ capacity frame.fd
  pub storage : length frame.bytes ≡ 64
  -- Bytes that the code announces but that were not received stay zero.
  pub payload :
      (j : ℕ)
      → byte_at frame.bytes j
        ≡ (if ltb j frame.size && ltb (12 + j) received then byte_at buffer (12 + j) else 0)
  pub timestamp :
      let hw = hw_seconds F buffer received frame.fd hw_timestamp in
      frame.timestamp ≡ (if F.le hw (F.literal 0 0) then now else hw)

-- With hardware timestamps off there is no reading.
pub hw_seconds_off :
    {D : Type 0} (F : Double D) (buffer : List ℕ) (received : ℕ) (fd : Bool)
    → hw_seconds F buffer received fd false ≡ F.literal 0 0
unfolding hw_seconds
hw_seconds_off F buffer received fd = refl

module _ {D : Type 0} (F : Double D) (now : D) (buffer : List ℕ) (received : ℕ) (hw : Bool) where
  abbrev is_fd : Bool
  is_fd = not (bit_and (byte_at buffer 10) 2 == 0)

  abbrev payload_of : ℕ
  payload_of = dlc_to_length (byte_at buffer 8) is_fd

  payload_bytes :
      (n j : ℕ)
      → n ≤ 64
      → byte_at (copy_until n 0 received buffer 12 (replicate 64 0) 0) j
        ≡ (if ltb j n && ltb (12 + j) received then byte_at buffer (12 + j) else 0)
  payload_bytes n j h = ground (
    arith,
    byte_at-copy_until n 0 received buffer 12 (replicate 64 0) 0 j,
    get_or-replicate {A = ℕ} 64 j 0,
  )

  decode_fields-IsDecoded :
      IsDecoded F now buffer received hw (decode_fields F now buffer received hw)
  unfolding decode_fields
  decode_fields-IsDecoded =
      let small = dlc_to_length-le (byte_at buffer 8) is_fd in
      record {
        id = bit_and_mask 29 (get_u32_le buffer 4);
        extended = flag_test 31 (get_u32_le buffer 4) (omega arith);
        remote = flag_test 30 (get_u32_le buffer 4) (omega arith);
        error = flag_test 29 (get_u32_le buffer 4) (omega arith);
        echo = refl;
        channel = refl;
        overflow = flag_test 0 (byte_at buffer 10) (omega arith);
        fd = flag_test 1 (byte_at buffer 10) (omega arith);
        brs = flag_test 2 (byte_at buffer 10) (omega arith);
        size = ground (arith, small);
        fits = ground (arith, small);
        storage = length-copy_until payload_of 0 received buffer 12 (replicate 64 0) 0;
        payload = λ j. ground (arith, small, payload_bytes payload_of j);
        timestamp = refl;
      }

  -- Any buffer of which at least the twelve bytes of a header were received decodes, whatever its
  -- bytes are, and the frame's fields are what the bytes say (`IsDecoded`).
  pub decode_frame-IsDecoded :
      12 ≤ received
      → (frame : CanFrame D) × (decode_frame F now buffer received hw ≡ ok frame)
        × IsDecoded F now buffer received hw frame
  unfolding decode_frame
  decode_frame-IsDecoded whole =
      (decode_fields F now buffer received hw, ground arith, decode_fields-IsDecoded)

  -- A buffer with less than a header is a bus error.
  pub decode_frame-short :
      received < 12 → decode_frame F now buffer received hw ≡ err (bus_error Message.short_frame)
  unfolding decode_frame
  decode_frame-short h = ground arith
