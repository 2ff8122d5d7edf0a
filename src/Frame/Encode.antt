-- ===== src/Frame/Encode.antt =====
-- What `encode_frame` writes, field by field.
use gsusb_canfd.Prelude.{
  ℕ, ◌+◌, ◌-◌, ◌*◌, ◌%◌, ◌^◌, ◌≤◌, ◌<◌, ◌≡◌, refl, ap, ◌∙◌, Bool, true, false, List, arith, length,
  ltb, leb, ◌&&◌, ◌==◌, if◌then◌else◌,
}
use gsusb_canfd.Prelude.Bits.{bit_and_mask, bit_or_bit}
use gsusb_canfd.Prelude.Store.{byte_at, length-copy_loop, byte_at-copy_loop}
use gsusb_canfd.Wire.{get_u32_le}
use gsusb_canfd.Errors.{ok, err, argument_error, Message}
use gsusb_canfd.Frame.{CanFrame, can_id_word, flag_byte, header_bytes, frame_bytes, encode_frame}
use gsusb_canfd.Frame.Header.{
  get_u32_le-ext, length-header_bytes, header_echo, header_id, header_tail,
}
use gsusb_canfd.Frame.Dlc.{capacity, IsLeastDlc, length_to_dlc-IsLeastDlc}

-- The identifier bits that go on the wire: 29 of an extended frame and 11 of a standard one.
abbrev pub wire_id : ℕ → Bool → ℕ
wire_id id extended = if extended then id % 2 ^ 29 else id % 2 ^ 11

abbrev pub bit : Bool → ℕ
bit b = if b then 1 else 0

-- The identifier word as a sum.
pub can_id_word-eq-sum :
    (id : ℕ) (extended remote : Bool)
    → can_id_word id extended remote
      ≡ wire_id id extended + bit extended * 2 ^ 31 + bit remote * 2 ^ 30
unfolding can_id_word
can_id_word-eq-sum id true true = ground (
  arith,
  bit_and_mask 29 id,
  bit_or_bit 31 (id % 2 ^ 29) (omega arith),
  bit_or_bit 30 (id % 2 ^ 29 + 2 ^ 31) (omega arith),
)
can_id_word-eq-sum id true false =
    ground (arith, bit_and_mask 29 id, bit_or_bit 31 (id % 2 ^ 29) (omega arith))
can_id_word-eq-sum id false true =
    ground (arith, bit_and_mask 11 id, bit_or_bit 30 (id % 2 ^ 11) (omega arith))
can_id_word-eq-sum id false false = ground (arith, bit_and_mask 11 id)

pub can_id_word-lt : (id : ℕ) (extended remote : Bool) → can_id_word id extended remote < 2 ^ 32
can_id_word-lt id extended remote = ground (arith, can_id_word-eq-sum id extended remote)

pub flag_byte-eq-sum : (fd brs : Bool) → flag_byte fd brs ≡ bit fd * 2 + bit brs * 4
unfolding flag_byte
flag_byte-eq-sum true true = refl
flag_byte-eq-sum true false = refl
flag_byte-eq-sum false true = refl
flag_byte-eq-sum false false = refl

-- The wire format of a frame: twelve bytes of header, then the payload, padded with zeros to 8 or
-- 64 bytes.
pub record IsWireFrame {D : Type 0} (frame : CanFrame D) (echo_id dlc : ℕ) (out : List ℕ)
    : Type 0 where
  pub size : length out ≡ 12 + capacity frame.fd
  pub echo_word : get_u32_le out 0 ≡ echo_id
  pub id_word :
      get_u32_le out 4
      ≡ wire_id frame.id frame.extended + bit frame.extended * 2 ^ 31 + bit frame.remote * 2 ^ 30
  pub dlc_byte : byte_at out 8 ≡ dlc
  pub channel_byte : byte_at out 9 ≡ frame.channel
  pub flags : byte_at out 10 ≡ bit frame.fd * 2 + bit frame.brs * 4
  pub reserved : byte_at out 11 ≡ 0
  pub payload :
      (j : ℕ) → byte_at out (12 + j) ≡ (if ltb j frame.size then byte_at frame.bytes j else 0)

module _ {D : Type 0} (frame : CanFrame D) (echo_id dlc : ℕ) where
  abbrev header_of : List ℕ
  header_of =
      header_bytes (capacity frame.fd) echo_id (can_id_word frame.id frame.extended frame.remote)
        dlc frame.channel (flag_byte frame.fd frame.brs)

  length-header_of : length header_of ≡ 12 + capacity frame.fd
  length-header_of = length-header_bytes _ _ _ _ _ _

  byte_at-frame_bytes :
      (j : ℕ)
      → frame.size ≤ capacity frame.fd
      → byte_at (frame_bytes frame echo_id dlc) j ≡ (
          if leb 12 j && ltb j (12 + frame.size)
          then byte_at frame.bytes (j - 12)
          else byte_at header_of j)
  unfolding frame_bytes
  byte_at-frame_bytes j fits =
      ground (arith, byte_at-copy_loop frame.size 0 frame.bytes 0 header_of 12 j, length-header_of)

  module _ (fits : frame.size ≤ capacity frame.fd) where
    frame_word :
        (i : ℕ) → i + 4 ≤ 12 → get_u32_le (frame_bytes frame echo_id dlc) i ≡ get_u32_le header_of i
    frame_word i h =
        get_u32_le-ext (frame_bytes frame echo_id dlc) header_of i
          (λ j lt. ground (arith, byte_at-frame_bytes j fits))

    length-frame_bytes : length (frame_bytes frame echo_id dlc) ≡ 12 + capacity frame.fd
    unfolding frame_bytes
    length-frame_bytes = length-copy_loop frame.size 0 frame.bytes 0 header_of 12 ∙ length-header_of

    frame_tail :
        (j : ℕ)
        → 8 ≤ j
        → byte_at (frame_bytes frame echo_id dlc) j ≡ (
            if leb 12 j && ltb j (12 + frame.size)
            then byte_at frame.bytes (j - 12)
            else if j == 10
            then flag_byte frame.fd frame.brs
            else if j == 9
            then frame.channel
            else if j == 8
            then dlc
            else 0)
    frame_tail j h =
        byte_at-frame_bytes j fits
        ∙ ap
            (λ (t : ℕ).
              if leb 12 j && ltb j (12 + frame.size) then byte_at frame.bytes (j - 12) else t)
            (header_tail _ _ _ _ _ _ j h)

    frame_bytes-IsWireFrame :
        echo_id < 2 ^ 32 → IsWireFrame frame echo_id dlc (frame_bytes frame echo_id dlc)
    frame_bytes-IsWireFrame small =
        let word = can_id_word-lt frame.id frame.extended frame.remote in
        record {
          size = length-frame_bytes;
          echo_word = frame_word 0 (omega arith) ∙ header_echo _ _ _ _ _ _ small word;
          id_word =
              frame_word 4 (omega arith)
              ∙ header_id _ _ _ _ _ _ small word
              ∙ can_id_word-eq-sum frame.id frame.extended frame.remote;
          dlc_byte = frame_tail 8 (omega arith);
          channel_byte = frame_tail 9 (omega arith);
          flags = frame_tail 10 (omega arith) ∙ flag_byte-eq-sum frame.fd frame.brs;
          reserved = frame_tail 11 (omega arith);
          payload = λ j. ground (arith, frame_tail (12 + j) (omega arith));
        }

-- Encoding a payload that fits its kind, under a tag of 32 bits, writes the wire format with the
-- least length code that covers the size.
pub encode_frame-IsWireFrame :
    {D : Type 0} (frame : CanFrame D) (echo_id : ℕ)
    → frame.size ≤ capacity frame.fd
    → echo_id < 2 ^ 32
    → (d : ℕ) × (out : List ℕ) × (encode_frame frame echo_id ≡ ok out)
      × IsLeastDlc frame.fd frame.size d
      × IsWireFrame frame echo_id d out
unfolding encode_frame
encode_frame-IsWireFrame frame echo_id fits small =
    let (d, e, least) = length_to_dlc-IsLeastDlc frame.size frame.fd fits in
    (
      d,
      frame_bytes frame echo_id d,
      ground (arith, e),
      least,
      frame_bytes-IsWireFrame frame echo_id d fits small,
    )

-- A payload that does not fit the frame kind is refused, and nothing is written.
pub encode_frame-too_large :
    {D : Type 0} (frame : CanFrame D) (echo_id : ℕ)
    → capacity frame.fd < frame.size
    → encode_frame frame echo_id ≡ err (argument_error Message.payload_too_large)
unfolding encode_frame
encode_frame-too_large frame echo_id large = ground arith
