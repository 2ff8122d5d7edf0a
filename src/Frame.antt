-- ===== src/Frame.antt =====
-- include/canfd/frame.hpp and src/frame.cpp: CAN and CAN FD frames, their DLC codes, and the
-- gs_usb wire format. A buffer is a list of bytes. `double` is a parameter, and so is the reading
-- of the host's monotonic clock, which `decode_frame` takes when it needs one.
pub mod Dlc
pub mod Header
pub mod Encode
pub mod Decode
pub mod RoundTrip
pub mod Exact
pub mod Show
use gsusb_canfd.Prelude.{
  ℕ, zero, suc, ◌+◌, ◌-◌, Bool, true, false, not, ◌&&◌, List, [], ◌∷◌, bit_and, bit_or, u8, length,
  get_or, set, replicate, ltb, leb, ◌==◌, if◌then◌else◌,
}
use gsusb_canfd.Prelude.Store.{byte_at, copy_loop, copy_until}
use gsusb_canfd.Wire.{put_u32_le, get_u32_le}
use gsusb_canfd.Errors.{Result, ok, err, ◌>>=◌, argument_error, bus_error, Message}
use gsusb_canfd.Floats.{Double}

abbrev pub k_can_eff_flag : ℕ
k_can_eff_flag = 0x80000000

abbrev pub k_can_rtr_flag : ℕ
k_can_rtr_flag = 0x40000000

abbrev pub k_can_err_flag : ℕ
k_can_err_flag = 0x20000000

abbrev pub k_can_eff_mask : ℕ
k_can_eff_mask = 0x1FFFFFFF

abbrev pub k_echo_none : ℕ
k_echo_none = 0xFFFFFFFF

abbrev pub k_echo_tag : ℕ
k_echo_tag = 1

abbrev pub k_max_payload : ℕ
k_max_payload = 64

abbrev pub k_header_size : ℕ
k_header_size = 12

-- gs_usb_protocol.hpp
abbrev pub k_flag_overflow : ℕ
k_flag_overflow = 1

abbrev pub k_flag_fd : ℕ
k_flag_fd = 2

abbrev pub k_flag_brs : ℕ
k_flag_brs = 4

pub record CanFrame (D : Type 0) : Type 0 where
  pub id : ℕ
  pub bytes : List ℕ
  pub size : ℕ
  pub extended : Bool
  pub fd : Bool
  pub brs : Bool
  pub remote : Bool
  pub error : Bool
  pub echo : Bool
  pub overflow : Bool
  pub channel : ℕ
  pub timestamp : D

abbrev pub k_dlc_to_len : List ℕ
k_dlc_to_len = 0 ∷ 1 ∷ 2 ∷ 3 ∷ 4 ∷ 5 ∷ 6 ∷ 7 ∷ 8 ∷ 12 ∷ 16 ∷ 20 ∷ 24 ∷ 32 ∷ 48 ∷ 64 ∷ []

-- for (dlc = 16 - left; dlc < 16; ++dlc), and the `return 15` behind it.
unfoldable pub dlc_search : (left dlc length : ℕ) → ℕ
dlc_search zero dlc length = 15
dlc_search (suc left) dlc length =
    if leb length (get_or k_dlc_to_len dlc 0) then dlc else dlc_search left (suc dlc) length

unfoldable pub length_to_dlc : ℕ → Bool → Result ℕ
unfolding dlc_search
length_to_dlc length fd =
    if not fd
    then if ltb 8 length
      then err (argument_error Message.classic_payload_over_8)
      else ok (u8 length)
    else if ltb k_max_payload length
    then err (argument_error Message.fd_payload_over_64)
    else ok (dlc_search 16 0 length)

unfoldable pub dlc_to_length : ℕ → Bool → ℕ
dlc_to_length dlc fd =
    if not fd
    then if ltb 8 dlc then 0 else dlc
    else if ltb dlc 16
    then get_or k_dlc_to_len dlc 0
    else 0

-- The identifier word: the masked identifier with the flag bits.
unfoldable pub can_id_word : ℕ → Bool → Bool → ℕ
can_id_word id extended remote =
    let can_id = bit_and id (if extended then k_can_eff_mask else 0x7FF) in
    let can_id = if extended then bit_or can_id k_can_eff_flag else can_id in
    if remote then bit_or can_id k_can_rtr_flag else can_id

unfoldable pub flag_byte : Bool → Bool → ℕ
flag_byte fd brs =
    let flags : ℕ = 0 in
    let flags = if fd then bit_or flags k_flag_fd else flags in
    if brs then bit_or flags k_flag_brs else flags

-- The buffer of zeros with the header fields stored into it.
unfoldable pub header_bytes : (payload_size echo_id can_id dlc channel flags : ℕ) → List ℕ
header_bytes payload_size echo_id can_id dlc channel flags =
    let out : List ℕ = replicate (k_header_size + payload_size) 0 in
    let out = put_u32_le out 0 echo_id in
    let out = put_u32_le out 4 can_id in
    let out = set out 8 dlc in
    let out = set out 9 channel in let out = set out 10 flags in set out 11 0

module _ {D : Type 0} where
  -- The whole buffer, once the sizes are known to be right.
  unfoldable pub frame_bytes : CanFrame D → (echo_id dlc : ℕ) → List ℕ
  frame_bytes frame echo_id dlc =
      let can_id = can_id_word frame.id frame.extended frame.remote in
      let flags = flag_byte frame.fd frame.brs in
      let payload_size : ℕ = if frame.fd then k_max_payload else 8 in
      let out = header_bytes payload_size echo_id can_id dlc frame.channel flags in
      copy_loop frame.size 0 frame.bytes 0 out k_header_size

  unfoldable pub encode_frame : CanFrame D → ℕ → Result (List ℕ)
  encode_frame frame echo_id =
      if ltb (if frame.fd then 64 else 8) frame.size
      then err (argument_error Message.payload_too_large)
      else do dlc ← length_to_dlc frame.size frame.fd; ok (frame_bytes frame echo_id dlc)

module _ {D : Type 0} (F : Double D) where
  -- The hardware timestamp, or 0.0 where there is none.
  unfoldable pub hw_seconds : (buffer : List ℕ) (length : ℕ) (fd hw_timestamp : Bool) → D
  hw_seconds buffer length fd hw_timestamp =
      let payload_size : ℕ = if fd then k_max_payload else 8 in
      if hw_timestamp && leb (k_header_size + payload_size + 4) length
      then F.div (F.of_unsigned (get_u32_le buffer (k_header_size + payload_size)))
          (F.literal 1000000 0)
      else F.literal 0 0

  -- The frame that a buffer with a whole header is read as. `now` is what hostMonotonicSeconds()
  -- returns.
  unfoldable pub decode_fields : (now : D) (buffer : List ℕ) (length : ℕ) → Bool → CanFrame D
  decode_fields now buffer length hw_timestamp =
      let echo_id = get_u32_le buffer 0 in
      let can_id = get_u32_le buffer 4 in
      let dlc = byte_at buffer 8 in
      let flags = byte_at buffer 10 in
      let fd = not (bit_and flags k_flag_fd == 0) in
      let payload = dlc_to_length dlc fd in
      let timestamp = hw_seconds buffer length fd hw_timestamp in
      record {
        id = bit_and can_id k_can_eff_mask;
        bytes = copy_until payload 0 length buffer k_header_size (replicate k_max_payload 0) 0;
        size = u8 payload;
        extended = not (bit_and can_id k_can_eff_flag == 0);
        fd = fd;
        brs = not (bit_and flags k_flag_brs == 0);
        remote = not (bit_and can_id k_can_rtr_flag == 0);
        error = not (bit_and can_id k_can_err_flag == 0);
        echo = not (echo_id == k_echo_none);
        overflow = not (bit_and flags k_flag_overflow == 0);
        channel = byte_at buffer 9;
        timestamp = if F.le timestamp (F.literal 0 0) then now else timestamp;
      }

  unfoldable pub decode_frame :
      (now : D) (buffer : List ℕ) (length : ℕ) → Bool → Result (CanFrame D)
  decode_frame now buffer length hw_timestamp =
      if ltb length k_header_size
      then err (bus_error Message.short_frame)
      else ok (decode_fields now buffer length hw_timestamp)
