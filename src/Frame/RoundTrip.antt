-- ===== src/Frame/RoundTrip.antt =====
-- Decoding what `encode_frame` wrote.
use gsusb_canfd.Prelude.{
  ℕ, ◌+◌, ◌-◌, ◌*◌, ◌%◌, ◌^◌, ◌≤◌, ◌<◌, ◌≡◌, refl, ap, ◌∙◌, Bool, true, false, not, List, arith,
  length, ltb, ◌==◌, if◌then◌else◌,
}
use gsusb_canfd.Prelude.Store.{byte_at}
use gsusb_canfd.Errors.{ok}
use gsusb_canfd.Floats.{Double}
use gsusb_canfd.Frame.{CanFrame, encode_frame, decode_frame, dlc_to_length}
use gsusb_canfd.Frame.Dlc.{capacity, IsLeastDlc}
use gsusb_canfd.Frame.Encode.{wire_id, bit, IsWireFrame, encode_frame-IsWireFrame}
use gsusb_canfd.Frame.Decode.{test_bit, IsDecoded, decode_frame-IsDecoded}

-- `got` is what the far side sees of `sent`: the identifier cut to its width, the payload padded
-- with zeros to the length of its code, no error and no overflow, and the echo mark of the tag.
pub record IsReceived {D : Type 0} (sent : CanFrame D) (echo_id dlc : ℕ) (got : CanFrame D)
    : Type 0 where
  pub id : got.id ≡ wire_id sent.id sent.extended
  pub extended : got.extended ≡ sent.extended
  pub remote : got.remote ≡ sent.remote
  pub fd : got.fd ≡ sent.fd
  pub brs : got.brs ≡ sent.brs
  pub error : got.error ≡ false
  pub overflow : got.overflow ≡ false
  pub echo : got.echo ≡ not (echo_id == 2 ^ 32 - 1)
  pub channel : got.channel ≡ sent.channel
  pub size : got.size ≡ dlc_to_length dlc sent.fd
  pub storage : length got.bytes ≡ 64
  pub payload :
      (j : ℕ) → byte_at got.bytes j ≡ (if ltb j sent.size then byte_at sent.bytes j else 0)

word_bits :
    (id : ℕ) (extended remote : Bool)
    → let word = wire_id id extended + bit extended * 2 ^ 31 + bit remote * 2 ^ 30 in
      (word % 2 ^ 29 ≡ wire_id id extended)
      × (test_bit 31 word ≡ extended)
      × (test_bit 30 word ≡ remote)
      × (test_bit 29 word ≡ false)
word_bits id true true = ground arith
word_bits id true false = ground arith
word_bits id false true = ground arith
word_bits id false false = ground arith

flag_bits :
    (fd brs : Bool)
    → let flags = bit fd * 2 + bit brs * 4 in
      (test_bit 0 flags ≡ false) × (test_bit 1 flags ≡ fd) × (test_bit 2 flags ≡ brs)
flag_bits true true = (refl, refl, refl)
flag_bits true false = (refl, refl, refl)
flag_bits false true = (refl, refl, refl)
flag_bits false false = (refl, refl, refl)

module _ {D : Type 0} (F : Double D) (now : D) (sent : CanFrame D) (echo_id d : ℕ) {out : List ℕ}
    {got : CanFrame D} (least : IsLeastDlc sent.fd sent.size d)
    (wire : IsWireFrame sent echo_id d out)
    (back : IsDecoded F now out (length out) false got) where
  got_fd : got.fd ≡ sent.fd
  got_fd = back.fd ∙ ap (test_bit 1) wire.flags ∙ (flag_bits sent.fd sent.brs).1

  got_size : got.size ≡ dlc_to_length d sent.fd
  got_size = back.size ∙ rw (wire.dlc_byte, got_fd)

  got_payload :
      (j : ℕ) → byte_at got.bytes j ≡ (if ltb j sent.size then byte_at sent.bytes j else 0)
  got_payload j =
      ground (
        arith,
        back.payload j,
        wire.payload j,
        got_size,
        least.covers,
        wire.size,
        back.fits,
        got_fd,
      )

  pub decoded-IsReceived : IsReceived sent echo_id d got
  decoded-IsReceived =
      let word = word_bits sent.id sent.extended sent.remote in
      let flags = flag_bits sent.fd sent.brs in
      record {
        id = back.id ∙ rw wire.id_word word.0;
        extended = back.extended ∙ rw wire.id_word word.1;
        remote = back.remote ∙ rw wire.id_word word.2;
        fd = got_fd;
        brs = back.brs ∙ rw wire.flags flags.2;
        error = back.error ∙ rw wire.id_word word.3;
        overflow = back.overflow ∙ rw wire.flags flags.0;
        echo = back.echo ∙ rw wire.echo_word;
        channel = back.channel ∙ wire.channel_byte;
        size = got_size;
        storage = back.storage;
        payload = got_payload;
      }

-- A frame whose payload fits its kind is encoded under a tag of 32 bits, with the least length code
-- that covers the size, and the buffer decodes, with hardware timestamps off, to the frame as the
-- far side sees it (`IsReceived`).
pub decode-encode_frame :
    {D : Type 0} (F : Double D) (now : D) (sent : CanFrame D) (echo_id : ℕ)
    → sent.size ≤ capacity sent.fd
    → echo_id < 2 ^ 32
    → (d : ℕ) × (out : List ℕ) × (got : CanFrame D) × (encode_frame sent echo_id ≡ ok out)
      × (decode_frame F now out (length out) false ≡ ok got)
      × IsLeastDlc sent.fd sent.size d
      × IsReceived sent echo_id d got
decode-encode_frame F now sent echo_id fits small =
    let (d, out, e, least, wire) = encode_frame-IsWireFrame sent echo_id fits small in
    let (got, back_e, back) =
      decode_frame-IsDecoded F now out (length out) false (omega (arith, wire.size)) in
    (d, out, got, e, back_e, least, decoded-IsReceived F now sent echo_id d least wire back)
