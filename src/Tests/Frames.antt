-- ===== src/Tests/Frames.antt =====
-- The theorems on frames and words, at concrete ones.
use gsusb_canfd.Prelude.{
  ℕ, zero, suc, ◌≤◌, ◌≡◌, refl, true, false, List, [], ◌∷◌, arith, length, replicate,
  get_or-replicate,
}
use gsusb_canfd.Prelude.Int.{ℤ, pos}
use gsusb_canfd.Prelude.Store.{byte_at}
use gsusb_canfd.Errors.{ok}
use gsusb_canfd.Frame.{CanFrame, encode_frame, decode_frame, dlc_to_length}
use gsusb_canfd.Frame.Dlc.{IsLeastDlc}
use gsusb_canfd.Frame.Encode.{IsWireFrame, encode_frame-IsWireFrame}
use gsusb_canfd.Frame.Decode.{IsDecoded, decode_frame-IsDecoded}
use gsusb_canfd.Frame.RoundTrip.{IsReceived, decode-encode_frame}
use gsusb_canfd.Frame.Exact.{IsExact, decode-encode_frame_exact}
use gsusb_canfd.Tests.Fixed.{fixed}

-- One byte in a classic frame.
abbrev pub one_byte : CanFrame ℤ
one_byte = record {
  id = 0x123;
  bytes = 0x5A ∷ replicate 63 0;
  size = 1;
  extended = false;
  fd = false;
  brs = false;
  remote = false;
  error = false;
  echo = false;
  overflow = false;
  channel = 0;
  timestamp = pos 0;
}

-- Ten bytes in a CAN FD frame with a wide identifier and the bit rate switch.
abbrev wide : CanFrame ℤ
wide = record one_byte { id = 0x1FEDCBA9; size = 10; extended = true; fd = true; brs = true }

padding : (j : ℕ) → 1 ≤ j → byte_at one_byte.bytes j ≡ 0
padding zero h = ground (arith, h)
padding (suc j) h = get_or-replicate 63 j 0

one_byte-IsExact : IsExact one_byte
unfolding dlc_to_length
one_byte-IsExact = record {
  code = 1;
  is_code = omega arith;
  size = refl;
  id = refl;
  storage = refl;
  padding = padding;
  no_error = refl;
  no_overflow = refl;
}

decode-encode_frame_example :
    (d : ℕ) × (out : List ℕ) × (got : CanFrame ℤ) × (encode_frame wide 5 ≡ ok out)
    × (decode_frame fixed (pos 7) out (length out) false ≡ ok got)
    × IsLeastDlc true 10 d
    × IsReceived wide 5 d got
decode-encode_frame_example = decode-encode_frame fixed (pos 7) wide 5 (omega arith) (omega arith)

decode-encode_frame_exact_example :
    (out : List ℕ) × (encode_frame one_byte 5 ≡ ok out)
    × (decode_frame fixed (pos 7) out (length out) false
        ≡ ok (record one_byte { echo = true; timestamp = pos 7 }))
decode-encode_frame_exact_example =
    decode-encode_frame_exact fixed (pos 7) one_byte 5 refl one_byte-IsExact (omega arith)

encode_frame-IsWireFrame_example :
    (d : ℕ) × (out : List ℕ) × (encode_frame wide 5 ≡ ok out)
    × IsLeastDlc true 10 d
    × IsWireFrame wide 5 d out
encode_frame-IsWireFrame_example = encode_frame-IsWireFrame wide 5 (omega arith) (omega arith)

-- A header that announces eight bytes, of which one has come.
abbrev cut_short : List ℕ
cut_short = 255 ∷ 255 ∷ 255 ∷ 255 ∷ 0x23 ∷ 1 ∷ 0 ∷ 0 ∷ 8 ∷ 0 ∷ 1 ∷ 0 ∷ 0xAA ∷ []

decode_frame-IsDecoded_example :
    (frame : CanFrame ℤ) × (decode_frame fixed (pos 7) cut_short 13 true ≡ ok frame)
    × IsDecoded fixed (pos 7) cut_short 13 true frame
decode_frame-IsDecoded_example =
    decode_frame-IsDecoded fixed (pos 7) cut_short 13 true (omega arith)
