-- ===== src/Tools/Cli/Frames.antt =====
-- What the far side gets of the words of `canfd send`.
use gsusb_canfd.Prelude.{
  ℕ, ◌≤◌, ◌<◌, ◌^◌, ◌≡◌, refl, ◌∙◌, Bool, true, false, some, List, arith, leb, length, u8,
}
use gsusb_canfd.Errors.{ok}
use gsusb_canfd.Floats.{Double}
use gsusb_canfd.Frame.{CanFrame, encode_frame, decode_frame}
use gsusb_canfd.Frame.Dlc.{capacity}
use gsusb_canfd.Frame.RoundTrip.{decode-encode_frame}
use gsusb_canfd.CApi.Frames.{fresh_copy}
use gsusb_canfd.Tools.Term.Send.Kept.{IsKept, wide_enough}
use gsusb_canfd.Tools.Cli.{filled_frame, make_frame}

capacity_le : (fd : Bool) → capacity fd ≤ 64
capacity_le fd = ground arith

-- For an identifier of 29 bits and a payload that fits the kind of frame, makeFrame stays within
-- its array, and the frame is encoded, on any channel and under either echo tag, and decodes to a
-- frame with that identifier, in the extended format where the identifier needs it, and those bytes.
pub make_frame-IsKept :
    {D : Type 0} (F : Double D) (now : D) (id : ℕ) (bytes : List ℕ) (fd : Bool)
    (channel echo_id : ℕ)
    → id < 2 ^ 29
    → length bytes ≤ capacity fd
    → echo_id < 2 ^ 32
    → (sent : CanFrame D) × (out : List ℕ) × (got : CanFrame D) × (make_frame F id bytes fd
        ≡ some sent)
      × (encode_frame (record sent { channel = channel }) echo_id ≡ ok out)
      × (decode_frame F now out (length out) false ≡ ok got)
      × IsKept id bytes false got
unfolding make_frame
make_frame-IsKept F now id bytes fd channel echo_id narrow fits small =
    let within : length bytes ≤ 64 = omega (arith, fits, capacity_le fd) in
    let test : leb (length bytes) 64 ≡ true = ground (arith, within) in
    let whole : u8 (length bytes) ≡ length bytes = omega (arith, within) in
    let sent = filled_frame F id bytes fd in
    let (d, out, got, encoded, decoded, least, back) =
      decode-encode_frame F now (record sent { channel = channel }) echo_id
        (omega (arith, whole, fits)) small in
    (
      sent,
      out,
      got,
      rw (test, make_frame) refl,
      encoded,
      decoded,
      record {
        id = back.id ∙ wide_enough id false narrow;
        extended = back.extended;
        remote = back.remote;
        payload = λ j.
            ground (arith, back.payload j, fresh_copy (length bytes) bytes j within, whole, within);
      },
    )
