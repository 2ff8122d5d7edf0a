-- ===== src/Tools/Term/Send/Kept.antt =====
-- What the far side gets of the words of a `send` command.
use gsusb_canfd.Prelude.{
  ℕ, ◌≤◌, ◌<◌, ◌^◌, ◌≡◌, ◌∙◌, min, Bool, true, false, ◌||◌, List, arith, length, ltb, if◌then◌else◌,
  Bool-cases, inl, inr,
}
use gsusb_canfd.Prelude.Store.{byte_at}
use gsusb_canfd.Errors.{ok}
use gsusb_canfd.Floats.{Double}
use gsusb_canfd.Frame.{CanFrame, encode_frame, decode_frame}
use gsusb_canfd.Frame.Dlc.{capacity}
use gsusb_canfd.Frame.Encode.{wire_id}
use gsusb_canfd.Frame.RoundTrip.{decode-encode_frame}
use gsusb_canfd.CApi.Frames.{fresh_copy}
use gsusb_canfd.Tools.Term.{Term}
use gsusb_canfd.Tools.Term.Send.{frame_of}

-- `got` has the identifier whole, in a frame kind that is wide enough for it, and the bytes, cut to
-- 64 and followed by zeros.
pub record IsKept {D : Type 0} (wanted : ℕ) (bytes : List ℕ) (force : Bool) (got : CanFrame D)
    : Type 0 where
  pub id : got.id ≡ wanted
  pub extended : got.extended ≡ (force || ltb 0x7FF wanted)
  pub remote : got.remote ≡ false
  pub payload :
      (j : ℕ) → byte_at got.bytes j ≡ (if ltb j (min (length bytes) 64) then byte_at bytes j else 0)

pub wide_enough : (id : ℕ) (force : Bool) → id < 2 ^ 29 → wire_id id (force || ltb 0x7FF id) ≡ id
wide_enough id true h = omega (arith, h)
wide_enough id false h = elim (Bool-cases (ltb 0x7FF id)) [
  | inl large ↦ rw large (omega (arith, h))
  | inr small ↦ rw small (ground (arith, small))
]

-- The frame that the terminal sends for an identifier of 29 bits and a payload that fits the kind
-- of frame that is configured is encoded, on any channel and under either echo tag, and decodes to
-- a frame with that identifier, in the extended format where it is forced or the identifier needs
-- it, and those bytes, the first 64.
pub frame_of-IsKept :
    {D : Type 0} (F : Double D) (now : D) (t : Term D) (id : ℕ) (bytes : List ℕ) (force : Bool)
    (channel echo_id : ℕ)
    → id < 2 ^ 29
    → min (length bytes) 64 ≤ capacity t.config.fd
    → echo_id < 2 ^ 32
    → (out : List ℕ) × (got : CanFrame D) × (encode_frame
          (record (frame_of F t id bytes force) { channel = channel })
          echo_id
        ≡ ok out)
      × (decode_frame F now out (length out) false ≡ ok got)
      × IsKept id bytes force got
unfolding frame_of
frame_of-IsKept F now t id bytes force channel echo_id narrow fits small =
    let sent = record (frame_of F t id bytes force) { channel = channel } in
    let (d, out, got, encoded, decoded, least, back) =
      decode-encode_frame F now sent echo_id fits small in
    (
      out,
      got,
      encoded,
      decoded,
      record {
        id = back.id ∙ wide_enough id force narrow;
        extended = back.extended;
        remote = back.remote;
        payload = λ j.
            ground
              (arith, back.payload j, fresh_copy (min (length bytes) 64) bytes j (omega arith));
      },
    )
