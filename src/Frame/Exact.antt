-- ===== src/Frame/Exact.antt =====
-- Frames that the wire format loses nothing of: decoding gives back the frame itself.
use gsusb_canfd.Prelude.{
  ℕ, ◌-◌, ◌^◌, ◌≤◌, ◌<◌, ◌≡◌, sym, ap, ◌∙◌, subst, Bool, true, false, not, List, arith, length,
  get_or_ext, ◌==◌, if◌then◌else◌,
}
use gsusb_canfd.Prelude.Store.{byte_at}
use gsusb_canfd.Errors.{ok}
use gsusb_canfd.Floats.{Double}
use gsusb_canfd.Frame.{CanFrame, encode_frame, decode_frame, dlc_to_length, hw_seconds}
use gsusb_canfd.Frame.Dlc.{
  capacity, IsLeastDlc, IsCodeOf, dlc_to_length-le, length_to_dlc-dlc_to_length,
  length_to_dlc-IsLeastDlc,
}
use gsusb_canfd.Frame.Encode.{wire_id, encode_frame-IsWireFrame}
use gsusb_canfd.Frame.Decode.{IsDecoded, decode_frame-IsDecoded, hw_seconds_off}
use gsusb_canfd.Frame.RoundTrip.{IsReceived, decoded-IsReceived}

-- A frame that the wire format loses nothing of: its identifier fits its width, its payload is as
-- long as one of the codes and padded with zeros, and it reports no receive condition.
pub record IsExact {D : Type 0} (frame : CanFrame D) : Type 0 where
  pub code : ℕ
  pub is_code : IsCodeOf frame.fd code
  pub size : frame.size ≡ dlc_to_length code frame.fd
  pub id : wire_id frame.id frame.extended ≡ frame.id
  pub storage : length frame.bytes ≡ 64
  pub padding : (j : ℕ) → frame.size ≤ j → byte_at frame.bytes j ≡ 0
  pub no_error : frame.error ≡ false
  pub no_overflow : frame.overflow ≡ false

-- Two least codes of one length are the same code.
least_unique : (fd : Bool) (n c d : ℕ) → IsLeastDlc fd n c → IsLeastDlc fd n d → c ≡ d
least_unique fd n c d hc hd = ground (arith, hc.least d, hd.least c, hc.covers, hd.covers)

code-IsLeastDlc :
    (fd : Bool) (code : ℕ) → IsCodeOf fd code → IsLeastDlc fd (dlc_to_length code fd) code
code-IsLeastDlc fd code h =
    let (d, e, least) =
      length_to_dlc-IsLeastDlc (dlc_to_length code fd) fd (dlc_to_length-le code fd) in
    let same : d ≡ code = ground (arith, e, length_to_dlc-dlc_to_length code fd h) in
    subst (IsLeastDlc fd (dlc_to_length code fd)) same least

frame_ext :
    {D : Type 0} (f g : CanFrame D)
    → f.id ≡ g.id
    → f.bytes ≡ g.bytes
    → f.size ≡ g.size
    → f.extended ≡ g.extended
    → f.fd ≡ g.fd
    → f.brs ≡ g.brs
    → f.remote ≡ g.remote
    → f.error ≡ g.error
    → f.echo ≡ g.echo
    → f.overflow ≡ g.overflow
    → f.channel ≡ g.channel
    → f.timestamp ≡ g.timestamp
    → f ≡ g
frame_ext f g a b c d e h i j k l m n = λ t. record {
  id = a t;
  bytes = b t;
  size = c t;
  extended = d t;
  fd = e t;
  brs = h t;
  remote = i t;
  error = j t;
  echo = k t;
  overflow = l t;
  channel = m t;
  timestamp = n t;
}

module _ {D : Type 0} (F : Double D) (now : D) (sent : CanFrame D) (echo_id : ℕ)
    (zero_le : F.le (F.literal 0 0) (F.literal 0 0) ≡ true) (exact : IsExact sent) where
  exact_size : {d : ℕ} → IsLeastDlc sent.fd sent.size d → dlc_to_length d sent.fd ≡ sent.size
  exact_size {d} least =
      let code = code-IsLeastDlc sent.fd exact.code exact.is_code in
      let same : d ≡ exact.code =
        least_unique sent.fd sent.size d exact.code least (rw exact.size code) in
      rw (same, exact.size)

  exact_received :
      (d : ℕ) (out : List ℕ) (got : CanFrame D)
      → IsLeastDlc sent.fd sent.size d
      → IsReceived sent echo_id d got
      → IsDecoded F now out (length out) false got
      → got ≡ record sent { echo = not (echo_id == 2 ^ 32 - 1); timestamp = now }
  exact_received d out got least received back =
      frame_ext got _ (received.id ∙ exact.id) same_bytes (received.size ∙ exact_size least)
        received.extended received.fd received.brs received.remote
        (received.error ∙ sym exact.no_error) received.echo
        (received.overflow ∙ sym exact.no_overflow) received.channel (back.timestamp ∙ stamp)
    where
      same_bytes : got.bytes ≡ sent.bytes
      same_bytes =
          get_or_ext 0 got.bytes sent.bytes (received.storage ∙ sym exact.storage)
            (λ j h. ground (arith, received.payload j, exact.padding j))

      stamp :
          (if F.le (hw_seconds F out (length out) got.fd false) (F.literal 0 0)
            then now
            else hw_seconds F out (length out) got.fd false)
          ≡ now
      stamp = rw (hw_seconds_off F out (length out) got.fd, zero_le)

-- A frame that the wire format loses nothing of, sent under a tag of 32 bits and decoded with
-- hardware timestamps off, comes back as it was sent but for two fields: its timestamp is the host
-- clock's and its echo mark says whether the tag is other than kEchoNone. `0.0 <= 0.0` must hold.
pub decode-encode_frame_exact :
    {D : Type 0} (F : Double D) (now : D) (sent : CanFrame D) (echo_id : ℕ)
    → F.le (F.literal 0 0) (F.literal 0 0) ≡ true
    → IsExact sent
    → echo_id < 2 ^ 32
    → (out : List ℕ) × (encode_frame sent echo_id ≡ ok out)
      × (decode_frame F now out (length out) false
          ≡ ok (record sent { echo = not (echo_id == 2 ^ 32 - 1); timestamp = now }))
decode-encode_frame_exact F now sent echo_id zero_le exact small =
    let fits : sent.size ≤ capacity sent.fd = rw exact.size (dlc_to_length-le exact.code sent.fd) in
    let (d, out, e, least, wire) = encode_frame-IsWireFrame sent echo_id fits small in
    let (got, back_e, back) =
      decode_frame-IsDecoded F now out (length out) false (omega (arith, wire.size)) in
    let received = decoded-IsReceived F now sent echo_id d least wire back in
    (
      out,
      e,
      back_e
          ∙ ap ok (exact_received F now sent echo_id zero_le exact d out got least received back),
    )
