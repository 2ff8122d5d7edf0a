-- ===== src/Device/Traffic/Link.antt =====
-- A frame from one bus to another: what send writes is what receive reads.
use gsusb_canfd.Prelude.{
  ℕ, suc, ◌+◌, ◌*◌, ◌≤◌, ◌≡◌, refl, sym, subst, Bool, false, ◌&&◌, Option, some, List, ◌∷◌, arith,
  length, replicate,
}
use gsusb_canfd.Prelude.Int.{pos, eqb_ℤ}
use gsusb_canfd.Errors.{ok}
use gsusb_canfd.Effects.{◌>>=◌}
use gsusb_canfd.Floats.{Double}
use gsusb_canfd.Frame.{CanFrame, decode_frame, k_echo_none}
use gsusb_canfd.Frame.Dlc.{capacity, IsLeastDlc}
use gsusb_canfd.Frame.RoundTrip.{IsReceived, decode-encode_frame}
use gsusb_canfd.Usb.{Libusb, BulkRequest, bulk}
use gsusb_canfd.Usb.Transport.{UsbTransport, bulk_read}
use gsusb_canfd.Device.State.{Impl, Bus, lift, rx_size}
use gsusb_canfd.Device.Traffic.{
  started_transport, send, received, Clock, decode_read, read_frame, receive_loop, receive,
}
use gsusb_canfd.Device.Traffic.Send.{send-IsSent}

-- The read that a receive call without a time limit asks for.
abbrev pub read_request : UsbTransport → Impl → BulkRequest
read_request t impl = record {
  endpoint = t.ep_in;
  bytes = replicate (rx_size impl) 0;
  size = rx_size impl;
  timeout_ms = 0;
}

module _ {D : Type 0} (F : Double D) (usb : Libusb) (clock : Clock D) (b : Bus) (t : UsbTransport)
    (bytes : List ℕ) (got : CanFrame D) (in_time : eqb_ℤ (pos 0) usb.error_timeout ≡ false)
    (answer : usb.bulk_transfer b.log t.handle (read_request t b.impl)
      ≡ (pos 0, length bytes, bytes))
    (decoded : decode_frame F
        (clock.host_seconds (bulk t.handle (read_request t b.impl) ∷ b.log))
        bytes
        (length bytes)
        b.impl.hw_timestamp
      ≡ ok got) where
  bulk_read_answered :
      (bulk_read usb t.handle t.ep_in (replicate (rx_size b.impl) 0) (rx_size b.impl) 0 b.log).0
      ≡ ok (some (length bytes, bytes))
  unfolding bulk_read
  bulk_read_answered = rw (answer, in_time, bulk_read) refl

  abbrev behind : Bus
  behind = record { impl = b.impl; log = bulk t.handle (read_request t b.impl) ∷ b.log }

  decode_read_answered :
      (decode_read F usb clock (some (length bytes, bytes)) behind).0 ≡ ok (some got)
  unfolding decode_read
  decode_read_answered = rw (decoded, decode_read) refl

  read_frame_answered : (read_frame F usb clock t 0 b).0 ≡ ok (some got)
  unfolding read_frame bulk_read
  read_frame_answered = rw (bulk_read_answered, ◌>>=◌, lift, read_frame) decode_read_answered

  -- The first round of the loop, for any deadline.
  loop_answered :
      (deadline fuel : ℕ)
      → got.echo ≡ false
      → (receive_loop F usb clock false deadline t (suc fuel) 1 b).0 ≡ ok (received got)
  unfolding receive_loop
  loop_answered deadline fuel untagged =
      let r = read_frame F usb clock t 0 b in
      let kept : r.1.impl.drop_echo && got.echo ≡ false = ground (arith, untagged) in
      rw (read_frame_answered, kept, receive_loop) refl

  receive_answered :
      (fuel : ℕ)
      → started_transport b.impl ≡ some t
      → got.echo ≡ false
      → (receive F usb clock (pos 0) (suc fuel) b).0 ≡ ok (received got)
  unfolding receive
  receive_answered fuel here untagged =
      rw (here, receive) (loop_answered (clock.nanoseconds b.log 0 + 0 * 1000000) fuel untagged)

-- A frame that one bus sends untagged reaches a receive call without a time limit on another
-- started bus, if the read is answered by the bytes of the write, which fill its buffer, and frames
-- carry no hardware timestamp there. It arrives as the far side sees it, on the sender's channel.
pub send-receive :
    {D : Type 0} (F : Double D) (near far : Libusb) (clock : Clock D) (frame : CanFrame D)
    (b c there : Bus) (t : UsbTransport) (fuel : ℕ)
    → frame.size ≤ capacity frame.fd
    → send near frame false b ≡ (ok tt, c)
    → started_transport there.impl ≡ some t
    → there.impl.hw_timestamp ≡ false
    → eqb_ℤ (pos 0) far.error_timeout ≡ false
    → ((handle : Option ℕ) (req : BulkRequest)
        → c.log ≡ bulk handle req ∷ b.log
        → far.bulk_transfer there.log t.handle (read_request t there.impl)
          ≡ (pos 0, req.size, req.bytes))
    → (d : ℕ) × (got : CanFrame D) × ((receive F far clock (pos 0) (suc fuel) there).0
        ≡ ok (received got))
      × IsLeastDlc frame.fd frame.size d
      × IsReceived (record frame { channel = b.impl.channel }) k_echo_none d got
send-receive F near far clock frame b c there t fuel fits sent here plain in_time answer =
    let (from, bytes, started, allowed, encoded, wrote) = send-IsSent near frame false b c sent in
    let out = record frame { channel = b.impl.channel } in
    let now = clock.host_seconds (bulk t.handle (read_request t there.impl) ∷ there.log) in
    let (d, wire, got, good, back, least, seen) =
      decode-encode_frame F now out k_echo_none fits (omega arith) in
    let same : wire ≡ bytes = cc in
    let decoded : decode_frame F now bytes (length bytes) there.impl.hw_timestamp ≡ ok got =
      subst (λ (stamped : Bool). decode_frame F now bytes (length bytes) stamped ≡ ok got)
        (sym plain)
        (subst (λ (l : List ℕ). decode_frame F now l (length l) false ≡ ok got) same back) in
    let read = answer from.handle _ wrote.1 in
    (
      d,
      got,
      receive_answered F far clock there t bytes got in_time read decoded fuel here seen.echo,
      least,
      seen,
    )
