-- ===== src/Device/Traffic.antt =====
-- CanFdBus::send and CanFdBus::receive. The monotonic clock is a parameter: the n-th reading of a
-- call, in nanoseconds, given what has been asked of libusb.
pub mod Receive
pub mod Send
pub mod Link
use gsusb_canfd.Prelude.{
  ℕ, zero, suc, ◌+◌, ◌-◌, ◌*◌, ◌/◌, Bool, true, false, not, ◌&&◌, Option, none, some, List, u32,
  length, replicate, leb, ltb, ◌==◌, if◌then◌else◌,
}
use gsusb_canfd.Prelude.Int.{ℤ, pos, pos_part, ltb_ℤ}
use gsusb_canfd.Errors.{Result, ok, err, argument_error, bus_error, Message}
use gsusb_canfd.Effects.{Action, ◌>>=◌, ◌>>◌, pure, throw_if}
use gsusb_canfd.Floats.{Double}
use gsusb_canfd.Frame.{CanFrame, encode_frame, decode_frame, k_echo_tag, k_echo_none}
use gsusb_canfd.Usb.{Libusb, Log}
use gsusb_canfd.Usb.Transport.{UsbTransport, bulk_write, bulk_read}
use gsusb_canfd.Device.State.{Impl, Bus, lift, from_result, rx_size}

-- The transport of a started bus.
abbrev pub started_transport : Impl → Option UsbTransport
started_transport impl = if impl.started then impl.transport else none

module _ {D : Type 0} (usb : Libusb) where
  -- CanFdBus::send, on a started bus.
  unfoldable pub send_started : UsbTransport → CanFrame D → (echo : Bool) → Action Bus (Unit {0})
  send_started t frame echo b =
      (do
        throw_if (frame.fd && not b.impl.is_fd) (bus_error Message.fd_on_classic)
        encoded ← from_result (
            encode_frame (record frame { channel = b.impl.channel })
              (if echo then k_echo_tag else k_echo_none))
        lift (bulk_write usb t.handle t.ep_out encoded (length encoded) 1000)
        pure tt)
        b

  unfoldable pub send : CanFrame D → (echo : Bool) → Action Bus (Unit {0})
  send frame echo b = elim (started_transport b.impl) [
    | none ↦ (err (argument_error Message.not_started), b)
    | some t ↦ send_started t frame echo b
  ]

-- How a receive call ends. `out_of_fuel` stands for a loop that goes on.
pub data Received (D : Type 0) : Type 0 where
  received : CanFrame D → Received D
  timed_out : Received D
  out_of_fuel : Received D

-- The parameters of the environment: the clock, and what hostMonotonicSeconds() returns.
pub record Clock (D : Type 0) : Type 0 where
  pub nanoseconds : Log → (reading : ℕ) → ℕ
  pub host_seconds : Log → D

module _ {D : Type 0} (F : Double D) (usb : Libusb) (clock : Clock D) where
  -- What the bytes read are decoded as.
  unfoldable pub decode_read : Option (ℕ × List ℕ) → Action Bus (Option (CanFrame D))
  decode_read none b = (ok none, b)
  decode_read (some (count, buffer)) b = (
    elim (decode_frame F (clock.host_seconds b.log) buffer count b.impl.hw_timestamp) [
      | ok frame ↦ ok (some frame)
      | err e ↦ err e
    ],
    b,
  )

  -- One bulk read and the decoding: `none` if the read timed out.
  unfoldable pub read_frame : UsbTransport → (timeout_ms : ℕ) → Action Bus (Option (CanFrame D))
  unfolding decode_read
  read_frame t timeout_ms b =
      let size = rx_size b.impl in
      (lift (bulk_read usb t.handle t.ep_in (replicate size 0) size timeout_ms) >>= decode_read) b

  -- Milliseconds left at a reading, cut off; 0 also stands for a deadline that has passed.
  abbrev pub remaining_ms : (deadline : ℕ) → Log → (reading : ℕ) → ℕ
  remaining_ms deadline log reading = (deadline - clock.nanoseconds log reading) / 1000000

  -- The rounds of the loop; `limited` says that the timeout is positive.
  unfoldable pub receive_loop :
      (limited : Bool) (deadline : ℕ) → UsbTransport → (fuel reading : ℕ) → Action Bus (Received D)
  receive_loop limited deadline t zero reading b = (ok out_of_fuel, b)
  receive_loop limited deadline t (suc fuel) reading b =
      let left = remaining_ms deadline b.log reading in
      elim (limited && left == 0) [
        | true ↦ (ok timed_out, b)
        | false ↦
            let (r, b') = read_frame t (if limited then u32 left else 0) b in
            elim r [
              | err e ↦ (err e, b')
              | ok none ↦ (ok timed_out, b')
              | ok (some frame) ↦ elim (b'.impl.drop_echo && frame.echo) [
                | true ↦ receive_loop limited deadline t fuel (suc reading) b'
                | false ↦ (ok (received frame), b')
              ]
            ]
      ]

  -- CanFdBus::receive. The deadline has no bound here: the code's 64-bit nanoseconds overflow at
  -- timeouts of centuries.
  unfoldable pub receive : (timeout_ms : ℤ) (fuel : ℕ) → Action Bus (Received D)
  receive timeout_ms fuel b = elim (started_transport b.impl) [
    | none ↦ (err (argument_error Message.not_started), b)
    | some t ↦
        receive_loop (ltb_ℤ (pos 0) timeout_ms)
          (clock.nanoseconds b.log 0 + pos_part timeout_ms * 1000000) t fuel 1 b
  ]
