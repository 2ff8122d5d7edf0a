-- ===== src/Device/Lifecycle/Transfers.antt =====
-- Sending and receiving keep the bus sound.
use gsusb_canfd.Prelude.{
  ℕ, zero, suc, ◌+◌, ◌*◌, ◌≡◌, Bool, true, false, ◌&&◌, Option, none, some, List, ◌∷◌, ◌==◌,
  if◌then◌else◌, Bool-cases, Option-cases, inl, inr, length, replicate, u32,
}
use gsusb_canfd.Prelude.Int.{ℤ, pos, pos_part, ltb_ℤ}
use gsusb_canfd.Errors.{Result-cases}
use gsusb_canfd.Effects.{pure}
use gsusb_canfd.Floats.{Double}
use gsusb_canfd.Frame.{CanFrame}
use gsusb_canfd.Usb.{Libusb, Log, BulkRequest, bulk}
use gsusb_canfd.Usb.Discovery.Balance.{open_handles}
use gsusb_canfd.Usb.Transport.Open.{holds}
use gsusb_canfd.Usb.Transport.{UsbTransport, transport_is_open, bulk_write, bulk_read}
use gsusb_canfd.Device.State.{lift, rx_size}
use gsusb_canfd.Device.Traffic.{
  started_transport, send_started, send, Clock, decode_read, read_frame, remaining_ms, receive_loop,
  receive,
}
use gsusb_canfd.Device.Lifecycle.{
  IsSound, IsAt, Keeps, bind-Keeps, then-Keeps, throw_if-Keeps, from_result-Keeps,
}

-- A property that transfers leave alone holds behind sending and receiving.
module _ {D : Type 0} (F : Double D) (usb : Libusb) (Q : Option UsbTransport → Bool → Log → Type 0)
    (transfers : (t : Option UsbTransport) (started : Bool) (handle : Option ℕ) (req : BulkRequest)
        (log : Log)
      → Q t started log
      → Q t started (bulk handle req ∷ log)) where
  bulk_write-IsAt :
      (handle : Option ℕ) (ep : ℕ) (bytes : List ℕ) (size timeout : ℕ)
      → Keeps (IsAt Q) (lift (bulk_write usb handle ep bytes size timeout))
  unfolding bulk_write
  bulk_write-IsAt handle ep bytes size timeout = record {
    keeps = λ b h. transfers b.impl.transport b.impl.started handle _ b.log h;
  }

  bulk_read-IsAt :
      (handle : Option ℕ) (ep : ℕ) (bytes : List ℕ) (size timeout : ℕ)
      → Keeps (IsAt Q) (lift (bulk_read usb handle ep bytes size timeout))
  unfolding bulk_read
  bulk_read-IsAt handle ep bytes size timeout = record {
    keeps = λ b h. transfers b.impl.transport b.impl.started handle _ b.log h;
  }

  send_started-IsAt :
      (t : UsbTransport) (frame : CanFrame D) (echo : Bool)
      → Keeps (IsAt Q) (send_started usb t frame echo)
  unfolding send_started
  send_started-IsAt t frame echo = record {
    keeps = λ b h.
        (then-Keeps (IsAt Q) _ _ (throw_if-Keeps (IsAt Q) _ _) (
            bind-Keeps (IsAt Q) _ _ (from_result-Keeps (IsAt Q) _) (λ encoded.
              then-Keeps (IsAt Q)
                (lift (bulk_write usb t.handle t.ep_out encoded (length encoded) 1000)) (pure tt)
                (bulk_write-IsAt t.handle t.ep_out encoded (length encoded) 1000)
                (record { keeps = λ b h. h })))).keeps
          b h;
  }

  pub send-IsAt : (frame : CanFrame D) (echo : Bool) → Keeps (IsAt Q) (send usb frame echo)
  unfolding send
  send-IsAt frame echo = record {
    keeps = λ b h. elim (Option-cases (started_transport b.impl)) [
      | inl e ↦ rw (e, send) h
      | inr (t, e) ↦ rw (e, send) ((send_started-IsAt t frame echo).keeps b h)
    ];
  }

  decode_read-IsAt :
      (clock : Clock D) (o : Option (ℕ × List ℕ)) → Keeps (IsAt Q) (decode_read F usb clock o)
  unfolding decode_read
  decode_read-IsAt clock none = record { keeps = λ b h. h }
  decode_read-IsAt clock (some (count, buffer)) = record { keeps = λ b h. h }

  read_frame-IsAt :
      (clock : Clock D) (t : UsbTransport) (timeout_ms : ℕ)
      → Keeps (IsAt Q) (read_frame F usb clock t timeout_ms)
  unfolding read_frame
  read_frame-IsAt clock t timeout_ms = record {
    keeps = λ b h.
        let size = rx_size b.impl in
        let m = bulk_read usb t.handle t.ep_in (replicate size 0) size timeout_ms in
        (bind-Keeps (IsAt Q) (lift m) (decode_read F usb clock)
            (bulk_read-IsAt t.handle t.ep_in (replicate size 0) size timeout_ms)
            (decode_read-IsAt clock)).keeps
          b h;
  }

  receive_loop-IsAt :
      (clock : Clock D) (limited : Bool) (deadline : ℕ) (t : UsbTransport) (fuel reading : ℕ)
      → Keeps (IsAt Q) (receive_loop F usb clock limited deadline t fuel reading)
  unfolding receive_loop
  receive_loop-IsAt clock limited deadline t zero reading = record { keeps = λ b h. h }
  receive_loop-IsAt clock limited deadline t (suc fuel) reading = record {
    keeps = λ b h.
        let left = remaining_ms F usb clock deadline b.log reading in
        let r = read_frame F usb clock t (if limited then u32 left else 0) b in
        let h' = (read_frame-IsAt clock t (if limited then u32 left else 0)).keeps b h in
        elim (Bool-cases (limited && left == 0)) [
          | inl late ↦ rw (late, receive_loop) h
          | inr in_time ↦ elim (Result-cases r.0) [
            | inr (e, failed) ↦ rw (in_time, failed, receive_loop) h'
            | inl (none, silent) ↦ rw (in_time, silent, receive_loop) h'
            | inl (some frame, got) ↦ elim (Bool-cases (r.1.impl.drop_echo && frame.echo)) [
              | inl dropped ↦
                  rw (in_time, got, dropped, receive_loop)
                    ((receive_loop-IsAt clock limited deadline t fuel (suc reading)).keeps r.1 h')
              | inr kept ↦ rw (in_time, got, kept, receive_loop) h'
            ]
          ]
        ];
  }

  pub receive-IsAt :
      (clock : Clock D) (timeout_ms : ℤ) (fuel : ℕ)
      → Keeps (IsAt Q) (receive F usb clock timeout_ms fuel)
  unfolding receive
  receive-IsAt clock timeout_ms fuel = record {
    keeps = λ b h. elim (Option-cases (started_transport b.impl)) [
      | inl e ↦ rw (e, receive) h
      | inr (t, e) ↦
          rw (e, receive)
            ((receive_loop-IsAt clock (ltb_ℤ (pos 0) timeout_ms)
                (clock.nanoseconds b.log 0 + pos_part timeout_ms * 1000000) t fuel 1).keeps
              b h)
    ];
  }

-- A bus stays sound.
module _ {D : Type 0} (F : Double D) (usb : Libusb) (base : ℕ → ℕ) where
  abbrev SoundAt : Option UsbTransport → Bool → Log → Type 0
  SoundAt t started log =
      ((key : ℕ) → open_handles key log ≡ base key + elim t [ none ↦ 0 | some u ↦ holds key u ])
      × (started ≡ true → (elim t [ none ↦ false | some u ↦ transport_is_open u ]) ≡ true)

  pub send-IsSound : (frame : CanFrame D) (echo : Bool) → Keeps (IsSound base) (send usb frame echo)
  send-IsSound frame echo = record {
    keeps = λ b h. (send-IsAt F usb SoundAt (λ t started handle req log h. h) frame echo).keeps b h;
  }

  pub receive-IsSound :
      (clock : Clock D) (timeout_ms : ℤ) (fuel : ℕ)
      → Keeps (IsSound base) (receive F usb clock timeout_ms fuel)
  receive-IsSound clock timeout_ms fuel = record {
    keeps = λ b h.
        (receive-IsAt F usb SoundAt (λ t started handle req log h. h) clock timeout_ms fuel).keeps b
          h;
  }
