-- ===== src/Device/Traffic/Receive.antt =====
-- What a receive call delivers, and that it ends.
use gsusb_canfd.Prelude.{
  ℕ, zero, suc, ◌+◌, ◌*◌, ◌^◌, ◌≤◌, ◌<◌, ◌≡◌, refl, sym, subst, Bool, true, false, ◌&&◌, Option,
  none, some, ◌∷◌, replicate, arith, ◌==◌, Bool-cases, Option-cases, inl, inr, u32,
}
use gsusb_canfd.Prelude.Int.{pos, ltb_ℤ}
use gsusb_canfd.Errors.{Result, ok, err, Result-cases}
use gsusb_canfd.Effects.{◌>>=◌}
use gsusb_canfd.Floats.{Double}
use gsusb_canfd.Usb.{Libusb, Log, BulkRequest, bulk}
use gsusb_canfd.Usb.Transport.{UsbTransport, bulk_read}
use gsusb_canfd.Device.State.{Impl, Bus, lift, rx_size}
use gsusb_canfd.Device.Traffic.{
  started_transport, Received, received, timed_out, out_of_fuel, Clock, decode_read, read_frame,
  remaining_ms, receive_loop, receive,
}

-- What a caller may rely on.
abbrev pub IsDelivery : {D : Type 0} → Result (Received D) × Bus → Type 0
IsDelivery (ok (received frame), b) = b.impl.drop_echo && frame.echo ≡ false
IsDelivery (ok timed_out, b) = Unit {0}
IsDelivery (ok out_of_fuel, b) = Unit {0}
IsDelivery (err e, b) = Unit {0}

-- Whether a call has ended: with a frame, with a time-out or with an error.
abbrev pub has_ended : {D : Type 0} → Result (Received D) → Bool
has_ended (ok out_of_fuel) = false
has_ended (ok timed_out) = true
has_ended (ok (received frame)) = true
has_ended (err e) = true

-- The read that a round asks for.
abbrev read_within : UsbTransport → Impl → (timeout_ms : ℕ) → BulkRequest
read_within t impl timeout_ms = record {
  endpoint = t.ep_in;
  bytes = replicate (rx_size impl) 0;
  size = rx_size impl;
  timeout_ms = timeout_ms;
}

-- Behind `before`, the log has only reads, each with a time limit between 1 and `limit`: libusb
-- takes 0 for no limit.
pub data IsTimed (limit : ℕ) (before : Log) : Log → Type 0 where
  no_more : IsTimed limit before before
  reads :
      {log : Log} (handle : Option ℕ) (req : BulkRequest)
      → IsTimed limit before log
      → 1 ≤ req.timeout_ms
      → req.timeout_ms ≤ limit
      → IsTimed limit before (bulk handle req ∷ log)

module _ {D : Type 0} (F : Double D) (usb : Libusb) (clock : Clock D) where
  -- From some reading on, the clock is past the deadline.
  module _ (deadline : ℕ) (rounds : ℕ)
      (late : (log : Log) (reading : ℕ)
        → rounds ≤ reading
        → deadline ≤ clock.nanoseconds log reading) where
    past :
        (log : Log) (reading : ℕ)
        → remaining_ms F usb clock deadline log reading == 0 ≡ false
        → reading < rounds
    past log reading left = ground (arith, left, late log reading)

    loop-ends :
        (t : UsbTransport) (fuel reading : ℕ) (b : Bus)
        → reading ≤ rounds
        → rounds < fuel + reading
        → has_ended (receive_loop F usb clock true deadline t fuel reading b).0 ≡ true
    unfolding receive_loop
    loop-ends t zero reading b early enough = ground (arith, early, enough)
    loop-ends t (suc fuel) reading b early enough =
        let left = remaining_ms F usb clock deadline b.log reading in
        let r = read_frame F usb clock t (u32 left) b in
        elim (Bool-cases (left == 0)) [
          | inl over ↦ rw (over, receive_loop) refl
          | inr in_time ↦ elim (Result-cases r.0) [
            | inr (e, failed) ↦ rw (in_time, failed, receive_loop) refl
            | inl (none, silent) ↦ rw (in_time, silent, receive_loop) refl
            | inl (some frame, got) ↦ elim (Bool-cases (r.1.impl.drop_echo && frame.echo)) [
              | inl dropped ↦
                  rw (in_time, got, dropped, receive_loop)
                    (loop-ends t fuel (suc reading) r.1 (past b.log reading in_time)
                      (omega (arith, enough)))
              | inr kept ↦ rw (in_time, got, kept, receive_loop) refl
            ]
          ]
        ]

  read_frame-log :
      (t : UsbTransport) (timeout_ms : ℕ) (b : Bus)
      → (read_frame F usb clock t timeout_ms b).1.log
        ≡ bulk t.handle (read_within t b.impl timeout_ms) ∷ b.log
  unfolding read_frame bulk_read decode_read
  read_frame-log t timeout_ms b =
      let read = bulk_read usb t.handle t.ep_in (replicate (rx_size b.impl) 0) (rx_size b.impl) in
      elim (Result-cases (read timeout_ms b.log).0) [
        | inr (e, failed) ↦ rw (failed, ◌>>=◌, lift, read_frame) refl
        | inl (none, silent) ↦ rw (silent, ◌>>=◌, lift, read_frame, decode_read) refl
        | inl (some got, e) ↦ rw (e, ◌>>=◌, lift, read_frame, decode_read) refl
      ]

  -- Where never more than `limit` milliseconds are left.
  module _ (deadline limit : ℕ) (narrow : limit < 2 ^ 32)
      (short : (log : Log) (reading : ℕ) → remaining_ms F usb clock deadline log reading ≤ limit)
      (before : Log) where
    read_frame-IsTimed :
        (t : UsbTransport) (reading : ℕ) (b : Bus)
        → IsTimed limit before b.log
        → remaining_ms F usb clock deadline b.log reading == 0 ≡ false
        → IsTimed limit before
            (read_frame F usb clock t
              (u32 (remaining_ms F usb clock deadline b.log reading))
              b).1.log
    read_frame-IsTimed t reading b h in_time =
        let left = remaining_ms F usb clock deadline b.log reading in
        let whole : u32 left ≡ left = omega (arith, short b.log reading, narrow) in
        let some_left : 1 ≤ left = ground (arith, in_time) in
        subst (IsTimed limit before) (sym (read_frame-log t (u32 left) b)) (
          reads t.handle (read_within t b.impl (u32 left)) h (rw whole some_left)
            (rw whole (short b.log reading)))

    loop-IsTimed :
        (t : UsbTransport) (fuel reading : ℕ) (b : Bus)
        → IsTimed limit before b.log
        → IsTimed limit before (receive_loop F usb clock true deadline t fuel reading b).1.log
    unfolding receive_loop
    loop-IsTimed t zero reading b h = h
    loop-IsTimed t (suc fuel) reading b h =
        let left = remaining_ms F usb clock deadline b.log reading in
        let r = read_frame F usb clock t (u32 left) b in
        elim (Bool-cases (left == 0)) [
          | inl over ↦ rw (over, receive_loop) h
          | inr in_time ↦
              let timed = read_frame-IsTimed t reading b h in_time in
              elim (Result-cases r.0) [
                | inr (e, failed) ↦ rw (in_time, failed, receive_loop) timed
                | inl (none, silent) ↦ rw (in_time, silent, receive_loop) timed
                | inl (some frame, got) ↦ elim (Bool-cases (r.1.impl.drop_echo && frame.echo)) [
                  | inl dropped ↦
                      rw (in_time, got, dropped, receive_loop)
                        (loop-IsTimed t fuel (suc reading) r.1 timed)
                  | inr kept ↦ rw (in_time, got, kept, receive_loop) timed
                ]
              ]
        ]

  -- A receive call with a positive timeout of less than 2 ^ 32 milliseconds ends, whether or not the
  -- frames that come are echoes, if the n-th reading of the clock is at least n nanoseconds after the
  -- first: more rounds of fuel than the timeout has nanoseconds are enough. All that it asks of
  -- libusb are reads with a time limit between 1 and the timeout, so never one without a limit.
  pub receive-ends :
      (timeout_ms fuel : ℕ) (b : Bus)
      → 0 < timeout_ms
      → timeout_ms < 2 ^ 32
      → ((log : Log) (reading : ℕ)
          → clock.nanoseconds b.log 0 + reading ≤ clock.nanoseconds log reading)
      → timeout_ms * 1000000 < fuel
      → (has_ended (receive F usb clock (pos timeout_ms) fuel b).0 ≡ true)
        × IsTimed timeout_ms b.log (receive F usb clock (pos timeout_ms) fuel b).1.log
  unfolding receive
  receive-ends timeout_ms fuel b positive narrow ticks enough =
      elim (Option-cases (started_transport b.impl)) [
        | inl e ↦ rw (e, receive) (refl, no_more)
        | inr (t, e) ↦
            let deadline = clock.nanoseconds b.log 0 + timeout_ms * 1000000 in
            let limited : ltb_ℤ (pos 0) (pos timeout_ms) ≡ true = ground (arith, positive) in
            rw (e, receive, limited)
              (
                loop-ends deadline (timeout_ms * 1000000)
                    (λ log reading long. omega (arith, ticks log reading, long)) t fuel 1 b
                    (omega (arith, positive)) (omega (arith, enough)),
                loop-IsTimed deadline timeout_ms narrow
                    (λ log reading. omega (arith, ticks log reading)) b.log t fuel 1 b no_more,
              )
      ]
