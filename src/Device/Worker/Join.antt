-- ===== src/Device/Worker/Join.antt =====
-- The steps of the receive thread while `stop` waits for it.
use gsusb_canfd.Prelude.{
  ℕ, zero, suc, ◌+◌, ◌*◌, ◌≤◌, ◌<◌, ◌≡◌, refl, true, false, arith, inl, inr, ◌⊎◌, ◌∙◌,
}
use gsusb_canfd.Prelude.Int.{pos}
use gsusb_canfd.Errors.{Result, ok, err}
use gsusb_canfd.Floats.{Double}
use gsusb_canfd.Frame.{CanFrame}
use gsusb_canfd.Usb.{Libusb, Log}
use gsusb_canfd.Device.Traffic.{Clock, Received, received, timed_out, out_of_fuel, receive}
use gsusb_canfd.Device.Traffic.Receive.{has_ended, receive-ends}
use gsusb_canfd.Device.Worker.{
  Worker, no_thread, testing, receiving, delivering, ended, Shared, has_ended_thread, next_of,
  advance, step_worker,
}

module _ {D : Type 0} (F : Double D) (usb : Libusb) (clock : Clock D) (fuel : ℕ) where
  abbrev pub go : Shared D → Shared D
  go = step_worker F usb clock fuel

  -- How far a thread is from its end, once it is told to end.
  abbrev Near : (steps : ℕ) → Worker D → Type 0
  Near zero w = has_ended_thread w ≡ true
  Near (suc zero) w = (has_ended_thread w ≡ true) ⊎ (w ≡ testing)
  Near (suc (suc steps)) w =
      (has_ended_thread w ≡ true)
      ⊎ ((w ≡ testing) ⊎ ((frame : CanFrame D) × (w ≡ delivering frame)))

  over-go :
      (w : Worker D) (s : Shared D)
      → has_ended_thread w ≡ true
      → s.worker ≡ w
      → (advance F usb clock fuel w s).worker ≡ w
  unfolding advance
  over-go no_thread s h e = e
  over-go ended s h e = e
  over-go testing s h e = cc
  over-go receiving s h e = cc
  over-go (delivering frame) s h e = cc

  -- One step towards the end.
  over_step :
      (s : Shared D) → has_ended_thread s.worker ≡ true → has_ended_thread (go s).worker ≡ true
  over_step s h = rw (over-go s.worker s h refl) h

  testing_step :
      (s : Shared D)
      → s.running ≡ false
      → s.worker ≡ testing
      → has_ended_thread (go s).worker ≡ true
  unfolding advance
  testing_step s off at = rw (at, off) refl

  go-running : (s : Shared D) → (go s).running ≡ s.running
  unfolding advance
  go-running s = ground arith

  last_step :
      (s : Shared D) → s.running ≡ false → Near 1 s.worker → has_ended_thread (go s).worker ≡ true
  last_step s off (inl over) = over_step s over
  last_step s off (inr at) = testing_step s off at

  middle_step : (s : Shared D) → s.running ≡ false → Near 2 s.worker → Near 1 (go s).worker
  unfolding advance
  middle_step s off (inl over) = inl (over_step s over)
  middle_step s off (inr (inl at)) = inl (testing_step s off at)
  middle_step s off (inr (inr (frame, at))) = inr (rw at refl)

  -- A receive call that returns.
  returned : (r : Result (Received D)) → has_ended r ≡ true → Near 2 (next_of F usb clock fuel r)
  returned (ok (received frame)) h = inr (inr (frame, refl))
  returned (ok timed_out) h = inr (inl refl)
  returned (ok out_of_fuel) h = cc
  returned (err e) h = inl refl

  first_step :
      (w : Worker D) (s : Shared D)
      → s.worker ≡ w
      → s.running ≡ false
      → has_ended (receive F usb clock (pos 100) fuel s.bus).0 ≡ true
      → Near 2 (advance F usb clock fuel w s).worker
  unfolding advance
  first_step no_thread s at off returns = inl (rw at refl)
  first_step ended s at off returns = inl (rw at refl)
  first_step testing s at off returns = inl (rw off refl)
  first_step receiving s at off returns =
      returned (receive F usb clock (pos 100) fuel s.bus).0 returns
  first_step (delivering frame) s at off returns = inr (inl refl)

  -- Once `running` is not set, three steps of the thread bring it to its end, so that the join in
  -- `stop` returns, if the n-th reading of the clock is at least n nanoseconds after the first and
  -- the fuel covers the timeout of the thread's receive call.
  pub stop-ends :
      (s : Shared D)
      → s.running ≡ false
      → ((log : Log) (reading : ℕ)
          → clock.nanoseconds s.bus.log 0 + reading ≤ clock.nanoseconds log reading)
      → 100 * 1000000 < fuel
      → has_ended_thread (go (go (go s))).worker ≡ true
  stop-ends s off ticks enough =
      let returns =
        (receive-ends F usb clock 100 fuel s.bus (omega arith) (omega arith) ticks enough).0 in
      let first = first_step s.worker s refl off returns in
      let off1 : (go s).running ≡ false = go-running s ∙ off in
      let second = middle_step (go s) off1 first in
      last_step (go (go s)) (go-running (go s) ∙ off1) second
