-- ===== src/Device/Worker/Handles.antt =====
-- The device handle over starting, stopping and the steps of the receive thread.
use gsusb_canfd.Prelude.{
  ℕ, ◌≡◌, refl, sym, subst, Bool, true, false, Option-cases, Bool-cases, inl, inr,
}
use gsusb_canfd.Prelude.Int.{pos}
use gsusb_canfd.Floats.{Double}
use gsusb_canfd.Usb.{Libusb}
use gsusb_canfd.Device.Traffic.{Clock, started_transport}
use gsusb_canfd.Device.Lifecycle.{IsSound}
use gsusb_canfd.Device.Lifecycle.Transfers.{receive-IsSound}
use gsusb_canfd.Device.Worker.{
  Worker, no_thread, testing, receiving, ended, delivering, Shared, start, begin_stop, joined,
  advance, step_worker, stop,
}

pub start-bus : {D : Type 0} (s : Shared D) → (start s).1.bus ≡ s.bus
unfolding start
start-bus s = elim (Option-cases (started_transport s.bus.impl)) [
  | inl e ↦ rw (e, start) refl
  | inr (t, e) ↦ elim (Bool-cases s.running) [
    | inl on ↦ rw (e, on, start) refl
    | inr off ↦ rw (e, off, start) refl
  ]
]

pub joined-bus : {D : Type 0} (was : Bool) (s : Shared D) → (joined was s).bus ≡ s.bus
joined-bus true s = refl
joined-bus false s = refl

module _ {D : Type 0} (F : Double D) (usb : Libusb) (clock : Clock D) (fuel : ℕ)
    (base : ℕ → ℕ) where
  pub advance-IsSound :
      (w : Worker D) (s : Shared D)
      → IsSound base s.bus
      → IsSound base (advance F usb clock fuel w s).bus
  unfolding advance
  advance-IsSound no_thread s h = h
  advance-IsSound ended s h = h
  advance-IsSound testing s h = h
  advance-IsSound receiving s h = (receive-IsSound F usb base clock (pos 100) fuel).keeps s.bus h
  advance-IsSound (delivering frame) s h = h

  pub stop-IsSound :
      (s : Shared D) → IsSound base s.bus → IsSound base (stop F usb clock fuel s).bus
  unfolding stop begin_stop
  stop-IsSound s h =
      let told = begin_stop s in
      let once = step_worker F usb clock fuel told in
      let twice = step_worker F usb clock fuel once in
      let thrice = step_worker F usb clock fuel twice in
      subst (IsSound base) (sym (joined-bus s.running thrice)) (
        advance-IsSound twice.worker twice
          (advance-IsSound once.worker once (advance-IsSound told.worker told h)))
