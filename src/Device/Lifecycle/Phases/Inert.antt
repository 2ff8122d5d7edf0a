-- ===== src/Device/Lifecycle/Phases/Inert.antt =====
-- The calls of CanFdBus that have nothing to do, and those that are refused.
use gsusb_canfd.Prelude.{ℕ, ◌≡◌, refl, Bool, true, false, none, arith, Option-cases, inl, inr}
use gsusb_canfd.Prelude.Int.{ℤ}
use gsusb_canfd.Floats.{Double}
use gsusb_canfd.Frame.{CanFrame}
use gsusb_canfd.Usb.{Libusb}
use gsusb_canfd.Usb.Transport.{transport_is_open}
use gsusb_canfd.Usb.Discovery.{AdapterInfo}
use gsusb_canfd.Device.State.{Bus, BusConfig, is_open}
use gsusb_canfd.Device.Open.{open_bus, open_adapter}
use gsusb_canfd.Device.Configure.{configure}
use gsusb_canfd.Device.Traffic.{Clock, started_transport, send, receive}
use gsusb_canfd.Device.Lifecycle.Phases.Cases.{phase_at, Case, is_closed, is_opened, is_started}
use gsusb_canfd.Device.Lifecycle.Phases.{
  Phase, closed, opened, started, phase_of, Kind, opening, configuring, transferring, IsInert,
  Request, opens, closes, opens_adapter, configures, sends, receives, kind_of, expected_of, perform,
}

at_phase :
    (k : Kind) (p : Phase) (b after expected : Bus)
    → phase_of b.impl ≡ p
    → IsInert k p after expected
    → IsInert k (phase_of b.impl) after expected
at_phase k p b after expected e h = rw e h

module _ {D : Type 0} (F : Double D) (usb : Libusb) (clock : Clock D) where
  open_stays : (b : Bus) → is_open b.impl ≡ true → (open_bus usb b).1 ≡ b
  unfolding open_bus
  open_stays b on = rw (on, open_bus) refl

  open_adapter_stays :
      (info : AdapterInfo) (b : Bus)
      → is_open b.impl ≡ true
      → (open_adapter usb info b).1 ≡ expected_of {D = D} (opens_adapter info) b
  unfolding open_adapter
  open_adapter_stays info b on = open_stays (expected_of {D = D} (opens_adapter info) b) on

  configure_stays :
      (c : BusConfig D) (b : Bus) → is_open b.impl ≡ false → (configure F usb c b).1 ≡ b
  unfolding configure
  configure_stays c b off = elim (Option-cases b.impl.transport) [
    | inl e ↦ ground (arith, e)
    | inr (t, e) ↦
        let gone : transport_is_open t ≡ false = ground (arith, off, e) in ground (arith, e, gone)
  ]

  send_stays :
      (frame : CanFrame D) (echo : Bool) (b : Bus)
      → started_transport b.impl ≡ none
      → (send usb frame echo b).1 ≡ b
  unfolding send
  send_stays frame echo b e = rw (e, send) refl

  receive_stays :
      (timeout_ms : ℤ) (fuel : ℕ) (b : Bus)
      → started_transport b.impl ≡ none
      → (receive F usb clock timeout_ms fuel b).1 ≡ b
  unfolding receive
  receive_stays timeout_ms fuel b e = rw (e, receive) refl

  open-IsInert : (b : Bus) → Case b → IsInert opening (phase_of b.impl) (open_bus usb b).1 b
  open-IsInert b (is_closed h) = at_phase opening closed b _ b (phase_at false false b h) tt
  open-IsInert b (is_opened h) =
      at_phase opening opened b _ b (phase_at true false b h) (open_stays b h.0)
  open-IsInert b (is_started h) =
      at_phase opening started b _ b (phase_at true true b h) (open_stays b h.0)

  -- A bus on which the transfers are refused, and so the transfer leaves it.
  transfer-IsInert :
      (b after : Bus)
      → Case b
      → (started_transport b.impl ≡ none → after ≡ b)
      → IsInert transferring (phase_of b.impl) after b
  transfer-IsInert b after (is_closed h) refused =
      at_phase transferring closed b after b (phase_at false false b h) (refused (rw h.1 refl))
  transfer-IsInert b after (is_opened h) refused =
      at_phase transferring opened b after b (phase_at true false b h) (refused (rw h.1 refl))
  transfer-IsInert b after (is_started h) refused =
      at_phase transferring started b after b (phase_at true true b h) tt

  pub perform-IsInert :
      (request : Request D) (b : Bus)
      → Case b
      → IsInert
          (kind_of request)
          (phase_of b.impl)
          (perform F usb clock request b).1
          (expected_of request b)
  perform-IsInert opens b h = open-IsInert b h
  perform-IsInert closes b h = tt
  perform-IsInert (opens_adapter info) b (is_closed h) =
      at_phase opening closed b _ _ (phase_at false false b h) tt
  perform-IsInert (opens_adapter info) b (is_opened h) =
      at_phase opening opened b _ _ (phase_at true false b h) (open_adapter_stays info b h.0)
  perform-IsInert (opens_adapter info) b (is_started h) =
      at_phase opening started b _ _ (phase_at true true b h) (open_adapter_stays info b h.0)
  perform-IsInert (configures c) b (is_closed h) =
      at_phase configuring closed b _ b (phase_at false false b h) (configure_stays c b h.0)
  perform-IsInert (configures c) b (is_opened h) =
      at_phase configuring opened b _ b (phase_at true false b h) tt
  perform-IsInert (configures c) b (is_started h) =
      at_phase configuring started b _ b (phase_at true true b h) tt
  perform-IsInert (sends frame echo) b h = transfer-IsInert b _ h (send_stays frame echo b)
  perform-IsInert (receives timeout_ms fuel) b h =
      transfer-IsInert b _ h (receive_stays timeout_ms fuel b)
