-- ===== src/Tools/Term/Send.antt =====
-- sendFrame of canfd_term.cpp.
pub mod Kept
use gsusb_canfd.Prelude.{
  ℕ, min, Bool, true, false, ◌&&◌, ◌||◌, Option, none, some, List, ltb, length, replicate,
}
use gsusb_canfd.Prelude.Store.{copy_loop}
use gsusb_canfd.Errors.{Result, ok, err}
use gsusb_canfd.Floats.{Double}
use gsusb_canfd.Text.{Bytes}
use gsusb_canfd.Frame.{CanFrame}
use gsusb_canfd.Usb.{Libusb}
use gsusb_canfd.Device.State.{Bus}
use gsusb_canfd.Device.Traffic.{send}
use gsusb_canfd.Device.Worker.{Shared}
use gsusb_canfd.Tools.Term.{Term, Outcome, continues, undefined, throws}
use gsusb_canfd.Tools.Term.Printing.{print_frame}

module _ {D : Type 0} (F : Double D) where
  -- The frame that sendFrame builds.
  unfoldable pub frame_of : Term D → (id : ℕ) → List ℕ → (force_extended : Bool) → CanFrame D
  frame_of t id bytes force_extended = record {
    id = id;
    bytes = copy_loop (min (length bytes) 64) 0 bytes 0 (replicate 64 0) 0;
    size = min (length bytes) 64;
    extended = force_extended || ltb 0x7FF id;
    fd = t.config.fd;
    brs = t.config.fd && t.brs;
    remote = false;
    error = false;
    echo = false;
    overflow = false;
    channel = 0;
    timestamp = F.literal 0 0;
  }

module _ {D : Type 0} (F : Double D) (seconds : D → Bytes) (usb : Libusb) where
  -- What follows the call of CanFdBus::send. The frame is printed once it has been sent.
  abbrev pub after_send :
      CanFrame D → Shared D → Term D → Result (Unit {0}) × Bus → Outcome × Term D
  after_send frame s t (ok _, b) =
      (continues, print_frame F seconds frame (record t { bus = some (record s { bus = b }) }))
  after_send frame s t (err e, b) = (throws e, record t { bus = some (record s { bus = b }) })

  -- A call on a bus that is not there is undefined.
  unfoldable pub send_frame :
      (id : ℕ) → List ℕ → (force_extended : Bool) → Term D → Outcome × Term D
  send_frame id bytes force_extended t = elim t.bus [
    | none ↦ (undefined, t)
    | some s ↦
        let frame = frame_of F t id bytes force_extended in
        after_send frame s t (send usb frame t.show_echo s.bus)
  ]
