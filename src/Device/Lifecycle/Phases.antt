-- ===== src/Device/Lifecycle/Phases.antt =====
-- The abstract view of CanFdBus: phases, and which changes of them a call allows.
pub mod Cases
pub mod Followed
pub mod Inert
use gsusb_canfd.Prelude.{
  ℕ, ◌≡◌, ◌≢◌, refl, Bool, true, false, not, ◌&&◌, none, some, List, arith, if◌then◌else◌,
  Option-cases, Bool-cases, inl, inr,
}
use gsusb_canfd.Prelude.Int.{ℤ}
use gsusb_canfd.Errors.{Result, ok, err, Result-cases}
use gsusb_canfd.Floats.{Double}
use gsusb_canfd.Frame.{CanFrame}
use gsusb_canfd.Usb.{Libusb, Log}
use gsusb_canfd.Usb.Discovery.{AdapterInfo, DeviceSelector}
use gsusb_canfd.Device.State.{Impl, Bus, BusConfig, is_open}
use gsusb_canfd.Device.Open.{open_bus, open_adapter, selector_for}
use gsusb_canfd.Device.Configure.{configure, close_bus}
use gsusb_canfd.Device.Traffic.{Clock, send, receive}

-- The abstract view of the object.
pub data Phase : Type 0 where
  closed opened started : Phase

abbrev pub phase_of : Impl → Phase
phase_of impl = if is_open impl then (if impl.started then started else opened) else closed

-- The calls of the abstract view.
pub data Kind : Type 0 where
  opening configuring transferring closing : Kind

-- What a call may do: by its kind, the phase before it, whether it throws, and the phase after it.
abbrev pub Allows : Kind → Phase → (threw : Bool) → Phase → Type 0
Allows opening closed true after = after ≢ started
Allows opening closed false after = after ≡ opened
Allows opening opened threw after = (threw ≡ false) × (after ≡ opened)
Allows opening started threw after = (threw ≡ false) × (after ≡ started)
Allows configuring closed threw after = (threw ≡ true) × (after ≡ closed)
Allows configuring opened true after = after ≡ opened
Allows configuring opened false after = after ≡ started
Allows configuring started threw after = after ≡ started
Allows transferring closed threw after = (threw ≡ true) × (after ≡ closed)
Allows transferring opened threw after = (threw ≡ true) × (after ≡ opened)
Allows transferring started threw after = after ≡ started
Allows closing before threw after = (threw ≡ false) × (after ≡ closed)

-- Where a call has nothing to do or is refused, the bus after it is the one expected.
abbrev pub IsInert : Kind → Phase → (after expected : Bus) → Type 0
IsInert opening closed after expected = Unit {0}
IsInert opening opened after expected = after ≡ expected
IsInert opening started after expected = after ≡ expected
IsInert configuring closed after expected = after ≡ expected
IsInert configuring opened after expected = Unit {0}
IsInert configuring started after expected = Unit {0}
IsInert transferring closed after expected = after ≡ expected
IsInert transferring opened after expected = after ≡ expected
IsInert transferring started after expected = Unit {0}
IsInert closing before after expected = Unit {0}

-- The calls of CanFdBus with their arguments.
pub data Request (D : Type 0) : Type 0 where
  opens closes : Request D
  opens_adapter : AdapterInfo → Request D
  configures : BusConfig D → Request D
  sends : CanFrame D → (echo : Bool) → Request D
  receives : (timeout_ms : ℤ) (fuel : ℕ) → Request D

abbrev pub kind_of : {D : Type 0} → Request D → Kind
kind_of opens = opening
kind_of closes = closing
kind_of (opens_adapter info) = opening
kind_of (configures c) = configuring
kind_of (sends frame echo) = transferring
kind_of (receives timeout_ms fuel) = transferring

-- The bus that is expected there: the one before the call, but for the selector that opening for an
-- adapter stores first.
abbrev pub expected_of : {D : Type 0} → Request D → Bus → Bus
expected_of opens b = b
expected_of closes b = b
expected_of (opens_adapter info) b = record {
  impl = record b.impl { selector = selector_for info b.impl.selector };
  log = b.log;
}
expected_of (configures c) b = b
expected_of (sends frame echo) b = b
expected_of (receives timeout_ms fuel) b = b

abbrev pub threw : {A : Type 0} → Result A → Bool
threw (ok a) = false
threw (err e) = true

-- A call: whether it throws, and the bus after it.
abbrev pub perform : {D : Type 0} → Double D → Libusb → Clock D → Request D → Bus → Bool × Bus
perform F usb clock opens b = let (r, b) = open_bus usb b in (threw r, b)
perform F usb clock closes b = (false, close_bus usb b)
perform F usb clock (opens_adapter info) b = let (r, b) = open_adapter usb info b in (threw r, b)
perform F usb clock (configures c) b = let (r, b) = configure F usb c b in (threw r, b)
perform F usb clock (sends frame echo) b = let (r, b) = send usb frame echo b in (threw r, b)
perform F usb clock (receives timeout_ms fuel) b =
    let (r, b) = receive F usb clock timeout_ms fuel b in (threw r, b)
