-- ===== src/Device/Lifecycle/Machine.antt =====
-- The bus object as a state machine: a step is one call of CanFdBus, which may throw.
use gsusb_canfd.Prelude.{ℕ, ◌≡◌, refl, Bool, arith}
use gsusb_canfd.Prelude.Int.{ℤ}
use gsusb_canfd.Floats.{Double}
use gsusb_canfd.Frame.{CanFrame}
use gsusb_canfd.Usb.{Libusb, Log}
use gsusb_canfd.Usb.Discovery.{AdapterInfo, DeviceSelector}
use gsusb_canfd.Usb.Discovery.Balance.{open_handles}
use gsusb_canfd.Device.State.{Bus, BusConfig, new_impl}
use gsusb_canfd.Device.Open.{open_bus, open_adapter}
use gsusb_canfd.Device.Configure.{configure, close_bus}
use gsusb_canfd.Device.Traffic.{Clock, send, receive}
use gsusb_canfd.Device.Lifecycle.{IsSound, held}
use gsusb_canfd.Device.Lifecycle.Opening.{open_bus-IsSound, open_adapter-IsSound}
use gsusb_canfd.Device.Lifecycle.Running.{configure-IsSound}
use gsusb_canfd.Device.Lifecycle.Transfers.{send-IsSound, receive-IsSound}
use gsusb_canfd.Device.Lifecycle.Closing.{IsReleased, close_bus-IsReleased}

-- CanFdBus::CanFdBus, at a time when libusb has been asked what `log` says.
abbrev pub fresh : DeviceSelector → Log → Bus
fresh selector log = record { impl = new_impl selector; log = log }

module _ {D : Type 0} (F : Double D) (usb : Libusb) (clock : Clock D) where
  -- One call, by the state before and after it.
  pub data Step : Bus → Bus → Type 0 where
    opens : (b : Bus) → Step b (open_bus usb b).1
    opens_adapter : (info : AdapterInfo) (b : Bus) → Step b (open_adapter usb info b).1
    configures : (c : BusConfig D) (b : Bus) → Step b (configure F usb c b).1
    sends : (frame : CanFrame D) (echo : Bool) (b : Bus) → Step b (send usb frame echo b).1
    receives :
        (timeout_ms : ℤ) (fuel : ℕ) (b : Bus) → Step b (receive F usb clock timeout_ms fuel b).1
    closes : (b : Bus) → Step b (close_bus usb b)

  pub data Reachable (start : Bus) : Bus → Type 0 where
    here : Reachable start start
    after : {b c : Bus} → Reachable start b → Step b c → Reachable start c

  released-IsSound : (base : ℕ → ℕ) (b : Bus) → IsReleased usb base b → IsSound base b
  released-IsSound base b (gone, idle, given_back) = (
    λ key.
        let nothing : held key b.impl ≡ 0 = rw gone refl in omega (arith, given_back key, nothing),
    λ on. ground (arith, on, idle),
  )

  Step-IsSound : (base : ℕ → ℕ) {b c : Bus} → Step b c → IsSound base b → IsSound base c
  Step-IsSound base (opens b) h = (open_bus-IsSound usb base).keeps b h
  Step-IsSound base (opens_adapter info b) h = (open_adapter-IsSound usb base info).keeps b h
  Step-IsSound base (configures c b) h = (configure-IsSound F usb base c).keeps b h
  Step-IsSound base (sends frame echo b) h = (send-IsSound F usb base frame echo).keeps b h
  Step-IsSound base (receives timeout_ms fuel b) h =
      (receive-IsSound F usb base clock timeout_ms fuel).keeps b h
  Step-IsSound base (closes b) h =
      released-IsSound base (close_bus usb b) (close_bus-IsReleased usb base b h)

  fresh-IsSound :
      (selector : DeviceSelector) (log : Log)
      → IsSound (λ key. open_handles key log) (fresh selector log)
  fresh-IsSound selector log = (λ key. omega arith, λ on. ground (arith, on))

  -- After any sequence of calls on a new bus, failed ones included, the handles that are open are
  -- those that the log had open when the bus was made and the one that the bus holds, and a started bus is open.
  pub Reachable-IsSound :
      (selector : DeviceSelector) (log : Log) (b : Bus)
      → Reachable (fresh selector log) b
      → IsSound (λ key. open_handles key log) b
  Reachable-IsSound selector log _ here = fresh-IsSound selector log
  Reachable-IsSound selector log _ (after {b} path step) =
      Step-IsSound (λ key. open_handles key log) step (Reachable-IsSound selector log b path)

  -- Closing after any sequence of calls on a new bus, failed ones included, leaves no transport, a
  -- bus that is not started, and for every device as many open handles as the log had when the bus
  -- was made.
  pub close_bus-Reachable :
      (selector : DeviceSelector) (log : Log) (b : Bus)
      → Reachable (fresh selector log) b
      → IsReleased usb (λ key. open_handles key log) (close_bus usb b)
  close_bus-Reachable selector log b path =
      close_bus-IsReleased usb (λ key. open_handles key log) b
        (Reachable-IsSound selector log b path)
