-- ===== src/Usb/Discovery/Balance.antt =====
-- Handles: every handle that discovery opens, it closes.
use gsusb_canfd.Prelude.{
  ℕ, suc, ◌-◌, ◌≡◌, refl, ◌∙◌, Bool, true, false, not, List, [], ◌∷◌, arith, ◌==◌, if◌then◌else◌,
  Option-cases, inl, inr,
}
use gsusb_canfd.Errors.{CanFdError, Result, err, Result-cases}
use gsusb_canfd.Effects.{Action, ◌>>=◌, ◌>>◌, pure}
use gsusb_canfd.Usb.{DeviceDescriptor, UsbDevice, Libusb, Log, listed, opened, closed, unreferenced}
use gsusb_canfd.Usb.Discovery.{
  AdapterInfo, DeviceSelector, read_text, has_vendor_bulk_interface, looks_like_gs_usb, read_info,
  inspect, inspect_all, find_devices, take_device, unref_all, keys_of, FoundDevice, infos,
  free_found, scan_adapters,
}

-- How many handles of a device are open after a log.
abbrev pub open_handles : (key : ℕ) → Log → ℕ
open_handles key [] = 0
open_handles key (opened k ∷ log) =
    if k == key then suc (open_handles key log) else open_handles key log
open_handles key (closed k ∷ log) =
    if k == key then open_handles key log - 1 else open_handles key log
open_handles key (_ ∷ log) = open_handles key log

module _ (usb : Libusb) (key : ℕ) where
  read_text-balance :
      (k index : ℕ) (log : Log)
      → open_handles key (read_text usb k index log).1 ≡ open_handles key log
  unfolding read_text
  read_text-balance k index log = ground arith

  looks_like_gs_usb-balance :
      (info : AdapterInfo) (k : ℕ) (log : Log)
      → open_handles key (looks_like_gs_usb usb info k log).1 ≡ open_handles key log
  unfolding looks_like_gs_usb has_vendor_bulk_interface
  looks_like_gs_usb-balance info k log = ground arith

  read_info-balance :
      (device : UsbDevice) (desc : DeviceDescriptor) (log : Log)
      → open_handles key (read_info usb device desc log).1 ≡ open_handles key log
  unfolding read_info
  read_info-balance device desc log =
      let k = device.key in
      let log1 : Log = opened k ∷ log in
      let log2 = (read_text usb k desc.manufacturer_index log1).1 in
      let log3 = (read_text usb k desc.product_index log2).1 in
      ground (
        arith,
        read_text-balance k desc.manufacturer_index log1,
        read_text-balance k desc.product_index log2,
        read_text-balance k desc.serial_index log3,
      )

  take_device-balance :
      (k : ℕ) (info : AdapterInfo) (taken : Bool) (log : Log)
      → open_handles key (take_device usb k info taken log).1 ≡ open_handles key log
  take_device-balance k info true log = refl
  take_device-balance k info false log = refl

  -- Freeing the devices found closes no handle.
  pub unref_all-balance :
      (found : List FoundDevice) (log : Log)
      → open_handles key (unref_all usb found log) ≡ open_handles key log
  unfolding unref_all
  unref_all-balance [] log = refl
  unref_all-balance (f ∷ found) log = unref_all-balance found (unreferenced f.key ∷ log)

  inspect-balance :
      (selector : DeviceSelector) (heuristics : Bool) (device : UsbDevice) (log : Log)
      → open_handles key (inspect usb selector heuristics device log).1 ≡ open_handles key log
  unfolding inspect
  inspect-balance selector heuristics device log = elim (Option-cases device.descriptor) [
    | inl e ↦ rw (e, inspect)
    | inr (desc, e) ↦
        rw (e, inspect)
          (ground (
            arith,
            read_info-balance device desc log,
            looks_like_gs_usb-balance (read_info usb device desc log).0 device.key
                (read_info usb device desc log).1,
            take_device-balance device.key (read_info usb device desc log).0 true
                (read_info usb device desc log).1,
            take_device-balance device.key (read_info usb device desc log).0
                (looks_like_gs_usb usb (read_info usb device desc log).0 device.key
                  (read_info usb device desc log).1).0
                (looks_like_gs_usb usb (read_info usb device desc log).0 device.key
                  (read_info usb device desc log).1).1,
          ))
  ]

  pub inspect_all-balance :
      (selector : DeviceSelector) (heuristics : Bool) (devices : List UsbDevice) (log : Log)
      → open_handles key (inspect_all usb selector heuristics devices log).1 ≡ open_handles key log
  unfolding inspect_all
  inspect_all-balance selector heuristics [] log = refl
  inspect_all-balance selector heuristics (device ∷ devices) log =
      inspect_all-balance selector heuristics devices (inspect usb selector heuristics device log).1
      ∙ inspect-balance selector heuristics device log

  -- A search for adapters leaves open exactly the handles that were open before it, whether it
  -- returns or throws.
  pub find_devices-balance :
      (selector : DeviceSelector) (heuristics : Bool) (log : Log)
      → open_handles key (find_devices usb selector heuristics log).1 ≡ open_handles key log
  unfolding find_devices
  find_devices-balance selector heuristics log = elim (Option-cases (usb.device_list log)) [
    | inl e ↦ rw (e, find_devices)
    | inr (devices, e) ↦
        rw (e, find_devices)
          (inspect_all-balance selector heuristics devices (listed (keys_of usb devices) ∷ log))
  ]

-- Taking the results of a search, or throwing instead of it.
infos-balance :
    (usb : Libusb) (key : ℕ) (search : Action Log (List FoundDevice)) (log : Log)
    → open_handles key (search log).1 ≡ open_handles key log
    → open_handles key ((search >>= λ found. free_found usb found >> pure (infos usb found)) log).1
      ≡ open_handles key log
infos-balance usb key search log same = elim (Result-cases (search log).0) [
  | inl (found, e) ↦
      rw (e, ◌>>=◌, ◌>>◌, pure, free_found) (unref_all-balance usb key found (search log).1 ∙ same)
  | inr (x, e) ↦ rw (e, ◌>>=◌, pure) same
]

either-balance :
    (key : ℕ) (missing : Bool) (e : CanFdError) (log : Log) (r : Result (List AdapterInfo) × Log)
    → open_handles key r.1 ≡ open_handles key log
    → open_handles key (if missing then (err e, log) else r).1 ≡ open_handles key log
either-balance key true e log r same = refl
either-balance key false e log r same = same

-- So does a scan.
pub scan_adapters-balance :
    (usb : Libusb) (key vid pid : ℕ) (log : Log)
    → open_handles key (scan_adapters usb vid pid log).1 ≡ open_handles key log
unfolding scan_adapters
scan_adapters-balance usb key vid pid log =
    either-balance key (not usb.has_context) _ log _
      (infos-balance usb key (find_devices usb _ _) log (find_devices-balance usb key _ _ log))
