-- ===== src/Usb/Transport.antt =====
-- src/usb_transport.hpp and the class UsbTransport of src/usb_transport.cpp. A state is
-- the object with what has been asked of libusb. `handle` is the key of the open device.
pub mod Open
pub mod References
use gsusb_canfd.Prelude.{
  ℕ, zero, suc, ◌+◌, ◌-◌, Bool, true, false, not, ◌&&◌, ◌||◌, Option, none, some, List, [], ◌∷◌,
  leb, ltb, ◌==◌, if◌then◌else◌,
}
use gsusb_canfd.Prelude.Int.{ℤ, pos, negsuc, pos_part, eqb_ℤ, is_neg}
use gsusb_canfd.Errors.{
  CanFdError, Result, ok, err, bus_error, not_found_error, timeout_error, Message,
}
use gsusb_canfd.Effects.{Action}
use gsusb_canfd.Usb.{
  Libusb, Log, Call, opened, refused, closed, read_config, set_configuration, detached, claimed,
  released, control, bulk, ConfigDescriptor, ControlRequest, BulkRequest,
}
use gsusb_canfd.Usb.Interface.{Endpoints, choose_endpoints}
use gsusb_canfd.Usb.Discovery.{DeviceSelector, FoundDevice, find_devices, unref_all}

pub record UsbTransport : Type 0 where
  pub selector : DeviceSelector
  pub handle : Option ℕ
  pub ep_in : ℕ
  pub ep_out : ℕ
  pub interface_number : ℤ
  pub interface_claimed : Bool

-- The object and the log.
pub record Port : Type 0 where
  pub transport : UsbTransport
  pub log : Log

-- UsbTransport::UsbTransport
abbrev pub new_transport : DeviceSelector → UsbTransport
new_transport selector = record {
  selector = selector;
  handle = none;
  ep_in = 0;
  ep_out = 0;
  interface_number = negsuc 0;
  interface_claimed = false;
}

abbrev pub is_some {ℓ} : {A : Type ℓ} → Option A → Bool
is_some none = false
is_some (some a) = true

-- UsbTransport::isOpen
abbrev pub transport_is_open : UsbTransport → Bool
transport_is_open t = is_some t.handle

-- UsbTransport::close
unfoldable pub close_transport : UsbTransport → Log → UsbTransport × Log
close_transport t log = elim t.handle [
  | none ↦ (t, log)
  | some key ↦ (
    record t { handle = none; interface_claimed = false },
    closed key ∷ (if t.interface_claimed then released key t.interface_number ∷ log else log),
  )
]

-- close(); throw e;
unfoldable pub abandon : CanFdError → UsbTransport → Log → Result (Unit {0}) × Port
abandon e t log =
    let (t, log) = close_transport t log in (err e, record { transport = t; log = log })

-- The number of devices found.
abbrev pub count : List FoundDevice → ℕ
count [] = 0
count (found ∷ rest) = suc (count rest)

-- found[index]
abbrev pub nth : List FoundDevice → ℕ → Option FoundDevice
nth [] i = none
nth (found ∷ rest) zero = some found
nth (found ∷ rest) (suc i) = nth rest i

-- The device that the selector's index picks, or the error for it.
unfoldable pub pick_device : DeviceSelector → List FoundDevice → Result FoundDevice
pick_device selector [] = err (not_found_error Message.no_device)
pick_device selector (found ∷ rest) =
    if is_neg selector.index
    then err (not_found_error (Message.index_out_of_range (count (found ∷ rest))))
    else elim (nth (found ∷ rest) (pos_part selector.index)) [
      | none ↦ err (not_found_error (Message.index_out_of_range (count (found ∷ rest))))
      | some device ↦ ok device
    ]

-- A transfer takes the object's handle, which may be null.
abbrev pub control_request : (type request value index : ℕ) → List ℕ → ℕ → ControlRequest
control_request type request value index bytes size = record {
  request_type = type;
  request = request;
  value = value;
  index = index;
  bytes = bytes;
  size = size;
}

module _ (usb : Libusb) where
  -- findBulkInterface: a device without an active configuration is given configuration 1.
  unfoldable pub find_bulk_interface : (key : ℕ) → Log → Option Endpoints × Log
  find_bulk_interface key log = elim (usb.active_config log key) [
    | some config ↦ (choose_endpoints usb config, read_config key ∷ log)
    | none ↦
        let log = read_config key ∷ log in
        let set = set_configuration key 1 ∷ log in
        if eqb_ℤ (usb.set_configuration_rc log key 1) (pos 0)
        then (
          elim (usb.active_config set key) [
            | none ↦ none
            | some config ↦ choose_endpoints usb config
          ],
          read_config key ∷ set,
        )
        else (none, set)
  ]

  -- `claim`: the endpoints are stored and the interface is claimed, or all is closed again.
  unfoldable pub claim_found : (key : ℕ) → Endpoints → UsbTransport → Log → Result (Unit {0}) × Port
  claim_found key e t log =
      let number = pos e.interface_number in
      let t = record t { ep_in = e.ep_in; ep_out = e.ep_out; interface_number = number } in
      if eqb_ℤ (usb.claim_rc log key number) (pos 0)
      then (
        ok tt,
        record {
          transport = record t { interface_claimed = true };
          log = claimed key number ∷ log;
        },
      )
      else abandon (bus_error Message.claim_failed) t (claimed key number ∷ log)

  -- The part of open() behind libusb_open.
  unfoldable pub claim_endpoints : (key : ℕ) → UsbTransport → Log → Result (Unit {0}) × Port
  claim_endpoints key t log =
      let t = record t { handle = some key } in
      let (found, log) = find_bulk_interface key (detached key ∷ log) in
      elim found [
        | none ↦ abandon (not_found_error Message.no_bulk_endpoints) t log
        | some e ↦ claim_found key e t log
      ]

  -- libusb_open on the device that was picked, and what follows.
  unfoldable pub open_device :
      FoundDevice → (found : List FoundDevice) → UsbTransport → Log → Result (Unit {0}) × Port
  open_device device found t log =
      let rc = usb.open_rc log device.key in
      if not (eqb_ℤ rc (pos 0))
      then (
        err (bus_error (Message.open_failed rc)),
        record {
          transport = record t { handle = none };
          log = unref_all usb found (refused device.key ∷ log);
        },
      )
      else claim_endpoints device.key t (unref_all usb found (opened device.key ∷ log))

  -- What follows the picking of a device, and what follows the search for devices. The devices that
  -- were found are freed; where none was, there is nothing to free.
  unfoldable pub open_picked :
      Result FoundDevice
      → (found : List FoundDevice) → UsbTransport
      → Log
      → Result (Unit {0}) × Port
  open_picked (err e) found t log = (err e, record { transport = t; log = unref_all usb found log })
  open_picked (ok device) found t log = open_device device found t log

  unfoldable pub open_found :
      Result (List FoundDevice) → UsbTransport → Log → Result (Unit {0}) × Port
  open_found (err e) t log = (err e, record { transport = t; log = log })
  open_found (ok found) t log = open_picked (pick_device t.selector found) found t log

  -- UsbTransport::open
  unfoldable pub open_transport : Action Port (Unit {0})
  open_transport p =
      let t = p.transport in
      if is_some t.handle
      then (ok tt, p)
      else if not usb.has_context
      then (err (bus_error Message.init_failed), p)
      else let (r, log) =
          find_devices usb t.selector (t.selector.vid == 0 && t.selector.pid == 0) p.log in
        open_found r t log

  -- UsbTransport::controlIn and controlOut, which differ in the request type. The result is the
  -- return code and the buffer.
  unfoldable pub control_with : (handle : Option ℕ) → ControlRequest → Action Log (ℕ × List ℕ)
  control_with handle req log =
      let (rc, buffer) = usb.control_transfer log handle req in
      (
        if is_neg rc
            then err (bus_error (Message.control_failed req.request rc))
            else ok (pos_part rc, buffer),
        control handle req ∷ log,
      )

  unfoldable pub bulk_write :
      (handle : Option ℕ) (ep_out : ℕ) (bytes : List ℕ) (size timeout_ms : ℕ) → Action Log ℕ
  bulk_write handle ep_out bytes size timeout_ms log =
      let req : BulkRequest = record {
        endpoint = ep_out;
        bytes = bytes;
        size = size;
        timeout_ms = timeout_ms;
      } in
      let (rc, transferred, _) = usb.bulk_transfer log handle req in
      (
        if eqb_ℤ rc usb.error_timeout
            then err (timeout_error Message.write_timed_out)
            else if not (eqb_ℤ rc (pos 0))
            then err (bus_error (Message.write_failed rc))
            else ok transferred,
        bulk handle req ∷ log,
      )

  -- `ok none` is the -1 of a read that timed out.
  unfoldable pub bulk_read :
      (handle : Option ℕ) (ep_in : ℕ) (bytes : List ℕ) (size timeout_ms : ℕ)
      → Action Log (Option (ℕ × List ℕ))
  bulk_read handle ep_in bytes size timeout_ms log =
      let req : BulkRequest = record {
        endpoint = ep_in;
        bytes = bytes;
        size = size;
        timeout_ms = timeout_ms;
      } in
      let (rc, transferred, buffer) = usb.bulk_transfer log handle req in
      (
        if eqb_ℤ rc usb.error_timeout
            then ok none
            else if not (eqb_ℤ rc (pos 0))
            then err (bus_error (Message.read_failed rc))
            else ok (some (transferred, buffer)),
        bulk handle req ∷ log,
      )
