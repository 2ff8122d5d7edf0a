-- ===== src/Usb/Discovery.antt =====
-- src/usb_transport.cpp: which devices are adapters. Each step asks libusb something and adds it
-- to the log.
pub mod Found
pub mod Balance
pub mod References
use gsusb_canfd.Prelude.{
  ℕ, zero, suc, ◌+◌, ◌-◌, Bool, true, false, not, ◌&&◌, ◌||◌, Option, none, some, List, [], ◌∷◌,
  ◌++◌, ◌==◌, if◌then◌else◌, take,
}
use gsusb_canfd.Prelude.Int.{ℤ, pos, negsuc, pos_part, eqb_ℤ, ltb_ℤ}
use gsusb_canfd.Errors.{Result, ok, err, bus_error, Message}
use gsusb_canfd.Effects.{Action, ◌>>=◌, ◌>>◌, pure}
use gsusb_canfd.Usb.{
  DeviceDescriptor, UsbDevice, Libusb, Log, Call, listed, list_freed, referenced, unreferenced,
  opened, refused, closed, read_string, read_config,
}
use gsusb_canfd.Usb.Text.{to_lower, is_empty, text_eq, contains}
use gsusb_canfd.Usb.Interface.{has_vendor_interface}

pub record AdapterInfo : Type 0 where
  pub vendor_id : ℕ
  pub product_id : ℕ
  pub bus : ℕ
  pub address : ℕ
  pub manufacturer : List ℕ
  pub product : List ℕ
  pub serial : List ℕ

pub record DeviceSelector : Type 0 where
  pub vid : ℕ
  pub pid : ℕ
  pub index : ℤ
  pub channel : ℕ
  pub serial : Option (List ℕ)
  pub product : Option (List ℕ)
  pub bus : Option ℕ
  pub address : Option ℕ

pub record FoundDevice : Type 0 where
  pub key : ℕ
  pub info : AdapterInfo

abbrev pub known_ids : List (ℕ × ℕ)
known_ids =
    (0x1D50, 0x606F)
    ∷ (0x1209, 0x2323)
    ∷ (0x1CD2, 0x606F)
    ∷ (0x16D0, 0x10B8)
    ∷ (0x1209, 0xCA01)
    ∷ (0xA8FA, 0x8598)
    ∷ []

abbrev pub is_listed : List (ℕ × ℕ) → ℕ → ℕ → Bool
is_listed [] vid pid = false
is_listed ((v, p) ∷ rest) vid pid = (v == vid && p == pid) || is_listed rest vid pid

unfoldable pub is_known_gs_usb_id : ℕ → ℕ → Bool
is_known_gs_usb_id vid pid = is_listed known_ids vid pid

-- "can", "candle", "gs_usb", "gs-usb"
abbrev pub hints : List (List ℕ)
hints =
    (b'c' ∷ b'a' ∷ b'n' ∷ [])
    ∷ (b'c' ∷ b'a' ∷ b'n' ∷ b'd' ∷ b'l' ∷ b'e' ∷ [])
    ∷ (b'g' ∷ b's' ∷ b'_' ∷ b'u' ∷ b's' ∷ b'b' ∷ [])
    ∷ (b'g' ∷ b's' ∷ b'-' ∷ b'u' ∷ b's' ∷ b'b' ∷ [])
    ∷ []

abbrev pub any_hint : List (List ℕ) → List ℕ → Bool
any_hint [] text = false
any_hint (hint ∷ rest) text = contains text hint || any_hint rest text

-- The filters on what was read: serial, product, and without a serial the bus and address.
unfoldable pub accepts : DeviceSelector → AdapterInfo → Bool
accepts selector info =
    (elim selector.serial [ none ↦ true | some serial ↦ text_eq info.serial serial ])
    && ((elim selector.product [
      | none ↦ true
      | some product ↦ contains (to_lower info.product) (to_lower product)
    ])
        && (elim selector.serial [
          | some _ ↦ true
          | none ↦
              (elim selector.bus [ none ↦ true | some bus ↦ info.bus == bus ])
              && (elim selector.address [ none ↦ true | some address ↦ info.address == address ])
        ]))

-- The filters on the descriptor.
unfoldable pub accepts_ids : DeviceSelector → DeviceDescriptor → Bool
accepts_ids selector desc =
    (selector.vid == 0 || desc.vendor == selector.vid)
    && (selector.pid == 0 || desc.product == selector.pid)

module _ (usb : Libusb) where
  -- readString on an open handle.
  unfoldable pub read_text : (key index : ℕ) → Log → List ℕ × Log
  read_text key index log =
      if index == 0
      then ([], log)
      else let (rc, buffer) = usb.string_ascii log key index in
        (if ltb_ℤ (pos 0) rc then take (pos_part rc) buffer else [], read_string key index ∷ log)

  unfoldable pub has_vendor_bulk_interface : (key : ℕ) → Log → Bool × Log
  has_vendor_bulk_interface key log = (
    elim (usb.active_config log key) [
      | none ↦ false
      | some config ↦ has_vendor_interface usb config
    ],
    read_config key ∷ log,
  )

  unfoldable pub looks_like_gs_usb : AdapterInfo → (key : ℕ) → Log → Bool × Log
  looks_like_gs_usb info key log =
      if is_known_gs_usb_id info.vendor_id info.product_id
      then (true, log)
      else if not (is_empty info.manufacturer) || not (is_empty info.product)
      then (any_hint hints (to_lower (info.manufacturer ++ 32 ∷ info.product)), log)
      else has_vendor_bulk_interface key log

  -- The three strings, read through a handle that is closed again; empty if it cannot be opened.
  unfoldable pub read_info : UsbDevice → DeviceDescriptor → Log → AdapterInfo × Log
  read_info device desc log =
      if eqb_ℤ (usb.open_rc log device.key) (pos 0)
      then (let (manufacturer, log) =
            read_text device.key desc.manufacturer_index (opened device.key ∷ log) in
          let (product, log) = read_text device.key desc.product_index log in
          let (serial, log) = read_text device.key desc.serial_index log in
          (
            record {
              vendor_id = desc.vendor;
              product_id = desc.product;
              bus = device.bus;
              address = device.address;
              manufacturer = manufacturer;
              product = product;
              serial = serial;
            },
            closed device.key ∷ log,
          ))
      else (
        record {
          vendor_id = desc.vendor;
          product_id = desc.product;
          bus = device.bus;
          address = device.address;
          manufacturer = [];
          product = [];
          serial = [];
        },
        refused device.key ∷ log,
      )

  -- result.push_back(FoundDevice{libusb_ref_device(device), info}), or `continue`.
  abbrev pub take_device : (key : ℕ) → AdapterInfo → Bool → Log → Option FoundDevice × Log
  take_device key info true log = (some (record { key = key; info = info }), referenced key ∷ log)
  take_device key info false log = (none, log)

  -- One round of the loop over the list: the device if it is taken.
  unfoldable pub inspect :
      DeviceSelector → (use_heuristics : Bool) → UsbDevice → Log → Option FoundDevice × Log
  inspect selector use_heuristics device log = elim device.descriptor [
    | none ↦ (none, log)
    | some desc ↦
        if not (accepts_ids selector desc)
        then (none, log)
        else let (info, log) = read_info device desc log in
          if not (accepts selector info)
          then (none, log)
          else if not use_heuristics
          then take_device device.key info true log
          else let (likely, log) = looks_like_gs_usb info device.key log in
            take_device device.key info likely log
  ]

  abbrev pub push_found : Option FoundDevice → List FoundDevice → List FoundDevice
  push_found none rest = rest
  push_found (some found) rest = found ∷ rest

  unfoldable pub inspect_all : DeviceSelector → Bool → List UsbDevice → Log → List FoundDevice × Log
  inspect_all selector use_heuristics [] log = ([], log)
  inspect_all selector use_heuristics (device ∷ devices) log =
      let (found, log) = inspect selector use_heuristics device log in
      let (rest, log) = inspect_all selector use_heuristics devices log in
      (push_found found rest, log)

  abbrev pub keys_of : List UsbDevice → List ℕ
  keys_of [] = []
  keys_of (device ∷ devices) = device.key ∷ keys_of devices

  unfoldable pub find_devices : DeviceSelector → Bool → Action Log (List FoundDevice)
  find_devices selector use_heuristics log = elim (usb.device_list log) [
    | none ↦ (err (bus_error Message.device_list_failed), listed [] ∷ log)
    | some devices ↦
        let (found, log) =
          inspect_all selector use_heuristics devices (listed (keys_of devices) ∷ log) in
        (ok found, list_freed ∷ log)
  ]

  -- freeFound
  unfoldable pub unref_all : List FoundDevice → Log → Log
  unref_all [] log = log
  unref_all (found ∷ rest) log = unref_all rest (unreferenced found.key ∷ log)

  abbrev pub free_found : List FoundDevice → Action Log (Unit {0})
  free_found found log = (ok tt, unref_all found log)

  abbrev pub infos : List FoundDevice → List AdapterInfo
  infos [] = []
  infos (found ∷ rest) = found.info ∷ infos rest

  abbrev pub scan_selector : (vid pid : ℕ) → DeviceSelector
  scan_selector vid pid = record {
    vid = vid;
    pid = pid;
    index = pos 0;
    channel = 0;
    serial = none;
    product = none;
    bus = none;
    address = none;
  }

  unfoldable pub scan_adapters : (vid pid : ℕ) → Action Log (List AdapterInfo)
  scan_adapters vid pid log =
      if not usb.has_context
      then (err (bus_error Message.init_failed), log)
      else (do
        found ← find_devices (scan_selector vid pid) (vid == 0 && pid == 0)
        free_found found
        pure (infos found))
          log
