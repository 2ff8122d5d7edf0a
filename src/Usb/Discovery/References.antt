-- ===== src/Usb/Discovery/References.antt =====
-- The references to libusb_device that discovery takes and gives back. As libusb documents it, a
-- device list comes with one reference to each of its devices.
use gsusb_canfd.Prelude.{
  ℕ, suc, ◌+◌, ◌≡◌, refl, ◌∙◌, ap, Bool, true, false, not, ◌&&◌, Option, none, some, List, [], ◌∷◌,
  arith, ◌==◌, if◌then◌else◌, Option-cases, Bool-cases, inl, inr,
}
use gsusb_canfd.Errors.{CanFdError, Result, ok, err}
use gsusb_canfd.Effects.{◌>>=◌, ◌>>◌, pure}
use gsusb_canfd.Usb.{
  DeviceDescriptor, UsbDevice, Libusb, Log, listed, referenced, unreferenced, opened,
}
use gsusb_canfd.Usb.Discovery.{
  AdapterInfo, DeviceSelector, FoundDevice, read_text, has_vendor_bulk_interface, looks_like_gs_usb,
  read_info, take_device, push_found, inspect, inspect_all, keys_of, find_devices, unref_all,
  accepts_ids, accepts, free_found, infos, scan_selector, scan_adapters,
}

-- How often a device stands in a list.
abbrev pub listings : (key : ℕ) → List ℕ → ℕ
listings key [] = 0
listings key (k ∷ keys) = if k == key then suc (listings key keys) else listings key keys

-- The references to a device that were taken, and those given back.
abbrev pub taken : (key : ℕ) → Log → ℕ
taken key [] = 0
taken key (listed keys ∷ log) = listings key keys + taken key log
taken key (referenced k ∷ log) = if k == key then suc (taken key log) else taken key log
taken key (_ ∷ log) = taken key log

abbrev pub given_back : (key : ℕ) → Log → ℕ
given_back key [] = 0
given_back key (unreferenced k ∷ log) =
    if k == key then suc (given_back key log) else given_back key log
given_back key (_ ∷ log) = given_back key log

-- The references that a list of found devices stands for.
abbrev pub references : (key : ℕ) → List FoundDevice → ℕ
references key [] = 0
references key (found ∷ rest) =
    if found.key == key then suc (references key rest) else references key rest

abbrev reference : (key : ℕ) → Option FoundDevice → ℕ
reference key none = 0
reference key (some found) = if found.key == key then 1 else 0

-- Between two logs a number of references is taken and none is given back.
abbrev pub Takes : (key n : ℕ) → Log → Log → Type 0
Takes key n log after =
    (taken key after ≡ n + taken key log) × (given_back key after ≡ given_back key log)

-- Between two logs the references that are taken and not given back become more by a number.
abbrev pub Leaves : (key n : ℕ) → Log → Log → Type 0
Leaves key n log after =
    taken key after + given_back key log ≡ n + (taken key log + given_back key after)

-- The devices of a list, none where libusb returns an error, and those of a search, none if it throws.
abbrev pub entries : Libusb → Option (List UsbDevice) → List ℕ
entries usb none = []
entries usb (some devices) = keys_of usb devices

abbrev pub found_of : Result (List FoundDevice) → List FoundDevice
found_of (ok found) = found
found_of (err e) = []

module _ (usb : Libusb) (key : ℕ) where
  read_text-Takes : (k index : ℕ) (log : Log) → Takes key 0 log (read_text usb k index log).1
  unfolding read_text
  read_text-Takes k index log = ground arith

  looks_like_gs_usb-Takes :
      (info : AdapterInfo) (k : ℕ) (log : Log)
      → Takes key 0 log (looks_like_gs_usb usb info k log).1
  unfolding looks_like_gs_usb has_vendor_bulk_interface
  looks_like_gs_usb-Takes info k log = ground arith

  read_info-Takes :
      (device : UsbDevice) (desc : DeviceDescriptor) (log : Log)
      → Takes key 0 log (read_info usb device desc log).1
  unfolding read_info
  read_info-Takes device desc log =
      let k = device.key in
      let log1 : Log = opened k ∷ log in
      let log2 = (read_text usb k desc.manufacturer_index log1).1 in
      let log3 = (read_text usb k desc.product_index log2).1 in
      ground (
        arith,
        read_text-Takes k desc.manufacturer_index log1,
        read_text-Takes k desc.product_index log2,
        read_text-Takes k desc.serial_index log3,
      )

  -- What a part takes behind a part that takes nothing.
  then-Takes :
      (n : ℕ) (log middle after : Log)
      → Takes key 0 log middle
      → Takes key n middle after
      → Takes key n log after
  then-Takes n log middle after first second =
      (omega (arith, first.0, second.0), second.1 ∙ first.1)

  take_device-Takes :
      (k : ℕ) (info : AdapterInfo) (likely : Bool) (log : Log)
      → let r = take_device usb k info likely log in Takes key (reference key r.0) log r.1
  take_device-Takes k info true log = ground arith
  take_device-Takes k info false log = ground arith

  inspect-Takes :
      (selector : DeviceSelector) (heuristics : Bool) (device : UsbDevice) (log : Log)
      → let r = inspect usb selector heuristics device log in Takes key (reference key r.0) log r.1
  unfolding inspect
  inspect-Takes selector heuristics device log = elim (Option-cases device.descriptor) [
    | inl e ↦ rw (e, inspect) (omega arith, refl)
    | inr (desc, e) ↦
        let k = device.key in
        let first = read_info usb device desc log in
        let second = looks_like_gs_usb usb first.0 k first.1 in
        let last = take_device usb k first.0 second.0 second.1 in
        let read = read_info-Takes device desc log in
        elim (Bool-cases (accepts_ids selector desc)) [
          | inr other ↦ rw (e, other, inspect) (omega arith, refl)
          | inl ids ↦ elim (Bool-cases (accepts selector first.0)) [
            | inr other ↦ rw (e, ids, other, inspect) read
            | inl good ↦ elim (Bool-cases heuristics) [
              | inr off ↦
                  rw (e, ids, good, off, inspect)
                    (then-Takes _ log first.1 (take_device usb k first.0 true first.1).1 read
                      (take_device-Takes k first.0 true first.1))
              | inl on ↦
                  rw (e, ids, good, on, inspect)
                    (then-Takes _ log first.1 last.1 read (
                      then-Takes _ first.1 second.1 last.1
                        (looks_like_gs_usb-Takes first.0 k first.1)
                        (take_device-Takes k first.0 second.0 second.1)))
            ]
          ]
        ]
  ]

  inspect_all-Takes :
      (selector : DeviceSelector) (heuristics : Bool) (devices : List UsbDevice) (log : Log)
      → let r = inspect_all usb selector heuristics devices log in
        Takes key (references key r.0) log r.1
  unfolding inspect_all
  inspect_all-Takes selector heuristics [] log = (omega arith, refl)
  inspect_all-Takes selector heuristics (device ∷ devices) log =
      let one = inspect usb selector heuristics device log in
      let rest = inspect_all usb selector heuristics devices one.1 in
      let first = inspect-Takes selector heuristics device log in
      let others = inspect_all-Takes selector heuristics devices one.1 in
      elim (Option-cases one.0) [
        | inl e ↦
            let nothing : reference key one.0 ≡ 0 = rw e refl in
            let same : references key (push_found usb one.0 rest.0) ≡ references key rest.0 =
              rw e refl in
            (omega (arith, first.0, others.0, nothing, same), others.1 ∙ first.1)
        | inr (f, e) ↦
            let some_of : reference key one.0 + references key rest.0
                ≡ references key (push_found usb one.0 rest.0) =
              rw e (ground arith) in
            (omega (arith, first.0, others.0, some_of), others.1 ∙ first.1)
      ]

  unref_all-gives :
      (found : List FoundDevice) (log : Log)
      → (taken key (unref_all usb found log) ≡ taken key log)
        × (given_back key (unref_all usb found log) ≡ references key found + given_back key log)
  unfolding unref_all
  unref_all-gives [] log = ground arith
  unref_all-gives (f ∷ found) log = ground (arith, unref_all-gives found (unreferenced f.key ∷ log))

  -- A search takes one reference for each entry of the device list and one for each adapter found.
  pub find_devices-Takes :
      (selector : DeviceSelector) (heuristics : Bool) (log : Log)
      → let r = find_devices usb selector heuristics log in
        Takes key
          (listings key (entries usb (usb.device_list log)) + references key (found_of r.0))
          log
          r.1
  unfolding find_devices
  find_devices-Takes selector heuristics log = elim (Option-cases (usb.device_list log)) [
    | inl e ↦ rw (e, find_devices) (omega arith, refl)
    | inr (devices, e) ↦
        let start : Log = listed (keys_of usb devices) ∷ log in
        let all = inspect_all-Takes selector heuristics devices start in
        rw (e, find_devices) (omega (arith, all.0), all.1)
  ]

  -- What a search that is followed by freeing leaves: the references of the device list.
  pub freed-Leaves :
      (n : ℕ) (found : List FoundDevice) (log after : Log)
      → Takes key (n + references key found) log after
      → Leaves key n log (unref_all usb found after)
  freed-Leaves n found log after h =
      let freed = unref_all-gives found after in omega (arith, freed.0, freed.1, h.0, h.1)

  -- Taking the results of a search, or throwing instead of it.
  infos-Leaves :
      (n : ℕ) (r : Result (List FoundDevice) × Log) (log : Log)
      → Takes key (n + references key (found_of r.0)) log r.1
      → Leaves key n log
          (((λ _. r) >>= λ found. free_found usb found >> pure (infos usb found)) log).1
  infos-Leaves n (ok found, after) log h = freed-Leaves n found log after h
  infos-Leaves n (err e, after) log h = omega (arith, h.0, h.1)

  either-Leaves :
      (n : ℕ) (missing : Bool) (e : CanFdError) (log : Log) (r : Result (List AdapterInfo) × Log)
      → missing ≡ false
      → Leaves key n log r.1
      → Leaves key n log (if missing then (err e, log) else r).1
  either-Leaves n true e log r off h = cc
  either-Leaves n false e log r off h = h

  -- A scan leaves one more reference to a device for each time that it stands in the device list of
  -- libusb: those of the adapters found are given back, those of the list are not.
  pub scan_adapters-Leaves :
      (vid pid : ℕ) (log : Log)
      → usb.has_context ≡ true
      → taken key (scan_adapters usb vid pid log).1 + given_back key log
        ≡ listings key (entries usb (usb.device_list log))
          + (taken key log + given_back key (scan_adapters usb vid pid log).1)
  unfolding scan_adapters
  scan_adapters-Leaves vid pid log ready =
      let selector = scan_selector usb vid pid in
      let heuristics = vid == 0 && pid == 0 in
      either-Leaves _ (not usb.has_context) _ log _ (ap not ready) (
        infos-Leaves (listings key (entries usb (usb.device_list log)))
          (find_devices usb selector heuristics log) log
          (find_devices-Takes selector heuristics log))
