-- ===== src/Usb/Discovery/Found.antt =====
-- What a search for adapters returns satisfies the selector.
use gsusb_canfd.Prelude.{
  ℕ, ◌≡◌, refl, ◌⊎◌, inl, inr, ◌≢◌, Bool, true, false, not, Option, none, some, List, [], ◌∷◌,
  arith, All, if◌then◌else◌, Option-cases, Bool-cases, subst,
}
use gsusb_canfd.Errors.{ok}
use gsusb_canfd.Usb.{DeviceDescriptor, UsbDevice, Libusb, Log, listed}
use gsusb_canfd.Usb.Text.{text_eq, contains, to_lower}
use gsusb_canfd.Usb.Discovery.{
  AdapterInfo, DeviceSelector, FoundDevice, accepts, accepts_ids, read_info, inspect, inspect_all,
  find_devices, push_found, take_device, keys_of,
}

text_eq→eq : (xs ys : List ℕ) → text_eq xs ys ≡ true → xs ≡ ys
unfolding text_eq
text_eq→eq [] [] h = refl
text_eq→eq [] (y ∷ ys) h = cc
text_eq→eq (x ∷ xs) [] h = cc
text_eq→eq (x ∷ xs) (y ∷ ys) h = ground (arith, text_eq→eq xs ys)

-- An adapter that a selector asks for. The location counts only where no serial is given.
pub record IsWanted (selector : DeviceSelector) (info : AdapterInfo) : Type 0 where
  pub vid : (selector.vid ≡ 0) ⊎ (info.vendor_id ≡ selector.vid)
  pub pid : (selector.pid ≡ 0) ⊎ (info.product_id ≡ selector.pid)
  pub serial : (selector.serial ≡ none) ⊎ (selector.serial ≡ some info.serial)
  pub product :
      (selector.product ≡ none)
      ⊎ ((p : List ℕ) × (selector.product ≡ some p)
          × (contains (to_lower info.product) (to_lower p) ≡ true))
  pub bus : (selector.serial ≢ none) ⊎ (selector.bus ≡ none) ⊎ (selector.bus ≡ some info.bus)
  pub address :
      (selector.serial ≢ none) ⊎ (selector.address ≡ none) ⊎ (selector.address ≡ some info.address)

accepts-IsWanted :
    (selector : DeviceSelector) (desc : DeviceDescriptor) (info : AdapterInfo)
    → accepts_ids selector desc ≡ true
    → accepts selector info ≡ true
    → info.vendor_id ≡ desc.vendor
    → info.product_id ≡ desc.product
    → IsWanted selector info
unfolding accepts accepts_ids
accepts-IsWanted selector desc info ids rest v p = record {
  vid = ground arith;
  pid = ground arith;
  serial = elim (Option-cases selector.serial) [
    | inl e ↦ inl e
    | inr (s, e) ↦ inr (ground (arith, text_eq→eq info.serial s))
  ];
  product = elim (Option-cases selector.product) [
    | inl e ↦ inl e
    | inr (q, e) ↦ inr (q, e, ground arith)
  ];
  bus = elim (Option-cases selector.serial) [
    | inr (s, e) ↦ inl (λ h. cc)
    | inl e ↦ elim (Option-cases selector.bus) [
      | inl none_given ↦ inr (inl none_given)
      | inr (q, given) ↦ inr (inr (ground arith))
    ]
  ];
  address = elim (Option-cases selector.serial) [
    | inr (s, e) ↦ inl (λ h. cc)
    | inl e ↦ elim (Option-cases selector.address) [
      | inl none_given ↦ inr (inl none_given)
      | inr (q, given) ↦ inr (inr (ground arith))
    ]
  ];
}

module _ (usb : Libusb) where
  read_info_ids :
      (device : UsbDevice) (desc : DeviceDescriptor) (log : Log)
      → let info = (read_info usb device desc log).0 in
        (info.vendor_id ≡ desc.vendor) × (info.product_id ≡ desc.product)
  unfolding read_info
  read_info_ids device desc log = ground arith

  -- The result of one round.
  abbrev Wanted : DeviceSelector → Option FoundDevice → Type 0
  Wanted selector none = Unit
  Wanted selector (some found) = IsWanted selector found.info

  taken :
      (selector : DeviceSelector) (heuristics likely : Bool) (found : FoundDevice) (l m : Log)
      → IsWanted selector found.info
      → Wanted selector
          (if◌then◌else◌ {A = Option FoundDevice × Log}
            (not heuristics)
            (take_device usb found.key found.info true l)
            (take_device usb found.key found.info likely m)).0
  taken selector false likely found l m h = h
  taken selector true true found l m h = h
  taken selector true false found l m h = tt

  inspect-Wanted :
      (selector : DeviceSelector) (heuristics : Bool) (device : UsbDevice) (log : Log)
      → Wanted selector (inspect usb selector heuristics device log).0
  unfolding inspect
  inspect-Wanted selector heuristics device log = elim (Option-cases device.descriptor) [
    | inl e ↦ rw (e, inspect) tt
    | inr (desc, e) ↦
        rw (e, inspect)
          (elim (Bool-cases (accepts_ids selector desc)) [
            | inr other ↦ rw other tt
            | inl ids ↦ elim (Bool-cases (accepts selector (read_info usb device desc log).0)) [
              | inr other ↦ rw (ids, other) tt
              | inl good ↦
                  let (v, p) = read_info_ids device desc log in
                  rw (ids, good)
                    (taken selector heuristics _ (record { key = device.key; info = _ }) _ _
                      (accepts-IsWanted selector desc _ ids good v p))
            ]
          ])
  ]

  push-Wanted :
      (selector : DeviceSelector) (r : Option FoundDevice) (rest : List FoundDevice)
      → Wanted selector r
      → All (λ found. IsWanted selector found.info) rest
      → All (λ found. IsWanted selector found.info) (push_found usb r rest)
  push-Wanted selector none rest h hs = hs
  push-Wanted selector (some found) rest h hs = (h, hs)

  inspect_all-IsWanted :
      (selector : DeviceSelector) (heuristics : Bool) (devices : List UsbDevice) (log : Log)
      → All
          (λ found. IsWanted selector found.info)
          (inspect_all usb selector heuristics devices log).0
  unfolding inspect_all
  inspect_all-IsWanted selector heuristics [] log = tt
  inspect_all-IsWanted selector heuristics (device ∷ devices) log =
      push-Wanted selector (inspect usb selector heuristics device log).0 _
        (inspect-Wanted selector heuristics device log)
        (inspect_all-IsWanted selector heuristics devices
          (inspect usb selector heuristics device log).1)

  -- Every adapter that a search returns is one that the selector asks for.
  pub find_devices-IsWanted :
      (selector : DeviceSelector) (heuristics : Bool) (log : Log) (found : List FoundDevice)
      → (find_devices usb selector heuristics log).0 ≡ ok found
      → All (λ f. IsWanted selector f.info) found
  unfolding find_devices
  find_devices-IsWanted selector heuristics log found h =
      elim (Option-cases (usb.device_list log)) [
        | inl e ↦ absurd (ground arith)
        | inr (devices, e) ↦
            subst (All (λ f. IsWanted selector f.info)) (ground arith) (
              inspect_all-IsWanted selector heuristics devices (listed (keys_of usb devices) ∷ log))
      ]
