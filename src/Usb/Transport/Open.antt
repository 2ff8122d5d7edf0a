-- ===== src/Usb/Transport/Open.antt =====
-- Opening and closing the transport: no failure leaks a handle, and success means a claimed
-- interface.
use gsusb_canfd.Prelude.{
  ℕ, ◌+◌, ◌≡◌, refl, subst, ◌∙◌, true, ◌&&◌, inl, inr, none, some, List, ◌∷◌, arith, ◌==◌,
  if◌then◌else◌, Option-cases, Bool-cases,
}
use gsusb_canfd.Prelude.Int.{pos, eqb_ℤ}
use gsusb_canfd.Errors.{CanFdError, Result, ok, err, bus_error, not_found_error, Message}
use gsusb_canfd.Usb.{Libusb, Log, opened, refused, detached}
use gsusb_canfd.Usb.Interface.{Endpoints}
use gsusb_canfd.Usb.Discovery.{FoundDevice, find_devices, unref_all}
use gsusb_canfd.Usb.Discovery.Balance.{open_handles, find_devices-balance, unref_all-balance}
use gsusb_canfd.Usb.Transport.{
  UsbTransport, Port, close_transport, find_bulk_interface, abandon, claim_found, claim_endpoints,
  open_device, open_picked, open_found, open_transport, pick_device,
}

-- The handles of a device that the object holds: one or none.
abbrev pub holds : (key : ℕ) → UsbTransport → ℕ
holds key t = elim t.handle [ none ↦ 0 | some k ↦ if k == key then 1 else 0 ]

-- Every open handle is one that was open in `base` or the one that the object holds.
abbrev pub IsBalanced : (base : ℕ → ℕ) → Port → Type 0
IsBalanced base p = (key : ℕ) → open_handles key p.log ≡ base key + holds key p.transport

-- How `open` ends: with the device open and its interface claimed, or with nothing held.
abbrev pub IsOutcome : Result (Unit {0}) × Port → Type 0
IsOutcome (ok _, p) =
    ((key : ℕ) × (p.transport.handle ≡ some key)) × (p.transport.interface_claimed ≡ true)
IsOutcome (err e, p) = p.transport.handle ≡ none

module _ (base : ℕ → ℕ) where
  pub close_transport-IsBalanced :
      (t : UsbTransport) (log : Log)
      → IsBalanced base (record { transport = t; log = log })
      → let (t', log') = close_transport t log in
        IsBalanced base (record { transport = t'; log = log' })
  unfolding close_transport
  close_transport-IsBalanced t log h key = elim (Option-cases t.handle) [
    | inl e ↦ rw (e, close_transport) (ground (arith, h key))
    | inr (k, e) ↦ rw (e, close_transport) (ground (arith, h key))
  ]

pub close_transport_handle :
    (t : UsbTransport) (log : Log) → (close_transport t log).0.handle ≡ none
unfolding close_transport
close_transport_handle t log = ground arith

module _ (usb : Libusb) where
  find_bulk_interface-balance :
      (key k : ℕ) (log : Log)
      → open_handles key (find_bulk_interface usb k log).1 ≡ open_handles key log
  unfolding find_bulk_interface
  find_bulk_interface-balance key k log = ground arith

-- Both facts about a call's end.
abbrev pub Ends : (base : ℕ → ℕ) → Result (Unit {0}) × Port → Type 0
Ends base r = IsOutcome r × IsBalanced base r.1

module _ (usb : Libusb) (base : ℕ → ℕ) where
  abandon-Ends :
      (e : CanFdError) (t : UsbTransport) (log : Log)
      → IsBalanced base (record { transport = t; log = log })
      → Ends base (abandon e t log)
  unfolding abandon
  abandon-Ends e t log h = (close_transport_handle t log, close_transport-IsBalanced base t log h)

  claim_found-Ends :
      (k : ℕ) (e : Endpoints) (t : UsbTransport) (log : Log)
      → t.handle ≡ some k
      → IsBalanced base (record { transport = t; log = log })
      → Ends base (claim_found usb k e t log)
  unfolding claim_found
  claim_found-Ends k e t log held h =
      elim (Bool-cases (eqb_ℤ (usb.claim_rc log k (pos e.interface_number)) (pos 0))) [
        | inl won ↦ rw won (((k, held), refl), h)
        | inr lost ↦ rw lost (abandon-Ends (bus_error Message.claim_failed) _ _ h)
      ]

  claim_endpoints-Ends :
      (k : ℕ) (t : UsbTransport) (log : Log)
      → IsBalanced base (record { transport = record t { handle = some k }; log = log })
      → Ends base (claim_endpoints usb k t log)
  unfolding claim_endpoints
  claim_endpoints-Ends k t log h =
      let t' = record t { handle = some k } in
      let log' = (find_bulk_interface usb k (detached k ∷ log)).1 in
      let h' : IsBalanced base (record { transport = t'; log = log' }) =
        λ key. find_bulk_interface-balance usb key k (detached k ∷ log) ∙ h key in
      elim (Option-cases (find_bulk_interface usb k (detached k ∷ log)).0) [
        | inl e ↦
            rw (e, claim_endpoints)
              (abandon-Ends (not_found_error Message.no_bulk_endpoints) t' log' h')
        | inr (found, e) ↦ rw (e, claim_endpoints) (claim_found-Ends k found t' log' refl h')
      ]

  open_device-Ends :
      (device : FoundDevice) (found : List FoundDevice) (t : UsbTransport) (log : Log)
      → t.handle ≡ none
      → IsBalanced base (record { transport = t; log = log })
      → Ends base (open_device usb device found t log)
  unfolding open_device
  open_device-Ends device found t log empty h =
      elim (Bool-cases (eqb_ℤ (usb.open_rc log device.key) (pos 0))) [
        | inl won ↦ rw won (
            claim_endpoints-Ends device.key t (unref_all usb found (opened device.key ∷ log))
              (λ key.
                ground (arith, h key, unref_all-balance usb key found (opened device.key ∷ log))))
        | inr lost ↦ rw lost (
          refl,
          λ key. ground (arith, h key, unref_all-balance usb key found (refused device.key ∷ log)),
        )
      ]

  module _ (t : UsbTransport) (log : Log) (empty : t.handle ≡ none)
      (h : IsBalanced base (record { transport = t; log = log })) where
    open_picked-Ends :
        (r : Result FoundDevice) (found : List FoundDevice)
        → Ends base (open_picked usb r found t log)
    unfolding open_picked
    open_picked-Ends (err e) found = (empty, λ key. unref_all-balance usb key found log ∙ h key)
    open_picked-Ends (ok device) found = open_device-Ends device found t log empty h

    open_found-Ends : (r : Result (List FoundDevice)) → Ends base (open_found usb r t log)
    unfolding open_found
    open_found-Ends (err e) = (empty, h)
    open_found-Ends (ok found) = open_picked-Ends (pick_device t.selector found) found

  -- Opening a transport that holds no handle, when the open handles are those of `base`, succeeds
  -- with a handle and a claimed interface or fails with no handle held, and in either case the open
  -- handles are those of `base` and the object's own.
  pub open_transport-Ends :
      (p : Port)
      → p.transport.handle ≡ none
      → IsBalanced base p
      → let r = open_transport usb p in IsOutcome r × IsBalanced base r.1
  unfolding open_transport
  open_transport-Ends p empty h =
      let t = p.transport in
      let heuristics = t.selector.vid == 0 && t.selector.pid == 0 in
      let found = find_devices usb t.selector heuristics p.log in
      let after : IsBalanced base (record { transport = t; log = found.1 }) =
        λ key. find_devices-balance usb key t.selector heuristics p.log ∙ h key in
      let r = open_found usb found.0 t found.1 in
      elim (Bool-cases usb.has_context) [
        | inl ready ↦
            let e : r ≡ open_transport usb p = ground (arith, empty, ready) in
            subst (Ends base) e (open_found-Ends t found.1 empty after found.0)
        | inr no_context ↦
            let failed : Result (Unit {0}) × Port = (err (bus_error Message.init_failed), p) in
            let e : failed ≡ open_transport usb p = ground (arith, empty, no_context) in
            subst (Ends base) e (empty, h)
      ]
