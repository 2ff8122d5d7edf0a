-- ===== src/Device/Lifecycle/Opening.antt =====
-- Opening and closing the bus keep it sound.
use gsusb_canfd.Prelude.{
  ℕ, ◌+◌, ◌≡◌, refl, ap, ◌∙◌, Bool, true, false, leb, ltb, Option, some, List, arith, if◌then◌else◌,
  Bool-cases, inl, inr, replicate,
}
use gsusb_canfd.Errors.{Result, ok, err, bus_error, Message}
use gsusb_canfd.Effects.{◌>>◌, throw_if}
use gsusb_canfd.Usb.{Libusb, Log, ControlRequest}
use gsusb_canfd.Usb.Discovery.{AdapterInfo}
use gsusb_canfd.Usb.Transport.{
  UsbTransport, Port, new_transport, open_transport, control_with, control_request, is_some,
}
use gsusb_canfd.Usb.Transport.Open.{IsBalanced, IsOutcome, open_transport-Ends}
use gsusb_canfd.Device.State.{Impl, Bus, is_open, lift, update, k_ctrl_in, k_breq_device_config}
use gsusb_canfd.Device.Open.{
  read_legacy, read_capabilities, read_device_info, handshake, after_transport, open_bus,
  open_adapter, with_legacy, with_extended, store_device_info, selector_for,
}
use gsusb_canfd.Device.Lifecycle.{
  held, IsSound, IsLive, Keeps, bind-Keeps, then-Keeps, catch-Keeps, throw_if-Keeps, IsAt,
  control_with-IsLive, IsLive-IsSound,
}

-- A property that control requests leave alone holds behind the handshake.
module _ (usb : Libusb) (Q : Option UsbTransport → Bool → Log → Type 0)
    (quiet : (t : Option UsbTransport) (started : Bool) (handle : Option ℕ) (req : ControlRequest)
        (log : Log)
      → Q t started log
      → Q t started (control_with usb handle req log).1) where
  pub control-IsAt :
      (handle : Option ℕ) (req : ControlRequest)
      → Keeps (IsAt Q) (lift (control_with usb handle req))
  control-IsAt handle req = record {
    keeps = λ b h. quiet b.impl.transport b.impl.started handle req b.log h;
  }

  legacy_of-IsAt :
      (legacy : ℕ × List ℕ)
      → Keeps (IsAt Q) (
          throw_if (ltb legacy.0 40) (bus_error Message.no_timing_constants)
          >> update (with_legacy legacy.1))
  legacy_of-IsAt legacy =
      then-Keeps (IsAt Q) (throw_if (ltb legacy.0 40) (bus_error Message.no_timing_constants))
        (update (with_legacy legacy.1)) (throw_if-Keeps (IsAt Q) _ _) (record { keeps = λ b h. h })

  read_legacy-IsAt : (t : UsbTransport) (channel : ℕ) → Keeps (IsAt Q) (read_legacy usb t channel)
  unfolding read_legacy
  read_legacy-IsAt t channel = bind-Keeps (IsAt Q) _ _ (control-IsAt t.handle _) legacy_of-IsAt

  -- What follows the first answer.
  capabilities_of-IsAt :
      (t : UsbTransport) (channel : ℕ) (received : ℕ × List ℕ)
      → Keeps (IsAt Q) (
          if leb 72 received.0
          then update (with_extended received.1)
          else read_legacy usb t channel)
  capabilities_of-IsAt t channel received = elim (Bool-cases (leb 72 received.0)) [
    | inl long ↦ rw long (record { keeps = λ b h. h })
    | inr short ↦ rw short (read_legacy-IsAt t channel)
  ]

  read_capabilities-IsAt :
      (t : UsbTransport) (channel : ℕ) → Keeps (IsAt Q) (read_capabilities usb t channel)
  unfolding read_capabilities
  read_capabilities-IsAt t channel =
      bind-Keeps (IsAt Q) _ _ (catch-Keeps (IsAt Q) _ _ (control-IsAt t.handle _))
        (capabilities_of-IsAt t channel)

  store-IsAt :
      (r : Result (ℕ × List ℕ)) (b : Bus)
      → IsAt Q b
      → IsAt Q (record { impl = store_device_info r b.impl; log = b.log })
  store-IsAt (err e) b h = h
  store-IsAt (ok (received, buffer)) b h = elim (Bool-cases (leb 12 received)) [
    | inl long ↦ rw long h
    | inr short ↦ rw short h
  ]

  read_device_info-IsAt : (t : UsbTransport) → Keeps (IsAt Q) (read_device_info usb t)
  unfolding read_device_info
  read_device_info-IsAt t = record {
    keeps = λ b h.
        let req = control_request k_ctrl_in k_breq_device_config 1 0 (replicate 12 0) 12 in
        let m = lift (control_with usb t.handle req) in
        store-IsAt (m b).0 (m b).1 ((control-IsAt t.handle req).keeps b h);
  }

  pub handshake-IsAt : (t : UsbTransport) → Keeps (IsAt Q) (handshake usb t)
  unfolding handshake
  handshake-IsAt t = record {
    keeps = λ b h.
        (then-Keeps (IsAt Q) _ _ (catch-Keeps (IsAt Q) _ _ (control-IsAt t.handle _)) (
            then-Keeps (IsAt Q) _ _ (read_capabilities-IsAt t b.impl.channel)
              (read_device_info-IsAt t))).keeps
          b h;
  }

module _ (usb : Libusb) (base : ℕ → ℕ) where
  -- The bus as it is once the transport has been opened or not.
  after_transport-IsSound :
      (r : Result (Unit {0})) (p : Port) (impl : Impl)
      → IsOutcome (r, p)
      → IsBalanced base p
      → (impl.started ≡ true → is_open impl ≡ true)
      → is_open impl ≡ false
      → IsSound base
          (after_transport usb r p.transport
            (record { impl = record impl { transport = some p.transport }; log = p.log })).1
  after_transport-IsSound (ok _) p impl ((key, e), claimed) balanced started closed =
      let b : Bus = record { impl = record impl { transport = some p.transport }; log = p.log } in
      let live : is_open (record impl { transport = some p.transport }) ≡ true =
        ap (λ h. is_some h) e in
      IsLive-IsSound base (handshake usb p.transport b).1 (
        (handshake-IsAt usb (IsLive base) (control_with-IsLive usb base) p.transport).keeps b
          (balanced, live))
  after_transport-IsSound (err x) p impl e balanced started closed =
      (balanced, λ on. ground (arith, started on, closed))

  -- A bus that is not open holds nothing.
  held-closed : (key : ℕ) (impl : Impl) → is_open impl ≡ false → held key impl ≡ 0
  held-closed key impl off = ground (arith, off)

  pub open_bus-IsSound : Keeps (IsSound base) (open_bus usb)
  unfolding open_bus
  open_bus-IsSound = record {
    keeps = λ b h. elim (Bool-cases (is_open b.impl)) [
      | inl on ↦ rw (on, open_bus) h
      | inr off ↦
          let p : Port = record { transport = new_transport b.impl.selector; log = b.log } in
          let balanced : IsBalanced base p =
            λ key. h.0 key ∙ ap (λ n. base key + n) (held-closed key b.impl off) in
          let r = open_transport usb p in
          let ends = open_transport-Ends usb base p refl balanced in
          rw (off, open_bus) (after_transport-IsSound r.0 r.1 b.impl ends.0 ends.1 h.1 off)
    ];
  }

  pub open_adapter-IsSound : (info : AdapterInfo) → Keeps (IsSound base) (open_adapter usb info)
  unfolding open_adapter
  open_adapter-IsSound info = record {
    keeps = λ b h.
        open_bus-IsSound.keeps
          (record {
            impl = record b.impl { selector = selector_for info b.impl.selector };
            log = b.log;
          })
          h;
  }
