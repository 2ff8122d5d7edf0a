-- ===== src/Device/Lifecycle/Closing.antt =====
-- Closing the bus gives its device back.
use gsusb_canfd.Prelude.{
  ℕ, ◌+◌, ◌≡◌, refl, ap, ◌∙◌, false, ◌&&◌, none, some, [], arith, Bool-cases, Option-cases, inl,
  inr,
}
use gsusb_canfd.Usb.{Libusb}
use gsusb_canfd.Usb.Discovery.Balance.{open_handles}
use gsusb_canfd.Usb.Transport.{UsbTransport, transport_is_open, close_transport}
use gsusb_canfd.Usb.Transport.Open.{
  holds, IsBalanced, close_transport-IsBalanced, close_transport_handle,
}
use gsusb_canfd.Device.State.{Bus, is_open, update, k_breq_mode}
use gsusb_canfd.Device.Open.{control_out}
use gsusb_canfd.Device.Configure.{reset_mode, close_bus, reset_bytes}
use gsusb_canfd.Device.Lifecycle.{held, IsOwned, IsSound, Keeps, control_with-balance, after_catch}

module _ (usb : Libusb) (base : ℕ → ℕ) (t : UsbTransport) where
  -- What holds of a bus while it is being closed.
  abbrev IsClosing : Bus → Type 0
  IsClosing b = IsOwned base b × (b.impl.transport ≡ some t)

  abbrev IsReset : Bus → Type 0
  IsReset b = IsClosing b × (b.impl.started ≡ false)

  reset-Keeps :
      (channel : ℕ) → Keeps IsClosing (control_out usb t k_breq_mode channel 0 reset_bytes 8)
  reset-Keeps channel = record {
    keeps = λ b h. (λ key. control_with-balance usb key t.handle _ b.log ∙ h.0 key, h.1);
  }

  -- A bus that is not both started and open is not started.
  stopped :
      (b : Bus)
      → IsSound base b
      → b.impl.transport ≡ some t
      → b.impl.started && transport_is_open t ≡ false
      → b.impl.started ≡ false
  stopped b h here off = elim (Bool-cases b.impl.started) [
    | inl on ↦
        let same : is_open b.impl ≡ transport_is_open t = rw here refl in
        ground (arith, on, off, same, h.1 on)
    | inr idle ↦ idle
  ]

  -- The request, and the flag.
  reset_mode-IsReset :
      (b : Bus) → IsSound base b → b.impl.transport ≡ some t → IsReset (reset_mode usb t b).1
  unfolding reset_mode
  reset_mode-IsReset b h here = elim (Bool-cases (b.impl.started && transport_is_open t)) [
    | inl on ↦
        let m = control_out usb t k_breq_mode b.impl.channel 0 reset_bytes 8 in
        let done =
          after_catch IsClosing IsReset m (0, []) (update (λ impl. record impl { started = false }))
            (reset-Keeps b.impl.channel) (λ b' h'. (h', refl)) b (h.0, here) in
        rw (on, reset_mode) done
    | inr off ↦ rw (off, reset_mode) ((h.0, here), stopped b h here off)
  ]

module _ (usb : Libusb) (base : ℕ → ℕ) where
  -- What closing leaves: no transport, no start, and every handle given back.
  abbrev pub IsReleased : Bus → Type 0
  IsReleased b =
      (b.impl.transport ≡ none)
      × (b.impl.started ≡ false)
      × ((key : ℕ) → open_handles key b.log ≡ base key)

  absent_stopped : (b : Bus) → IsSound base b → b.impl.transport ≡ none → b.impl.started ≡ false
  absent_stopped b h e = elim (Bool-cases b.impl.started) [
    | inl on ↦ let closed : is_open b.impl ≡ false = rw e refl in ground (arith, closed, h.1 on)
    | inr idle ↦ idle
  ]

  absent_balance :
      (b : Bus)
      → IsSound base b
      → b.impl.transport ≡ none
      → (key : ℕ) → open_handles key b.log ≡ base key
  absent_balance b h e key =
      let nothing : held key b.impl ≡ 0 = rw e refl in omega (arith, h.0 key, nothing)

  handle_of : (key : ℕ) (t : UsbTransport) → t.handle ≡ none → base key + holds key t ≡ base key
  handle_of key t e = let nothing : holds key t ≡ 0 = rw e refl in omega (arith, nothing)

  -- Closing a sound bus leaves no transport, a bus that is not started, and no handle open but
  -- those that were open in `base`, whatever the reset request returns.
  pub close_bus-IsReleased : (b : Bus) → IsSound base b → IsReleased (close_bus usb b)
  unfolding close_bus
  close_bus-IsReleased b h = elim (Option-cases b.impl.transport) [
    | inl e ↦ rw (e, close_bus) (e, absent_stopped b h e, absent_balance b h e)
    | inr (t, e) ↦
        let b' = (reset_mode usb t b).1 in
        let after = reset_mode-IsReset usb base t b h e in
        let balanced : IsBalanced base (record { transport = t; log = b'.log }) = λ key.
          after.0.0 key
          ∙ ap (λ o. base key + elim o [ none ↦ 0 | some u ↦ holds key u ]) after.0.1 in
        rw (e, close_bus)
          (
            refl,
            after.1,
            λ key.
                close_transport-IsBalanced base t b'.log balanced key
                ∙ handle_of key (close_transport t b'.log).0 (close_transport_handle t b'.log),
          )
  ]
