-- ===== src/Device/Lifecycle/Running.antt =====
-- Configuring keeps the bus sound.
use gsusb_canfd.Prelude.{
  ℕ, ◌≡◌, Bool, true, false, not, ◌&&◌, Option, Bool-cases, Option-cases, inl, inr,
}
use gsusb_canfd.Errors.{bus_error, Message}
use gsusb_canfd.Effects.{◌>>◌, throw_if, pure}
use gsusb_canfd.Floats.{Double}
use gsusb_canfd.Timing.{BitTiming, to_bytes}
use gsusb_canfd.Usb.{Libusb, Log, ControlRequest}
use gsusb_canfd.Usb.Transport.{UsbTransport, transport_is_open, control_with}
use gsusb_canfd.Device.State.{
  BusConfig, is_open, update, has_feature, k_breq_data_bittiming, k_listen_only, k_loopback,
  k_one_shot, k_fd,
}
use gsusb_canfd.Device.Open.{control_out}
use gsusb_canfd.Device.Configure.{
  configure_data, configure_data_if, with_modes, start_modes, apply_timing, configure_open,
  configure,
}
use gsusb_canfd.Device.Lifecycle.{
  IsSound, IsAt, IsLive, IsLive-IsSound, control_with-IsLive, Keeps, bind-Keeps, then-Keeps,
  throw_if-Keeps, from_result-Keeps, Ends, then-Ends, bind-Ends, Ends-Keeps,
}
use gsusb_canfd.Device.Lifecycle.Opening.{control-IsAt}

-- A property that control requests leave alone holds behind the configuration, but for the start.
module _ {D : Type 0} (F : Double D) (usb : Libusb) (t : UsbTransport) (c : BusConfig D)
    (Q : Option UsbTransport → Bool → Log → Type 0)
    (quiet : (t : Option UsbTransport) (started : Bool) (handle : Option ℕ) (req : ControlRequest)
        (log : Log)
      → Q t started log
      → Q t started (control_with usb handle req log).1) where
  -- Storing a timing and sending it.
  data_of-IsAt :
      (channel : ℕ) (timing : BitTiming)
      → Keeps (IsAt Q) (
          update (λ impl. record impl { data_timing = timing })
          >> (control_out usb t k_breq_data_bittiming channel 0 (to_bytes timing) 20 >> pure tt))
  data_of-IsAt channel timing =
      then-Keeps (IsAt Q) (update (λ impl. record impl { data_timing = timing })) _
        (record { keeps = λ b h. h })
        (then-Keeps (IsAt Q) _ (pure tt) (control-IsAt usb Q quiet t.handle _)
          (record { keeps = λ b h. h }))

  configure_data-IsAt : Keeps (IsAt Q) (configure_data F usb t c)
  unfolding configure_data
  configure_data-IsAt = record {
    keeps = λ b h.
        (then-Keeps (IsAt Q) _ _ (throw_if-Keeps (IsAt Q) _ _) (
            bind-Keeps (IsAt Q) _ _ (from_result-Keeps (IsAt Q) _)
              (data_of-IsAt b.impl.channel))).keeps
          b h;
  }

  configure_data_if-IsAt : (fd : Bool) → Keeps (IsAt Q) (configure_data_if F usb fd t c)
  configure_data_if-IsAt true = configure_data-IsAt
  configure_data_if-IsAt false = record { keeps = λ b h. h }

  module _ (R : Option UsbTransport → Bool → Log → Type 0)
      (begins : (t : Option UsbTransport) (started : Bool) (log : Log)
        → Q t started log
        → R t true log) where
    start_modes-Ends :
        (channel feature : ℕ) (fd : Bool)
        → Ends (IsAt Q) (IsAt R) (start_modes F usb t c channel feature fd)
    unfolding start_modes
    start_modes-Ends channel feature fd =
        then-Ends (IsAt Q) (IsAt R)
          (throw_if (c.listen_only && not (has_feature feature k_listen_only))
            (bus_error Message.no_listen_only))
          _ (throw_if-Keeps (IsAt Q) _ _)
          (then-Ends (IsAt Q) (IsAt R)
            (throw_if (c.loopback && not (has_feature feature k_loopback))
              (bus_error Message.no_loopback))
            _ (throw_if-Keeps (IsAt Q) _ _)
            (then-Ends (IsAt Q) (IsAt R)
              (throw_if (c.one_shot && not (has_feature feature k_one_shot))
                (bus_error Message.no_one_shot))
              _ (throw_if-Keeps (IsAt Q) _ _)
              (then-Ends (IsAt Q) (IsAt R) _ (update (λ impl. record impl { started = true }))
                (control-IsAt usb Q quiet t.handle _)
                (record { ends = λ b h. begins b.impl.transport b.impl.started b.log h }))))

    apply_timing-Ends :
        (channel feature : ℕ) (fd : Bool) (timing : BitTiming)
        → Ends (IsAt Q) (IsAt R) (apply_timing F usb t c channel feature fd timing)
    unfolding apply_timing
    apply_timing-Ends channel feature fd timing =
        then-Ends (IsAt Q) (IsAt R) (update (λ impl. record impl { nominal_timing = timing })) _
          (record { keeps = λ b h. h })
          (then-Ends (IsAt Q) (IsAt R) _ _ (control-IsAt usb Q quiet t.handle _) (
            then-Ends (IsAt Q) (IsAt R) _ _ (configure_data_if-IsAt fd) (
              then-Ends (IsAt Q) (IsAt R) (update (with_modes F usb c feature fd)) _
                (record { keeps = λ b h. h }) (start_modes-Ends channel feature fd))))

    pub configure_open-Ends : Ends (IsAt Q) (IsAt R) (configure_open F usb t c)
    unfolding configure_open
    configure_open-Ends = record {
      ends = λ b h.
          let feature = b.impl.feature in
          (then-Ends (IsAt Q) (IsAt R) _ _ (throw_if-Keeps (IsAt Q) _ _) (
              bind-Ends (IsAt Q) (IsAt R) _ _ (from_result-Keeps (IsAt Q) _)
                (apply_timing-Ends b.impl.channel feature (c.fd && has_feature feature k_fd)))).ends
            b h;
    }

module _ {D : Type 0} (F : Double D) (usb : Libusb) (base : ℕ → ℕ) where
  pub configure-IsSound : (c : BusConfig D) → Keeps (IsSound base) (configure F usb c)
  unfolding configure
  configure-IsSound c = record {
    keeps = λ b h. elim (Option-cases b.impl.transport) [
      | inl e ↦ rw (e, configure) h
      | inr (t, e) ↦ elim (Bool-cases (transport_is_open t)) [
        | inl on ↦
            let live : is_open b.impl ≡ true = rw e on in
            rw (e, on, configure)
              (IsLive-IsSound base (configure_open F usb t c b).1 (
                (Ends-Keeps (IsAt (IsLive base)) (configure_open F usb t c) (
                    configure_open-Ends F usb t c (IsLive base) (control_with-IsLive usb base)
                      (IsLive base) (λ t started log live. live))).keeps
                  b (h.0, live)))
        | inr off ↦ rw (e, off, configure) h
      ]
    ];
  }
