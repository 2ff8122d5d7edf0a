-- ===== src/Device/Configure.antt =====
-- CanFdBus::configure and CanFdBus::close.
pub mod Started
use gsusb_canfd.Prelude.{
  ℕ, Bool, true, false, not, ◌&&◌, none, some, List, [], ◌∷◌, bit_and, bit_or, u8, ◌>>>◌,
  if◌then◌else◌,
}
use gsusb_canfd.Errors.{ok, err, argument_error, bus_error, Message}
use gsusb_canfd.Effects.{Action, ◌>>=◌, ◌>>◌, pure, throw_if, catch}
use gsusb_canfd.Floats.{Double}
use gsusb_canfd.Timing.{BitTiming, to_bytes, calculate_bit_timing}
use gsusb_canfd.Usb.{Libusb}
use gsusb_canfd.Usb.Transport.{UsbTransport, transport_is_open, close_transport}
use gsusb_canfd.Device.State.{
  Impl, Bus, BusConfig, from_result, update, has_feature, k_breq_bittiming, k_breq_data_bittiming,
  k_breq_mode, k_mode_start, k_mode_reset, k_listen_only, k_loopback, k_one_shot, k_hw_timestamp,
  k_fd,
}
use gsusb_canfd.Device.Open.{control_out}

-- The `mode` block: the start command and the flags, lowest byte first.
unfoldable pub mode_bytes : (flags : ℕ) → List ℕ
mode_bytes flags =
    bit_and k_mode_start 0xFF
    ∷ 0
    ∷ 0
    ∷ 0
    ∷ u8 (bit_and flags 0xFF)
    ∷ u8 (bit_and (flags >>> 8) 0xFF)
    ∷ u8 (bit_and (flags >>> 16) 0xFF)
    ∷ u8 (bit_and (flags >>> 24) 0xFF)
    ∷ []

abbrev pub reset_bytes : List ℕ
reset_bytes = k_mode_reset ∷ 0 ∷ 0 ∷ 0 ∷ 0 ∷ 0 ∷ 0 ∷ 0 ∷ []

abbrev pub or_if : Bool → ℕ → ℕ → ℕ
or_if on flag flags = if on then bit_or flags flag else flags

-- The flags that `configure` asks for.
unfoldable pub mode_flags : (listen_only loopback one_shot fd hw_timestamp : Bool) → ℕ
mode_flags listen_only loopback one_shot fd hw_timestamp = or_if hw_timestamp k_hw_timestamp (
    or_if fd k_fd
      (or_if one_shot k_one_shot (or_if loopback k_loopback (or_if listen_only k_listen_only 0))))

module _ {D : Type 0} (F : Double D) (usb : Libusb) where
  -- The data phase of a CAN FD bus.
  unfoldable pub configure_data : UsbTransport → BusConfig D → Action Bus (Unit {0})
  configure_data t c b =
      (do
        throw_if (not b.impl.has_data_const) (bus_error Message.no_fd_constants)
        timing ← from_result (
            calculate_bit_timing F c.data_bitrate c.data_sample_point b.impl.fclk_can
              b.impl.data_const)
        update (λ impl. record impl { data_timing = timing })
        control_out usb t k_breq_data_bittiming b.impl.channel 0 (to_bytes timing) 20
        pure tt)
        b

  abbrev pub configure_data_if : Bool → UsbTransport → BusConfig D → Action Bus (Unit {0})
  configure_data_if true t c = configure_data t c
  configure_data_if false t c = pure tt

  -- The fields that are stored before the modes are checked.
  abbrev pub with_modes : BusConfig D → (feature : ℕ) → (fd : Bool) → Impl → Impl
  with_modes c feature fd impl = record impl {
    is_fd = fd;
    listen_only = c.listen_only;
    hw_timestamp = c.hw_timestamp && has_feature feature k_hw_timestamp;
    drop_echo = c.drop_echo;
  }

  -- The part of `configure` that checks the modes and starts the channel.
  unfoldable pub start_modes :
      UsbTransport → BusConfig D → (channel feature : ℕ) (fd : Bool) → Action Bus (Unit {0})
  start_modes t c channel feature fd = do
    throw_if (c.listen_only && not (has_feature feature k_listen_only))
        (bus_error Message.no_listen_only)
    throw_if (c.loopback && not (has_feature feature k_loopback)) (bus_error Message.no_loopback)
    throw_if (c.one_shot && not (has_feature feature k_one_shot)) (bus_error Message.no_one_shot)
    control_out usb t k_breq_mode channel 0
        (mode_bytes (
          mode_flags c.listen_only c.loopback c.one_shot fd
            (c.hw_timestamp && has_feature feature k_hw_timestamp)))
        8
    update (λ impl. record impl { started = true })

  -- The part of `configure` that follows the computing of the nominal timing.
  unfoldable pub apply_timing :
      UsbTransport
      → BusConfig D
      → (channel feature : ℕ) (fd : Bool) → BitTiming
      → Action Bus (Unit {0})
  apply_timing t c channel feature fd timing = do
    update (λ impl. record impl { nominal_timing = timing })
    control_out usb t k_breq_bittiming channel 0 (to_bytes timing) 20
    configure_data_if fd t c
    update (with_modes c feature fd)
    start_modes t c channel feature fd

  unfoldable pub configure_open : UsbTransport → BusConfig D → Action Bus (Unit {0})
  configure_open t c b =
      let feature = b.impl.feature in
      (do
        throw_if (c.fd && not (has_feature feature k_fd)) (bus_error Message.no_can_fd)
        timing ←
            from_result
              (calculate_bit_timing F c.bitrate c.sample_point b.impl.fclk_can b.impl.nominal_const)
        apply_timing t c b.impl.channel feature (c.fd && has_feature feature k_fd) timing)
        b

  -- CanFdBus::configure
  unfoldable pub configure : BusConfig D → Action Bus (Unit {0})
  configure c b = elim b.impl.transport [
    | none ↦ (err (argument_error Message.open_before_configure), b)
    | some t ↦
        if transport_is_open t
        then configure_open t c b
        else (err (argument_error Message.open_before_configure), b)
  ]

module _ (usb : Libusb) where
  -- The reset request of a started, open bus; a failure is ignored.
  unfoldable pub reset_mode : UsbTransport → Action Bus (Unit {0})
  reset_mode t b =
      if b.impl.started && transport_is_open t
      then (do
        catch (control_out usb t k_breq_mode b.impl.channel 0 reset_bytes 8) (0, [])
        update (λ impl. record impl { started = false }))
          b
      else (ok tt, b)

  -- CanFdBus::close
  unfoldable pub close_bus : Bus → Bus
  close_bus b = elim b.impl.transport [
    | none ↦ b
    | some t ↦
        let b' = (reset_mode t b).1 in
        record { impl = record b'.impl { transport = none }; log = (close_transport t b'.log).1 }
  ]
