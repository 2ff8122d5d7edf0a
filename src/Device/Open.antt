-- ===== src/Device/Open.antt =====
-- Opening the bus: the host format, the capabilities, and the device information.
use gsusb_canfd.Prelude.{
  ℕ, ◌+◌, ◌-◌, ◌%◌, ◌^◌, true, false, not, none, some, List, [], ◌∷◌, leb, ltb, replicate,
  if◌then◌else◌,
}
use gsusb_canfd.Prelude.Int.{ℤ, pos, negsuc}
use gsusb_canfd.Prelude.Store.{byte_at}
use gsusb_canfd.Wire.{get_u32_le}
use gsusb_canfd.Errors.{Result, ok, err, bus_error, Message}
use gsusb_canfd.Effects.{Action, ◌>>=◌, ◌>>◌, throw_if, catch}
use gsusb_canfd.Timing.{BitTimingConst}
use gsusb_canfd.Usb.{Libusb}
use gsusb_canfd.Usb.Text.{is_empty}
use gsusb_canfd.Usb.Discovery.{AdapterInfo, DeviceSelector}
use gsusb_canfd.Usb.Transport.{
  UsbTransport, new_transport, open_transport, control_request, control_with,
}
use gsusb_canfd.Device.State.{
  Impl, Bus, lift, update, is_open, k_ctrl_in, k_ctrl_out, k_breq_bt_const, k_breq_bt_const_ext,
  k_breq_device_config, k_breq_host_format,
}

-- parseConst, at an offset of the buffer.
unfoldable pub parse_const : List ℕ → ℕ → BitTimingConst
parse_const buffer offset = record {
  tseg1_min = get_u32_le buffer offset;
  tseg1_max = get_u32_le buffer (offset + 4);
  tseg2_min = get_u32_le buffer (offset + 8);
  tseg2_max = get_u32_le buffer (offset + 12);
  sjw_max = get_u32_le buffer (offset + 16);
  brp_min = get_u32_le buffer (offset + 20);
  brp_max = get_u32_le buffer (offset + 24);
  brp_inc = get_u32_le buffer (offset + 28);
}

-- The fields that the extended and the legacy answer set.
abbrev pub with_extended : List ℕ → Impl → Impl
with_extended buffer impl = record impl {
  feature = get_u32_le buffer 0;
  fclk_can = get_u32_le buffer 4;
  nominal_const = parse_const buffer 8;
  data_const = parse_const buffer 40;
  has_data_const = true;
}

abbrev pub with_legacy : List ℕ → Impl → Impl
with_legacy legacy impl = record impl {
  feature = get_u32_le legacy 0;
  fclk_can = get_u32_le legacy 4;
  nominal_const = parse_const legacy 8;
  data_const = parse_const legacy 8;
  has_data_const = false;
}

abbrev pub with_device_info : List ℕ → Impl → Impl
with_device_info buffer impl = record impl {
  device_info = record {
    icount = byte_at buffer 3;
    sw_version = get_u32_le buffer 4;
    hw_version = get_u32_le buffer 8;
    channel_count = byte_at buffer 3 + 1;
  };
  has_device_info = true;
}

abbrev pub k_magic : List ℕ
k_magic = 0xEF ∷ 0xBE ∷ 0x00 ∷ 0x00 ∷ []

-- Impl::readDeviceInfo. An answer that is too short changes nothing.
abbrev pub store_device_info : Result (ℕ × List ℕ) → Impl → Impl
store_device_info (err e) impl = record impl { has_device_info = false }
store_device_info (ok (received, buffer)) impl =
    if leb 12 received then with_device_info buffer impl else impl

-- The interface number as the `uint16_t` wIndex.
abbrev pub w_index : ℤ → ℕ
w_index (pos n) = n % 2 ^ 16
w_index (negsuc n) = 2 ^ 16 - 1 - n % 2 ^ 16

-- The selector that CanFdBus::open(const AdapterInfo&) builds.
unfoldable pub selector_for : AdapterInfo → DeviceSelector → DeviceSelector
selector_for info selector =
    if not (is_empty info.serial)
    then record {
      vid = info.vendor_id;
      pid = info.product_id;
      index = pos 0;
      channel = selector.channel;
      serial = some info.serial;
      product = none;
      bus = none;
      address = none;
    }
    else record {
      vid = info.vendor_id;
      pid = info.product_id;
      index = pos 0;
      channel = selector.channel;
      serial = none;
      product = none;
      bus = some info.bus;
      address = some info.address;
    }

module _ (usb : Libusb) where
  -- UsbTransport::controlIn and controlOut, called on the bus object's transport.
  abbrev pub control_in :
      UsbTransport → (request value index : ℕ) → List ℕ → ℕ → Action Bus (ℕ × List ℕ)
  control_in t request value index bytes size =
      lift (control_with usb t.handle (control_request k_ctrl_in request value index bytes size))

  abbrev pub control_out :
      UsbTransport → (request value index : ℕ) → List ℕ → ℕ → Action Bus (ℕ × List ℕ)
  control_out t request value index bytes size =
      lift (control_with usb t.handle (control_request k_ctrl_out request value index bytes size))

  -- Impl::readCapabilities, from the legacy request on.
  unfoldable pub read_legacy : UsbTransport → (channel : ℕ) → Action Bus (Unit {0})
  read_legacy t channel = do
    legacy ← control_in t k_breq_bt_const channel 0 (replicate 40 0) 40
    throw_if (ltb legacy.0 40) (bus_error Message.no_timing_constants)
    update (with_legacy legacy.1)

  unfoldable pub read_capabilities : UsbTransport → (channel : ℕ) → Action Bus (Unit {0})
  read_capabilities t channel = do
    received ← catch (control_in t k_breq_bt_const_ext channel 0 (replicate 72 0) 72) (0, [])
    if leb 72 received.0 then update (with_extended received.1) else read_legacy t channel

  unfoldable pub read_device_info : UsbTransport → Action Bus (Unit {0})
  read_device_info t b =
      let (r, b) = control_in t k_breq_device_config 1 0 (replicate 12 0) 12 b in
      update (store_device_info r) b

  -- CanFdBus::open() behind the opening of the transport.
  unfoldable pub handshake : UsbTransport → Action Bus (Unit {0})
  handshake t b =
      (do
        catch (control_out t k_breq_host_format 1 (w_index t.interface_number) k_magic 4) (0, [])
        read_capabilities t b.impl.channel
        read_device_info t)
        b

  abbrev pub after_transport : Result (Unit {0}) → UsbTransport → Action Bus (Unit {0})
  after_transport (err e) t b = (err e, b)
  after_transport (ok _) t b = handshake t b

  -- CanFdBus::open(). A transport that is there but not open holds no handle, so replacing it
  -- closes nothing.
  unfoldable pub open_bus : Action Bus (Unit {0})
  open_bus b =
      if is_open b.impl
      then (ok tt, b)
      else let (r, port) =
          open_transport usb (record { transport = new_transport b.impl.selector; log = b.log }) in
        after_transport r port.transport
          (record { impl = record b.impl { transport = some port.transport }; log = port.log })

  unfoldable pub open_adapter : AdapterInfo → Action Bus (Unit {0})
  open_adapter info b = open_bus (record {
    impl = record b.impl { selector = selector_for info b.impl.selector };
    log = b.log;
  })
