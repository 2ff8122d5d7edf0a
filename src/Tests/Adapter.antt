-- ===== src/Tests/Adapter.antt =====
-- An adapter on the bus, the endpoint search on its configuration, and the search for it.
use gsusb_canfd.Prelude.{
  ℕ, ◌+◌, ◌≡◌, refl, ◌↔◌, true, false, none, some, List, [], ◌∷◌, arith, All, ◌==◌, if◌then◌else◌,
}
use gsusb_canfd.Prelude.Int.{pos, negsuc}
use gsusb_canfd.Errors.{ok}
use gsusb_canfd.Usb.{Endpoint, ConfigDescriptor, Libusb, Log, opened, UsbDevice}
use gsusb_canfd.Usb.Interface.{Endpoints, choose_endpoints, try_interfaces, has_vendor_interface}
use gsusb_canfd.Usb.Interface.Choice.{IsChoice, choose_endpoints-IsChoice}
use gsusb_canfd.Usb.Interface.Vendor.{has_vendor_interface_iff}
use gsusb_canfd.Usb.Discovery.{
  DeviceSelector, FoundDevice, find_devices, scan_adapters, inspect_all, inspect, accepts_ids,
  accepts, read_info, read_text,
}
use gsusb_canfd.Usb.Discovery.References.{
  taken, given_back, listings, entries, scan_adapters-Leaves,
}
use gsusb_canfd.Usb.Discovery.Found.{IsWanted, find_devices-IsWanted}
use gsusb_canfd.Usb.Discovery.Balance.{open_handles}
use gsusb_canfd.Usb.Transport.{Port, new_transport, open_transport}
use gsusb_canfd.Usb.Transport.Open.{IsBalanced, IsOutcome, open_transport-Ends}

abbrev bulk_in : Endpoint
bulk_in = record { attributes = 2; address = 0x81 }

abbrev bulk_out : Endpoint
bulk_out = record { attributes = 2; address = 0x02 }

-- A setting of another class with a pair of its own, then the vendor setting.
abbrev pub configuration : ConfigDescriptor
configuration =
    (record { interface_class = 0x0A; interface_number = 0; endpoints = bulk_out ∷ bulk_in ∷ [] }
      ∷ [])
    ∷ (record { interface_class = 0xFF; interface_number = 1; endpoints = bulk_in ∷ bulk_out ∷ [] }
        ∷ [])
    ∷ []

abbrev candle : UsbDevice
candle = record {
  key = 1;
  bus = 3;
  address = 9;
  descriptor = some (record {
    vendor = 0x1D50;
    product = 0x606F;
    manufacturer_index = 1;
    product_index = 2;
    serial_index = 3;
  });
}

-- What the adapter puts on the bulk IN endpoint: a received frame with two bytes.
abbrev pub wire_frame : List ℕ
wire_frame =
    255 ∷ 255 ∷ 255 ∷ 255 ∷ 0x23 ∷ 1 ∷ 0 ∷ 0 ∷ 2 ∷ 0 ∷ 0 ∷ 0 ∷ 0xAA ∷ 0xBB ∷ 0 ∷ 0 ∷ 0 ∷ 0 ∷ 0 ∷ 0
    ∷ []

-- A libusb with that adapter, in which every call succeeds.
abbrev pub usb : Libusb
usb = record {
  has_context = true;
  device_list = λ log. some (candle ∷ []);
  open_rc = λ log key. pos 0;
  string_ascii = λ log key index. (pos 1, 65 ∷ []);
  active_config = λ log key. some configuration;
  set_configuration_rc = λ log key number. pos 0;
  claim_rc = λ log key number. pos 0;
  control_transfer = λ log handle req. (pos req.size, req.bytes);
  bulk_transfer = λ log handle req.
      if req.endpoint == 0x81 then (pos 0, 20, wire_frame) else (pos 0, req.size, req.bytes);
  error_timeout = negsuc 6;
  transfer_type_mask = 3;
  transfer_type_bulk = 2;
  endpoint_dir_mask = 0x80;
  endpoint_in = 0x80;
}

abbrev pub selector : DeviceSelector
selector = record {
  vid = 0x1D50;
  pid = 0x606F;
  index = pos 0;
  channel = 0;
  serial = none;
  product = none;
  bus = some 3;
  address = none;
}

-- One handle of the adapter is open already.
abbrev pub busy : Log
busy = opened 1 ∷ []

abbrev found : List FoundDevice
found =
    record {
      key = 1;
      info = record {
        vendor_id = 0x1D50;
        product_id = 0x606F;
        bus = 3;
        address = 9;
        manufacturer = 65 ∷ [];
        product = 65 ∷ [];
        serial = 65 ∷ [];
      };
    }
    ∷ []

found-eq : (find_devices usb selector false busy).0 ≡ ok found
unfolding find_devices inspect_all inspect accepts_ids accepts read_info read_text
found-eq = refl

choose_endpoints-IsChoice_example : IsChoice usb configuration (choose_endpoints usb configuration)
choose_endpoints-IsChoice_example = choose_endpoints-IsChoice usb configuration

has_vendor_interface_iff_example : (has_vendor_interface usb configuration ≡ true) ↔ (
    (e : Endpoints) × (try_interfaces usb true configuration ≡ some e)
    × (choose_endpoints usb configuration ≡ some e))
has_vendor_interface_iff_example = has_vendor_interface_iff usb configuration

find_devices-IsWanted_example : All (λ f. IsWanted selector f.info) found
find_devices-IsWanted_example = find_devices-IsWanted usb selector false busy found found-eq

abbrev closed_port : Port
closed_port = record { transport = new_transport selector; log = busy }

closed_port-IsBalanced : IsBalanced (λ key. open_handles key busy) closed_port
closed_port-IsBalanced key = omega arith

open_transport-Ends_example :
    let r = open_transport usb closed_port in
    IsOutcome r × IsBalanced (λ key. open_handles key busy) r.1
open_transport-Ends_example =
    open_transport-Ends usb (λ key. open_handles key busy) closed_port refl closed_port-IsBalanced

scan_adapters-Leaves_example :
    taken 1 (scan_adapters usb 0 0 busy).1 + given_back 1 busy
    ≡ listings 1 (entries usb (usb.device_list busy))
      + (taken 1 busy + given_back 1 (scan_adapters usb 0 0 busy).1)
scan_adapters-Leaves_example = scan_adapters-Leaves usb 1 0 0 busy refl
