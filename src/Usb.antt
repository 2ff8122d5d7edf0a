-- ===== src/Usb.antt =====
-- libusb as the transport sees it. libusb itself is not modelled: its answers are a parameter, a
-- function of everything that was asked before, so that an adapter may behave in any way.
pub mod Text
pub mod Interface
pub mod Discovery
pub mod Transport
use gsusb_canfd.Prelude.{ℕ, Bool, true, false, Option, List}
use gsusb_canfd.Prelude.Int.{ℤ}

-- libusb_endpoint_descriptor
pub record Endpoint : Type 0 where
  pub attributes : ℕ
  pub address : ℕ

-- libusb_interface_descriptor
pub record AltSetting : Type 0 where
  pub interface_class : ℕ
  pub interface_number : ℕ
  pub endpoints : List Endpoint

-- libusb_config_descriptor: the alternate settings of each interface.
abbrev pub ConfigDescriptor : Type 0
ConfigDescriptor = List (List AltSetting)

-- libusb_device_descriptor
pub record DeviceDescriptor : Type 0 where
  pub vendor : ℕ
  pub product : ℕ
  pub manufacturer_index : ℕ
  pub product_index : ℕ
  pub serial_index : ℕ

-- libusb_device. `descriptor` is `none` where libusb_get_device_descriptor fails.
pub record UsbDevice : Type 0 where
  pub key : ℕ
  pub bus : ℕ
  pub address : ℕ
  pub descriptor : Option DeviceDescriptor

pub record ControlRequest : Type 0 where
  pub request_type : ℕ
  pub request : ℕ
  pub value : ℕ
  pub index : ℕ
  pub bytes : List ℕ
  pub size : ℕ

pub record BulkRequest : Type 0 where
  pub endpoint : ℕ
  pub bytes : List ℕ
  pub size : ℕ
  pub timeout_ms : ℕ

-- What has been asked of libusb. A `listed` entry is a libusb_get_device_list with the devices of
-- the list, none where it failed, and an `opened` entry a libusb_open that succeeded.
-- `list_freed` is libusb_free_device_list(list, 0), which leaves the devices' references alone.
pub data Call : Type 0 where
  listed : (keys : List ℕ) → Call
  list_freed : Call
  referenced unreferenced : (key : ℕ) → Call
  opened refused closed : (key : ℕ) → Call
  read_string : (key index : ℕ) → Call
  read_config : (key : ℕ) → Call
  set_configuration : (key number : ℕ) → Call
  detached : (key : ℕ) → Call
  claimed released : (key : ℕ) (number : ℤ) → Call
  -- `none` is a null handle.
  control : (handle : Option ℕ) → ControlRequest → Call
  bulk : (handle : Option ℕ) → BulkRequest → Call

-- Newest first.
abbrev pub Log : Type 0
Log = List Call

pub record Libusb : Type 0 where
  -- Whether libusb_init succeeded.
  pub has_context : Bool
  -- `none` for a negative count.
  pub device_list : Log → Option (List UsbDevice)
  pub open_rc : Log → (key : ℕ) → ℤ
  -- The return code of libusb_get_string_descriptor_ascii and the buffer.
  pub string_ascii : Log → (key index : ℕ) → ℤ × List ℕ
  -- `none` where libusb_get_active_config_descriptor returns an error.
  pub active_config : Log → (key : ℕ) → Option ConfigDescriptor
  pub set_configuration_rc : Log → (key number : ℕ) → ℤ
  pub claim_rc : Log → (key : ℕ) (number : ℤ) → ℤ
  -- The return code and the buffer after the transfer.
  pub control_transfer : Log → (handle : Option ℕ) → ControlRequest → ℤ × List ℕ
  -- The return code, the bytes transferred, and the buffer after the transfer.
  pub bulk_transfer : Log → (handle : Option ℕ) → BulkRequest → ℤ × ℕ × List ℕ
  pub error_timeout : ℤ
  pub transfer_type_mask : ℕ
  pub transfer_type_bulk : ℕ
  pub endpoint_dir_mask : ℕ
  pub endpoint_in : ℕ
