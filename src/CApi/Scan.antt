-- ===== src/CApi/Scan.antt =====
-- canfd_scan and copyString of src/c_api.cpp.
pub mod Copied
use gsusb_canfd.Prelude.{
  ℕ, zero, suc, ◌-◌, ◌==◌, min, Bool, true, false, Option, none, some, List, [], ◌∷◌, ◌++◌, length,
  take, replicate, if◌then◌else◌,
}
use gsusb_canfd.Prelude.Int.{ℤ, pos, negsuc}
use gsusb_canfd.Errors.{CanFdError, Result, ok, err}
use gsusb_canfd.Text.{Bytes}
use gsusb_canfd.Usb.{Libusb, Log}
use gsusb_canfd.Usb.Discovery.{AdapterInfo, scan_adapters}
use gsusb_canfd.Device.Names.{name, display_name, unique_name}
use gsusb_canfd.CApi.{LastError, set_exception, invalid, k_error}

-- What c_str() shows of a text: the bytes in front of the first 0.
unfoldable pub until_nul : Bytes → Bytes
until_nul [] = []
until_nul (c ∷ cs) = if c == 0 then [] else c ∷ until_nul cs

-- copyString into a zeroed array of `size` bytes: the array as it is then.
unfoldable pub copy_string : (size : ℕ) → Bytes → Bytes
unfolding until_nul
copy_string size text =
    let kept = take (size - 1) (until_nul text) in kept ++ replicate (size - length kept) 0

pub record CanFdAdapterInfo : Type 0 where
  pub vendor_id : ℕ
  pub product_id : ℕ
  pub bus : ℕ
  pub address : ℕ
  pub name : Bytes
  pub display_name : Bytes
  pub unique_name : Bytes
  pub manufacturer : Bytes
  pub product : Bytes
  pub serial : Bytes

unfoldable pub copy_info : AdapterInfo → CanFdAdapterInfo
copy_info a = record {
  vendor_id = a.vendor_id;
  product_id = a.product_id;
  bus = a.bus;
  address = a.address;
  name = copy_string 160 (name a);
  display_name = copy_string 192 (display_name a);
  unique_name = copy_string 288 (unique_name a);
  manufacturer = copy_string 64 a.manufacturer;
  product = copy_string 64 a.product;
  serial = copy_string 64 a.serial;
}

-- The loop over the adapters that there is room for.
unfoldable pub copy_infos : (room : ℕ) → List AdapterInfo → List CanFdAdapterInfo
copy_infos zero found = []
copy_infos (suc room) [] = []
copy_infos (suc room) (a ∷ found) = copy_info a ∷ copy_infos room found

-- What a scan returns, writes to the array and leaves.
pub record Scanned : Type 0 where
  pub status : ℤ
  pub written : List CanFdAdapterInfo
  pub last_error : LastError
  pub log : Log

abbrev pub scanned : (room : ℕ) → LastError → Result (List AdapterInfo) × Log → Scanned
scanned room last (ok found, log) = record {
  status = pos (min room (length found));
  written = copy_infos (min room (length found)) found;
  last_error = last;
  log = log;
}
scanned room last (err e, log) = record {
  status = k_error;
  written = [];
  last_error = set_exception e;
  log = log;
}

abbrev pub refused_scan : Log → Scanned
refused_scan log = record { status = k_error; written = []; last_error = invalid; log = log }

unfoldable pub canfd_scan : Libusb → (has_out : Bool) (max : ℤ) → LastError → Log → Scanned
canfd_scan usb false max last log = refused_scan log
canfd_scan usb true (negsuc n) last log = refused_scan log
canfd_scan usb true (pos room) last log = scanned room last (scan_adapters usb 0 0 log)
