-- ===== src/CApi.antt =====
-- src/c_api.cpp: the frames, the configuration, the error codes and the handle of the C interface.
-- The flags of a C struct are numbers.
pub mod Frames
pub mod Calls
pub mod Scan
pub mod Reported
pub mod Handles
pub mod Tidy
use gsusb_canfd.Prelude.{
  ℕ, min, Bool, true, false, not, Option, none, some, List, replicate, ◌==◌, if◌then◌else◌,
}
use gsusb_canfd.Prelude.Int.{ℤ, pos, negsuc}
use gsusb_canfd.Prelude.Store.{copy_loop}
use gsusb_canfd.Errors.{
  ErrorCode, k_none, k_not_found, k_timeout, k_bus, k_argument, CanFdError, Message, Result, ok,
  err,
}
use gsusb_canfd.Floats.{Double}
use gsusb_canfd.Frame.{CanFrame}
use gsusb_canfd.Usb.{Log}
use gsusb_canfd.Device.State.{BusConfig}
use gsusb_canfd.Device.Worker.{Shared}

pub record CanFdFrame (D : Type 0) : Type 0 where
  pub id : ℕ
  pub size : ℕ
  pub channel : ℕ
  pub extended : ℕ
  pub fd : ℕ
  pub brs : ℕ
  pub remote : ℕ
  pub error : ℕ
  pub echo : ℕ
  pub overflow : ℕ
  pub timestamp : D
  pub bytes : List ℕ

pub record CanFdBusConfig (D : Type 0) : Type 0 where
  pub bitrate : ℕ
  pub sample_point : D
  pub data_bitrate : ℕ
  pub data_sample_point : D
  pub fd : ℤ
  pub listen_only : ℤ
  pub loopback : ℤ
  pub one_shot : ℤ
  pub hw_timestamp : ℤ
  pub drop_echo : ℤ

-- g_last_error and g_last_error_code
pub record LastError : Type 0 where
  pub message : Option Message
  pub code : ℕ

-- CanFdHandle, with the callback and its `user` pointer as numbers.
pub record CanFdHandle (D : Type 0) : Type 0 where
  pub shared : Shared D
  pub callback : Option (ℕ × ℕ)

-- The handle that the caller passes, the thread's last error, and the handles that were made and
-- that no one has a pointer to any more. `log` is what libusb has been asked while there is no
-- handle.
pub record Api (D : Type 0) : Type 0 where
  pub handle : Option (CanFdHandle D)
  pub last_error : LastError
  pub leaked : List (CanFdHandle D)
  pub log : Log

-- CANFD_ERRC_*
abbrev pub k_errc_not_found : ℕ
k_errc_not_found = 1

abbrev pub k_errc_timeout : ℕ
k_errc_timeout = 2

abbrev pub k_errc_bus : ℕ
k_errc_bus = 3

abbrev pub k_errc_argument : ℕ
k_errc_argument = 4

-- The number of an error class.
abbrev pub error_number : ErrorCode → ℕ
error_number k_not_found = k_errc_not_found
error_number k_timeout = k_errc_timeout
error_number k_argument = k_errc_argument
error_number k_bus = k_errc_bus
error_number k_none = k_errc_bus

-- setError
abbrev pub set_error : Message → (code : ℕ) → LastError
set_error message code = record { message = some message; code = code }

-- setException
abbrev pub set_exception : CanFdError → LastError
set_exception e = set_error e.what (error_number e.code)

abbrev pub invalid : LastError
invalid = set_error Message.invalid_argument k_errc_argument

abbrev pub k_error : ℤ
k_error = negsuc 0

abbrev pub is_set : ℕ → Bool
is_set n = not (n == 0)

abbrev pub is_set_ℤ : ℤ → Bool
is_set_ℤ (pos n) = not (n == 0)
is_set_ℤ (negsuc n) = true

abbrev pub flag : Bool → ℕ
flag on = if on then 1 else 0

module _ {D : Type 0} (F : Double D) where
  -- toBusFrame
  unfoldable pub to_bus_frame : CanFdFrame D → CanFrame D
  to_bus_frame c = record {
    id = c.id;
    bytes = copy_loop (min c.size 64) 0 c.bytes 0 (replicate 64 0) 0;
    size = min c.size 64;
    extended = is_set c.extended;
    fd = is_set c.fd;
    brs = is_set c.brs;
    remote = is_set c.remote;
    error = is_set c.error;
    echo = false;
    overflow = false;
    channel = c.channel;
    timestamp = F.literal 0 0;
  }

  -- toCFrame
  unfoldable pub to_c_frame : CanFrame D → CanFdFrame D
  to_c_frame f = record {
    id = f.id;
    size = f.size;
    channel = f.channel;
    extended = flag f.extended;
    fd = flag f.fd;
    brs = flag f.brs;
    remote = flag f.remote;
    error = flag f.error;
    echo = flag f.echo;
    overflow = flag f.overflow;
    timestamp = f.timestamp;
    bytes = copy_loop f.size 0 f.bytes 0 (replicate 64 0) 0;
  }

  -- The config that canfd_configure builds.
  abbrev pub to_bus_config : CanFdBusConfig D → BusConfig D
  to_bus_config c = record {
    bitrate = c.bitrate;
    sample_point = c.sample_point;
    data_bitrate = c.data_bitrate;
    data_sample_point = c.data_sample_point;
    fd = is_set_ℤ c.fd;
    listen_only = is_set_ℤ c.listen_only;
    loopback = is_set_ℤ c.loopback;
    one_shot = is_set_ℤ c.one_shot;
    hw_timestamp = is_set_ℤ c.hw_timestamp;
    drop_echo = is_set_ℤ c.drop_echo;
  }
