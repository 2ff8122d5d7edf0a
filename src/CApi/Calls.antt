-- ===== src/CApi/Calls.antt =====
-- src/c_api.cpp: the calls on a handle. A null pointer is `none`.
use gsusb_canfd.Prelude.{ℕ, Bool, true, false, Option, none, some, ◌∷◌, u8, if◌then◌else◌}
use gsusb_canfd.Prelude.Int.{ℤ, pos, negsuc}
use gsusb_canfd.Errors.{Result, ok, err}
use gsusb_canfd.Effects.{Action}
use gsusb_canfd.Floats.{Double}
use gsusb_canfd.Usb.{Libusb}
use gsusb_canfd.Usb.Discovery.{DeviceSelector}
use gsusb_canfd.Device.State.{Impl, Bus, default_config, is_open, input_endpoint, output_endpoint}
use gsusb_canfd.Device.Getters
use gsusb_canfd.Device.Open.{open_bus}
use gsusb_canfd.Device.Configure.{configure, close_bus}
use gsusb_canfd.Device.Traffic.{Clock, Received, received, timed_out, out_of_fuel, send, receive}
use gsusb_canfd.Device.Lifecycle.Machine.{fresh}
use gsusb_canfd.Device.Worker.{Shared, idle, start, stop}
use gsusb_canfd.CApi.{
  CanFdFrame, CanFdBusConfig, CanFdHandle, Api, set_exception, invalid, k_error, is_set_ℤ, flag,
  to_bus_frame, to_c_frame, to_bus_config,
}

abbrev pub status : Option (Unit {0}) → ℤ
status (some _) = pos 0
status none = k_error

-- CanFdFrame that a receive call fills in, if it does.
pub record Answer (D : Type 0) : Type 0 where
  pub status : Option ℤ
  pub frame : Option (CanFdFrame D)
  pub api : Api D

abbrev pub as_int : Bool → ℤ
as_int b = if b then pos 1 else pos 0

module _ {D : Type 0} where
  -- A call of the bus that the handle has.
  abbrev pub on_shared : {A : Type 0} → Action Bus A → Action (Shared D) A
  on_shared m s = let (r, b) = m s.bus in (r, record s { bus = b })

  -- The state behind a call on a handle.
  abbrev pub with_shared : CanFdHandle D → Shared D → Api D → Api D
  with_shared h s api = record api { handle = some (record h { shared = s }) }

  -- try { ... } catch (const std::exception& exc), around a call of the bus.
  abbrev pub guarded : {A : Type 0} → CanFdHandle D → Result A × Shared D → Api D → Option A × Api D
  guarded h (ok a, s) api = (some a, with_shared h s api)
  guarded h (err e, s) api = (none, record (with_shared h s api) { last_error = set_exception e })

  -- setError("invalid argument", CANFD_ERRC_ARGUMENT); return CANFD_ERROR;
  abbrev pub refuse : Api D → ℤ × Api D
  refuse api = (k_error, record api { last_error = invalid })

  -- A call that returns CANFD_OK or CANFD_ERROR.
  abbrev pub report : Option (Unit {0}) × Api D → ℤ × Api D
  report (done, api) = (status done, api)

-- canfd_bus_config_default: what is stored through a pointer that is not null.
unfoldable pub canfd_bus_config_default : {D : Type 0} → Double D → CanFdBusConfig D
canfd_bus_config_default F =
    let defaults = default_config F in
    record {
      bitrate = defaults.bitrate;
      sample_point = defaults.sample_point;
      data_bitrate = defaults.data_bitrate;
      data_sample_point = defaults.data_sample_point;
      fd = pos (flag defaults.fd);
      listen_only = pos (flag defaults.listen_only);
      loopback = pos (flag defaults.loopback);
      one_shot = pos (flag defaults.one_shot);
      hw_timestamp = pos (flag defaults.hw_timestamp);
      drop_echo = pos (flag defaults.drop_echo);
    }

module _ {D : Type 0} (F : Double D) (usb : Libusb) where
  unfoldable pub canfd_configure : Option (CanFdBusConfig D) → Api D → ℤ × Api D
  canfd_configure none api = refuse api
  canfd_configure (some c) api = elim api.handle [
    | none ↦ refuse api
    | some h ↦ report (guarded h (on_shared (configure F usb (to_bus_config F c)) h.shared) api)
  ]

  unfoldable pub canfd_send_echo : Option (CanFdFrame D) → (echo : ℤ) → Api D → ℤ × Api D
  canfd_send_echo none echo api = refuse api
  canfd_send_echo (some frame) echo api = elim api.handle [
    | none ↦ refuse api
    | some h ↦
        report
          (guarded h (on_shared (send usb (to_bus_frame F frame) (is_set_ℤ echo)) h.shared) api)
  ]

  unfoldable pub canfd_send : Option (CanFdFrame D) → Api D → ℤ × Api D
  unfolding canfd_send_echo
  canfd_send frame api = canfd_send_echo frame (pos 0) api

  abbrev pub selector_for : (vid pid : ℕ) (index channel : ℤ) → DeviceSelector
  selector_for vid pid index channel = record {
    vid = vid;
    pid = pid;
    index = index;
    channel = elim channel [ pos n ↦ u8 n | negsuc n ↦ 0 ];
    serial = none;
    product = none;
    bus = none;
    address = none;
  }

  -- The handle is not deleted where the opening throws.
  abbrev pub opened_or_leaked : Result (Unit {0}) × Bus → Api D → Api D
  opened_or_leaked (ok _, b) api = record api {
    handle = some (record { shared = idle b; callback = none });
    log = b.log;
  }
  opened_or_leaked (err e, b) api = record api {
    handle = none;
    last_error = set_exception e;
    leaked = record { shared = idle b; callback = none } ∷ api.leaked;
    log = b.log;
  }

  -- The state has no handle before the call: a caller who has one keeps it elsewhere.
  unfoldable pub canfd_open_channel : (vid pid : ℕ) (index channel : ℤ) → Api D → Api D
  canfd_open_channel vid pid index channel api =
      opened_or_leaked (open_bus usb (fresh (selector_for vid pid index channel) api.log)) api

  unfoldable pub canfd_open_vid_pid : (vid pid : ℕ) (index : ℤ) → Api D → Api D
  unfolding canfd_open_channel
  canfd_open_vid_pid vid pid index api = canfd_open_channel vid pid index (pos 0) api

  unfoldable pub canfd_open : (index : ℤ) → Api D → Api D
  unfolding canfd_open_channel
  canfd_open index api = canfd_open_channel 0 0 index (pos 0) api

module _ {D : Type 0} (F : Double D) (usb : Libusb) (clock : Clock D) (fuel : ℕ) where
  -- What a receive call returns; `none` stands for a loop that goes on.
  abbrev pub answer_of : Option (Received D) × Api D → Answer D
  answer_of (none, api) = record { status = some k_error; frame = none; api = api }
  answer_of (some timed_out, api) = record { status = some (pos 0); frame = none; api = api }
  answer_of (some out_of_fuel, api) = record { status = none; frame = none; api = api }
  answer_of (some (received f), api) = record {
    status = some (pos 1);
    frame = some (to_c_frame F f);
    api = api;
  }

  abbrev pub refused : ℤ × Api D → Answer D
  refused (code, api) = record { status = some code; frame = none; api = api }

  unfoldable pub canfd_receive : (has_frame : Bool) (timeout_ms : ℤ) → Api D → Answer D
  canfd_receive false timeout_ms api = refused (refuse api)
  canfd_receive true timeout_ms api = elim api.handle [
    | none ↦ refused (refuse api)
    | some h ↦ answer_of (guarded h (on_shared (receive F usb clock timeout_ms fuel) h.shared) api)
  ]

  -- The callback is stored in the handle whether the thread is started or not.
  unfoldable pub canfd_start : (callback : Option ℕ) (user : ℕ) → Api D → ℤ × Api D
  canfd_start none user api = refuse api
  canfd_start (some callback) user api = elim api.handle [
    | none ↦ refuse api
    | some h ↦ report (guarded (record h { callback = some (callback, user) }) (start h.shared) api)
  ]

  unfoldable pub canfd_stop : Api D → Api D
  canfd_stop api = elim api.handle [
    | none ↦ api
    | some h ↦ with_shared h (stop F usb clock fuel h.shared) api
  ]

  -- stop, close and delete.
  unfoldable pub canfd_close : Api D → Api D
  canfd_close api = elim api.handle [
    | none ↦ api
    | some h ↦ record api {
      handle = none;
      log = (close_bus usb (stop F usb clock fuel h.shared).bus).log;
    }
  ]

module _ {D : Type 0} where
  -- The calls that read a field of the bus.
  abbrev pub reading : {A : Type 0} → A → (Impl → A) → Api D → A
  reading otherwise field api = elim api.handle [
    | none ↦ otherwise
    | some h ↦ field h.shared.bus.impl
  ]

  unfoldable pub canfd_is_open : Api D → ℤ
  canfd_is_open api = reading (pos 0) (λ impl. as_int (is_open impl)) api

  unfoldable pub canfd_is_started : Api D → ℤ
  canfd_is_started api = reading (pos 0) (λ impl. as_int (Getters.is_started impl)) api

  unfoldable pub canfd_is_fd : Api D → ℤ
  canfd_is_fd api = reading (pos 0) (λ impl. as_int (Getters.is_fd impl)) api

  unfoldable pub canfd_feature : Api D → ℕ
  canfd_feature api = reading 0 Getters.feature api

  unfoldable pub canfd_clock_frequency : Api D → ℕ
  canfd_clock_frequency api = reading 0 Getters.clock_frequency api

  unfoldable pub canfd_channel_count : Api D → ℕ
  canfd_channel_count api = reading 0 Getters.channel_count api

  unfoldable pub canfd_channel : Api D → ℤ
  canfd_channel api = reading (negsuc 0) (λ impl. pos (Getters.channel impl)) api

  -- canfd_endpoints: the status, and what is stored through each pointer that is not null.
  unfoldable pub canfd_endpoints :
      (has_in has_out : Bool) → Api D → (ℤ × Option ℤ × Option ℤ) × Api D
  canfd_endpoints has_in has_out api = elim api.handle [
    | none ↦ ((k_error, none, none), (refuse api).1)
    | some h ↦
        let impl = h.shared.bus.impl in
        (
          (
            pos 0,
            if has_in then some (input_endpoint impl) else none,
            if has_out then some (output_endpoint impl) else none,
          ),
          api,
        )
  ]
