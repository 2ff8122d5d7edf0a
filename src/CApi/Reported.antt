-- ===== src/CApi/Reported.antt =====
-- Which calls of the C interface set the last error.
use gsusb_canfd.Prelude.{
  ℕ, ◌≤◌, ◌≡◌, ◌≢◌, refl, Bool, true, false, Option, none, some, List, arith, Option-cases, ◌⊎◌,
  inl, inr,
}
use gsusb_canfd.Prelude.Int.{ℤ, pos, negsuc}
use gsusb_canfd.Errors.{
  ErrorCode, k_none, k_not_found, k_timeout, k_bus, k_argument, Message, Result, ok, err,
}
use gsusb_canfd.Floats.{Double}
use gsusb_canfd.Usb.{Libusb, Log}
use gsusb_canfd.Usb.Discovery.{AdapterInfo, scan_adapters}
use gsusb_canfd.Device.State.{Bus}
use gsusb_canfd.CApi.Scan.{Scanned, scanned, canfd_scan}
use gsusb_canfd.Device.Configure.{configure}
use gsusb_canfd.Device.Traffic.{Clock, Received, received, timed_out, out_of_fuel, send, receive}
use gsusb_canfd.Device.Worker.{Shared, start}
use gsusb_canfd.CApi.{
  CanFdFrame, CanFdBusConfig, CanFdHandle, Api, LastError, error_number, k_error, is_set_ℤ,
  to_bus_frame, to_bus_config,
}
use gsusb_canfd.CApi.Calls.{
  on_shared, guarded, refuse, report, canfd_configure, canfd_send, canfd_send_echo, answer_of,
  canfd_receive, canfd_start, canfd_endpoints,
}

-- The calls that return CANFD_ERROR where they fail.
pub data Call (D : Type 0) : Type 0 where
  configures : Option (CanFdBusConfig D) → Call D
  sends : Option (CanFdFrame D) → Call D
  sends_echo : Option (CanFdFrame D) → (echo : ℤ) → Call D
  receives : (has_frame : Bool) (timeout_ms : ℤ) → Call D
  starts : (callback : Option ℕ) (user : ℕ) → Call D
  asks_endpoints : (has_in has_out : Bool) → Call D
  scans : (has_out : Bool) (max : ℤ) → Call D

-- A scan, which needs no handle: the log that it goes on is the newest, and the last error is that of
-- the C interface.
abbrev pub log_of : {D : Type 0} → Api D → Log
log_of api = elim api.handle [ none ↦ api.log | some h ↦ h.shared.bus.log ]

abbrev pub scanned_handle : {D : Type 0} → Log → CanFdHandle D → CanFdHandle D
scanned_handle log h =
    let bus : Bus = record { impl = h.shared.bus.impl; log = log } in
    record h { shared = record h.shared { bus = bus } }

abbrev pub after_scan : {D : Type 0} → Scanned → Api D → Option ℤ × Api D
after_scan s api = (
  some s.status,
  record api {
    handle = elim api.handle [ none ↦ none | some h ↦ some (scanned_handle s.log h) ];
    last_error = s.last_error;
    log = s.log;
  },
)

-- A message, and one of the four codes of an error.
abbrev pub IsError : LastError → Type 0
IsError last = ((m : Message) × (last.message ≡ some m)) × (1 ≤ last.code) × (last.code ≤ 4)

error_number-range : (c : ErrorCode) → (1 ≤ error_number c) × (error_number c ≤ 4)
error_number-range k_none = (omega arith, omega arith)
error_number-range k_not_found = (omega arith, omega arith)
error_number-range k_timeout = (omega arith, omega arith)
error_number-range k_bus = (omega arith, omega arith)
error_number-range k_argument = (omega arith, omega arith)

module _ {D : Type 0} where
  -- Either CANFD_ERROR and an error that can be asked for, or another value and the last error as
  -- it was.
  abbrev pub IsReported : Api D → Option ℤ × Api D → Type 0
  IsReported before (code, after) =
      ((code ≡ some k_error) × IsError after.last_error)
      ⊎ ((code ≢ some k_error) × (after.last_error ≡ before.last_error))

  refuse-IsReported : (api : Api D) → IsReported api (some (refuse api).0, (refuse api).1)
  refuse-IsReported api = inl (refl, ((Message.invalid_argument, refl), omega arith, omega arith))

  report-IsReported :
      (h : CanFdHandle D) (r : Result (Unit {0}) × Shared D) (api : Api D)
      → IsReported api (some (report (guarded h r api)).0, (report (guarded h r api)).1)
  report-IsReported h (ok done, s) api = inr (λ e. cc, refl)
  report-IsReported h (err e, s) api =
      inl (refl, ((e.what, refl), (error_number-range e.code).0, (error_number-range e.code).1))

module _ {D : Type 0} (F : Double D) (usb : Libusb) (clock : Clock D) (fuel : ℕ) where
  -- What a call returns, `none` if it does not return, and leaves.
  abbrev pub run_call : Call D → Api D → Option ℤ × Api D
  run_call (configures c) api = let (code, api) = canfd_configure F usb c api in (some code, api)
  run_call (sends frame) api = let (code, api) = canfd_send F usb frame api in (some code, api)
  run_call (sends_echo frame echo) api =
      let (code, api) = canfd_send_echo F usb frame echo api in (some code, api)
  run_call (receives has_frame timeout_ms) api =
      let answer = canfd_receive F usb clock fuel has_frame timeout_ms api in
      (answer.status, answer.api)
  run_call (starts callback user) api =
      let (code, api) = canfd_start F usb clock fuel callback user api in (some code, api)
  run_call (asks_endpoints has_in has_out) api =
      let (out, api) = canfd_endpoints has_in has_out api in (some out.0, api)
  run_call (scans has_out max) api =
      after_scan (canfd_scan usb has_out max api.last_error (log_of api)) api

  answer-IsReported :
      (h : CanFdHandle D) (r : Result (Received D) × Shared D) (api : Api D)
      → let answer = answer_of F usb clock fuel (guarded h r api) in
        IsReported api (answer.status, answer.api)
  answer-IsReported h (ok (received f), s) api = inr (λ e. cc, refl)
  answer-IsReported h (ok timed_out, s) api = inr (λ e. cc, refl)
  answer-IsReported h (ok out_of_fuel, s) api = inr (λ e. cc, refl)
  answer-IsReported h (err e, s) api =
      inl (refl, ((e.what, refl), (error_number-range e.code).0, (error_number-range e.code).1))

  send-IsReported :
      (frame : Option (CanFdFrame D)) (echo : ℤ) (api : Api D)
      → IsReported api (run_call (sends_echo frame echo) api)
  unfolding canfd_send_echo
  send-IsReported none echo api = refuse-IsReported api
  send-IsReported (some frame) echo api = elim (Option-cases api.handle) [
    | inl e ↦ rw (e, run_call, canfd_send_echo) (refuse-IsReported api)
    | inr (h, e) ↦
        rw (e, run_call, canfd_send_echo)
          (report-IsReported h
            (on_shared (send usb (to_bus_frame F frame) (is_set_ℤ echo)) h.shared) api)
  ]

  after_scan-IsReported :
      (room : ℕ) (api : Api D) (r : Result (List AdapterInfo) × Log)
      → IsReported api (after_scan (scanned room api.last_error r) api)
  after_scan-IsReported room api (ok found, log) = inr (λ e. cc, refl)
  after_scan-IsReported room api (err e, log) =
      inl (refl, ((e.what, refl), (error_number-range e.code).0, (error_number-range e.code).1))

  -- Each of canfd_configure, canfd_send, canfd_send_echo, canfd_receive, canfd_start,
  -- canfd_endpoints and canfd_scan, null pointers included, either returns CANFD_ERROR and leaves an
  -- error message with a code from 1 to 4, or returns something else, or nothing, and leaves the last
  -- error alone.
  pub run_call-IsReported : (call : Call D) (api : Api D) → IsReported api (run_call call api)
  unfolding canfd_configure canfd_send canfd_receive canfd_start canfd_endpoints canfd_scan
  run_call-IsReported (configures none) api = refuse-IsReported api
  run_call-IsReported (configures (some c)) api = elim (Option-cases api.handle) [
    | inl e ↦ rw (e, run_call, canfd_configure) (refuse-IsReported api)
    | inr (h, e) ↦
        rw (e, run_call, canfd_configure)
          (report-IsReported h (on_shared (configure F usb (to_bus_config F c)) h.shared) api)
  ]
  run_call-IsReported (sends frame) api = send-IsReported frame (pos 0) api
  run_call-IsReported (sends_echo frame echo) api = send-IsReported frame echo api
  run_call-IsReported (receives false timeout_ms) api = refuse-IsReported api
  run_call-IsReported (receives true timeout_ms) api = elim (Option-cases api.handle) [
    | inl e ↦ rw (e, run_call, canfd_receive) (refuse-IsReported api)
    | inr (h, e) ↦
        rw (e, run_call, canfd_receive)
          (answer-IsReported h (on_shared (receive F usb clock timeout_ms fuel) h.shared) api)
  ]
  run_call-IsReported (starts none user) api = refuse-IsReported api
  run_call-IsReported (starts (some callback) user) api = elim (Option-cases api.handle) [
    | inl e ↦ rw (e, run_call, canfd_start) (refuse-IsReported api)
    | inr (h, e) ↦
        rw (e, run_call, canfd_start)
          (report-IsReported (record h { callback = some (callback, user) }) (start h.shared) api)
  ]
  run_call-IsReported (asks_endpoints has_in has_out) api = elim (Option-cases api.handle) [
    | inl e ↦ rw (e, run_call, canfd_endpoints) (refuse-IsReported api)
    | inr (h, e) ↦ rw (e, run_call, canfd_endpoints) (inr (λ e. cc, refl))
  ]
  run_call-IsReported (scans false max) api =
      inl (refl, ((Message.invalid_argument, refl), omega arith, omega arith))
  run_call-IsReported (scans true (negsuc n)) api =
      inl (refl, ((Message.invalid_argument, refl), omega arith, omega arith))
  run_call-IsReported (scans true (pos room)) api =
      after_scan-IsReported room api (scan_adapters usb 0 0 (log_of api))
