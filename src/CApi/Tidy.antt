-- ===== src/CApi/Tidy.antt =====
-- The device handles that the C interface leaves open, over one call that may report an error.
use gsusb_canfd.Prelude.{
  ℕ, ◌+◌, ◌≡◌, refl, sym, subst, ap, ◌∙◌, true, false, Option, none, some, List, [], ◌∷◌, arith,
  Option-cases, inl, inr,
}
use gsusb_canfd.Prelude.Int.{ℤ, pos, negsuc}
use gsusb_canfd.Errors.{Result, ok, err}
use gsusb_canfd.Floats.{Double}
use gsusb_canfd.Usb.{Libusb, Log}
use gsusb_canfd.Usb.Discovery.Balance.{open_handles, scan_adapters-balance}
use gsusb_canfd.Device.State.{Bus}
use gsusb_canfd.Device.Configure.{configure}
use gsusb_canfd.Device.Traffic.{Clock, Received, received, timed_out, out_of_fuel, send, receive}
use gsusb_canfd.Device.Lifecycle.{IsSound, held}
use gsusb_canfd.Device.Lifecycle.Running.{configure-IsSound}
use gsusb_canfd.Device.Lifecycle.Transfers.{send-IsSound, receive-IsSound}
use gsusb_canfd.Device.Worker.{Shared, start}
use gsusb_canfd.Device.Worker.Handles.{start-bus}
use gsusb_canfd.CApi.{
  CanFdFrame, CanFdHandle, Api, LastError, is_set_ℤ, to_bus_frame, to_bus_config,
}
use gsusb_canfd.CApi.Calls.{
  on_shared, guarded, report, answer_of, opened_or_leaked, canfd_configure, canfd_send,
  canfd_send_echo, canfd_receive, canfd_start, canfd_endpoints,
}
use gsusb_canfd.CApi.Reported.{
  Call, configures, sends, sends_echo, receives, starts, asks_endpoints, scans, log_of,
  scanned_handle, run_call,
}
use gsusb_canfd.CApi.Scan.{scanned, canfd_scan}
use gsusb_canfd.Usb.Discovery.{AdapterInfo, scan_adapters}

-- How many handles of a device the objects hold that were never deleted.
unfoldable pub held_by : {D : Type 0} → (key : ℕ) → List (CanFdHandle D) → ℕ
held_by key [] = 0
held_by key (h ∷ rest) = held key h.shared.bus.impl + held_by key rest

module _ {D : Type 0} (base : ℕ → ℕ) where
  abbrev pub IsTidyHandle : Option (CanFdHandle D) → List (CanFdHandle D) → Log → Type 0
  IsTidyHandle none leaked log = (key : ℕ) → open_handles key log ≡ base key + held_by key leaked
  IsTidyHandle (some h) leaked log = IsSound (λ key. base key + held_by key leaked) h.shared.bus

  -- Every open device handle is one of `base`, the one that the caller's handle has, or one that an
  -- object holds that no one can close.
  abbrev pub IsTidy : Api D → Type 0
  IsTidy api = IsTidyHandle api.handle api.leaked api.log

  pub with_handle :
      (api : Api D) (h : CanFdHandle D)
      → api.handle ≡ some h
      → IsTidy api
      → IsSound (λ key. base key + held_by key api.leaked) h.shared.bus
  with_handle api h e tidy =
      subst (λ (o : Option (CanFdHandle D)). IsTidyHandle o api.leaked api.log) e tidy

  pub without_handle :
      (api : Api D)
      → api.handle ≡ none
      → IsTidy api
      → (key : ℕ) → open_handles key api.log ≡ base key + held_by key api.leaked
  without_handle api e tidy =
      subst (λ (o : Option (CanFdHandle D)). IsTidyHandle o api.leaked api.log) e tidy

  report-IsTidy :
      (h : CanFdHandle D) (r : Result (Unit {0}) × Shared D) (api : Api D)
      → IsSound (λ key. base key + held_by key api.leaked) r.1.bus
      → IsTidy (report (guarded h r api)).1
  report-IsTidy h (ok done, s) api sound = sound
  report-IsTidy h (err e, s) api sound = sound

  answer-IsTidy :
      (F : Double D) (usb : Libusb) (clock : Clock D) (fuel : ℕ) (h : CanFdHandle D)
      (r : Result (Received D) × Shared D) (api : Api D)
      → IsSound (λ key. base key + held_by key api.leaked) r.1.bus
      → IsTidy (answer_of F usb clock fuel (guarded h r api)).api
  answer-IsTidy F usb clock fuel h (ok (received f), s) api sound = sound
  answer-IsTidy F usb clock fuel h (ok timed_out, s) api sound = sound
  answer-IsTidy F usb clock fuel h (ok out_of_fuel, s) api sound = sound
  answer-IsTidy F usb clock fuel h (err e, s) api sound = sound

  pub opened-IsTidy :
      (F : Double D) (usb : Libusb) (r : Result (Unit {0}) × Bus) (api : Api D)
      → IsSound (λ key. base key + held_by key api.leaked) r.1
      → IsTidy (opened_or_leaked F usb r api)
  unfolding held_by
  opened-IsTidy F usb (ok done, b) api sound = sound
  opened-IsTidy F usb (err e, b) api sound = λ key. omega (arith, sound.0 key)

scanned-log :
    (room : ℕ) (last : LastError) (r : Result (List AdapterInfo) × Log)
    → (scanned room last r).log ≡ r.1
scanned-log room last (ok found, log) = refl
scanned-log room last (err e, log) = refl

-- A scan leaves the device handles that are open as they are.
scanned-IsTidy :
    {D : Type 0} (base : ℕ → ℕ) (o : Option (CanFdHandle D)) (leaked : List (CanFdHandle D))
    (last log : Log)
    → ((key : ℕ)
        → open_handles key log
          ≡ open_handles key (elim o [ none ↦ last | some h ↦ h.shared.bus.log ]))
    → IsTidyHandle base o leaked last
    → IsTidyHandle base (elim o [ none ↦ none | some h ↦ some (scanned_handle log h) ]) leaked log
scanned-IsTidy base none leaked last log same tidy = λ key. same key ∙ tidy key
scanned-IsTidy base (some h) leaked last log same tidy = (λ key. same key ∙ tidy.0 key, tidy.1)

module _ {D : Type 0} (F : Double D) (usb : Libusb) (clock : Clock D) (fuel : ℕ)
    (base : ℕ → ℕ) where
  send-IsTidy :
      (frame : Option (CanFdFrame D)) (echo : ℤ) (api : Api D)
      → IsTidy base api
      → IsTidy base (run_call F usb clock fuel (sends_echo frame echo) api).1
  unfolding canfd_send_echo
  send-IsTidy none echo api tidy = tidy
  send-IsTidy (some frame) echo api tidy = elim (Option-cases api.handle) [
    | inl e ↦ rw (e, run_call, canfd_send_echo) tidy
    | inr (h, e) ↦
        rw (e, run_call, canfd_send_echo)
          (report-IsTidy base h
            (on_shared (send usb (to_bus_frame F frame) (is_set_ℤ echo)) h.shared) api
            ((send-IsSound F usb _ (to_bus_frame F frame) (is_set_ℤ echo)).keeps h.shared.bus
              (with_handle base api h e tidy)))
  ]

  pub call-IsTidy :
      (call : Call D) (api : Api D)
      → IsTidy base api
      → IsTidy base (run_call F usb clock fuel call api).1
  unfolding canfd_configure canfd_send canfd_receive canfd_start canfd_endpoints canfd_scan
  call-IsTidy (configures none) api tidy = tidy
  call-IsTidy (configures (some c)) api tidy = elim (Option-cases api.handle) [
    | inl e ↦ rw (e, run_call, canfd_configure) tidy
    | inr (h, e) ↦
        rw (e, run_call, canfd_configure)
          (report-IsTidy base h (on_shared (configure F usb (to_bus_config F c)) h.shared) api (
            (configure-IsSound F usb _ (to_bus_config F c)).keeps h.shared.bus
              (with_handle base api h e tidy)))
  ]
  call-IsTidy (sends frame) api tidy = send-IsTidy frame (pos 0) api tidy
  call-IsTidy (sends_echo frame echo) api tidy = send-IsTidy frame echo api tidy
  call-IsTidy (receives false timeout_ms) api tidy = tidy
  call-IsTidy (receives true timeout_ms) api tidy = elim (Option-cases api.handle) [
    | inl e ↦ rw (e, run_call, canfd_receive) tidy
    | inr (h, e) ↦
        rw (e, run_call, canfd_receive)
          (answer-IsTidy base F usb clock fuel h
            (on_shared (receive F usb clock timeout_ms fuel) h.shared) api
            ((receive-IsSound F usb _ clock timeout_ms fuel).keeps h.shared.bus
              (with_handle base api h e tidy)))
  ]
  call-IsTidy (starts none user) api tidy = tidy
  call-IsTidy (starts (some callback) user) api tidy = elim (Option-cases api.handle) [
    | inl e ↦ rw (e, run_call, canfd_start) tidy
    | inr (h, e) ↦
        rw (e, run_call, canfd_start)
          (report-IsTidy base (record h { callback = some (callback, user) }) (start h.shared) api
            (subst (IsSound _) (sym (start-bus h.shared)) (with_handle base api h e tidy)))
  ]
  call-IsTidy (asks_endpoints has_in has_out) api tidy = elim (Option-cases api.handle) [
    | inl e ↦ rw (e, run_call, canfd_endpoints) tidy
    | inr (h, e) ↦ rw (e, run_call, canfd_endpoints) tidy
  ]
  call-IsTidy (scans false max) api tidy =
      scanned-IsTidy base api.handle api.leaked api.log (log_of api) (λ key. refl) tidy
  call-IsTidy (scans true (negsuc n)) api tidy =
      scanned-IsTidy base api.handle api.leaked api.log (log_of api) (λ key. refl) tidy
  call-IsTidy (scans true (pos room)) api tidy =
      let r = scan_adapters usb 0 0 (log_of api) in
      scanned-IsTidy base api.handle api.leaked api.log (scanned room api.last_error r).log
        (λ key.
          ap (open_handles key) (scanned-log room api.last_error r)
          ∙ scan_adapters-balance usb key 0 0 (log_of api))
        tidy
