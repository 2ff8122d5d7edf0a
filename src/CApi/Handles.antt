-- ===== src/CApi/Handles.antt =====
-- The device handles over calls of the C interface, in any order.
use gsusb_canfd.Prelude.{
  ℕ, ◌+◌, ◌≡◌, refl, sym, subst, Option, none, some, [], arith, Option-cases, inl, inr,
}
use gsusb_canfd.Prelude.Int.{ℤ}
use gsusb_canfd.Floats.{Double}
use gsusb_canfd.Usb.{Libusb, Log}
use gsusb_canfd.Usb.Discovery.Balance.{open_handles}
use gsusb_canfd.Device.Open.{open_bus}
use gsusb_canfd.Device.Traffic.{Clock}
use gsusb_canfd.Device.Lifecycle.Opening.{open_bus-IsSound}
use gsusb_canfd.Device.Lifecycle.Closing.{close_bus-IsReleased}
use gsusb_canfd.Device.Lifecycle.Machine.{fresh}
use gsusb_canfd.Device.Worker.{stop, step_worker}
use gsusb_canfd.Device.Worker.Handles.{advance-IsSound, stop-IsSound}
use gsusb_canfd.CApi.{CanFdHandle, Api, LastError}
use gsusb_canfd.CApi.Calls.{selector_for, canfd_open_channel, canfd_stop, canfd_close, with_shared}
use gsusb_canfd.CApi.Reported.{Call, run_call}
use gsusb_canfd.CApi.Tidy.{
  held_by, IsTidyHandle, IsTidy, with_handle, without_handle, opened-IsTidy, call-IsTidy,
}

-- A thread that has no handle yet.
abbrev pub no_handle : {D : Type 0} → LastError → Log → Api D
no_handle last log = record { handle = none; last_error = last; leaked = []; log = log }

module _ {D : Type 0} (F : Double D) (usb : Libusb) (clock : Clock D) (fuel : ℕ) where
  -- One call of the C interface that changes something, or a step of the receive thread. The caller
  -- has one handle at a time, and opens where there is none.
  pub data Step : Api D → Api D → Type 0 where
    opens :
        (vid pid : ℕ) (index channel : ℤ) (api : Api D)
        → api.handle ≡ none
        → Step api (canfd_open_channel F usb vid pid index channel api)
    calls : (call : Call D) (api : Api D) → Step api (run_call F usb clock fuel call api).1
    stops : (api : Api D) → Step api (canfd_stop F usb clock fuel api)
    closes : (api : Api D) → Step api (canfd_close F usb clock fuel api)
    works :
        (api : Api D) (h : CanFdHandle D)
        → api.handle ≡ some h
        → Step api (with_shared h (step_worker F usb clock fuel h.shared) api)

  pub data Reachable (first : Api D) : Api D → Type 0 where
    here : Reachable first first
    after : {api next : Api D} → Reachable first api → Step api next → Reachable first next

module _ {D : Type 0} (F : Double D) (usb : Libusb) (clock : Clock D) (fuel : ℕ)
    (base : ℕ → ℕ) where
  open-IsTidy :
      (vid pid : ℕ) (index channel : ℤ) (api : Api D)
      → api.handle ≡ none
      → IsTidy base api
      → IsTidy base (canfd_open_channel F usb vid pid index channel api)
  unfolding canfd_open_channel
  open-IsTidy vid pid index channel api e tidy =
      let clear = without_handle base api e tidy in
      let new = fresh (selector_for F usb vid pid index channel) api.log in
      opened-IsTidy base F usb (open_bus usb new) api (
        (open_bus-IsSound usb (λ key. base key + held_by key api.leaked)).keeps new
          (λ key. omega (arith, clear key), λ on. ground (arith, on)))

  -- No handle, and every device handle that is open beside `base` is held by an object that was
  -- never deleted.
  abbrev pub IsClosed : Api D → Type 0
  IsClosed api =
      (api.handle ≡ none)
      × ((key : ℕ) → open_handles key api.log ≡ base key + held_by key api.leaked)

  close-IsClosed : (api : Api D) → IsTidy base api → IsClosed (canfd_close F usb clock fuel api)
  unfolding canfd_close
  close-IsClosed api tidy = elim (Option-cases api.handle) [
    | inl e ↦ rw (e, canfd_close) (e, without_handle base api e tidy)
    | inr (h, e) ↦
        let sound = stop-IsSound F usb clock fuel _ h.shared (with_handle base api h e tidy) in
        rw (e, canfd_close)
          (refl, (close_bus-IsReleased usb _ (stop F usb clock fuel h.shared).bus sound).2)
  ]

  stop-IsTidy : (api : Api D) → IsTidy base api → IsTidy base (canfd_stop F usb clock fuel api)
  unfolding canfd_stop
  stop-IsTidy api tidy = elim (Option-cases api.handle) [
    | inl e ↦ rw (e, canfd_stop) tidy
    | inr (h, e) ↦
        rw (e, canfd_stop)
          (stop-IsSound F usb clock fuel _ h.shared (with_handle base api h e tidy))
  ]

  Step-IsTidy :
      {api next : Api D} → Step F usb clock fuel api next → IsTidy base api → IsTidy base next
  Step-IsTidy (opens vid pid index channel api e) tidy =
      open-IsTidy vid pid index channel api e tidy
  Step-IsTidy (calls call api) tidy = call-IsTidy F usb clock fuel base call api tidy
  Step-IsTidy (stops api) tidy = stop-IsTidy api tidy
  Step-IsTidy (closes api) tidy =
      let (gone, clear) = close-IsClosed api tidy in
      let closed = canfd_close F usb clock fuel api in
      subst (λ (o : Option (CanFdHandle D)). IsTidyHandle base o closed.leaked closed.log)
        (sym gone) clear
  Step-IsTidy (works api h e) tidy =
      advance-IsSound F usb clock fuel _ h.shared.worker h.shared (with_handle base api h e tidy)

  pub Reachable-IsTidy :
      (first api : Api D)
      → IsTidy base first
      → Reachable F usb clock fuel first api
      → IsTidy base api
  Reachable-IsTidy first _ tidy here = tidy
  Reachable-IsTidy first _ tidy (after {api} path step) =
      Step-IsTidy step (Reachable-IsTidy first api tidy path)

-- After any opening, configuring, sending, receiving, starting, stopping, closing and scanning through
-- the C interface, by a caller who has at most one handle at a time, and any steps of the receive
-- thread, starting without a handle, canfd_close leaves no handle, and for every device as many open as at the start, but for those
-- that a failed canfd_open_channel left in an object that no one can close.
pub canfd_close-Reachable :
    {D : Type 0} (F : Double D) (usb : Libusb) (clock : Clock D) (fuel : ℕ) (last : LastError)
    (log : Log) (api : Api D)
    → Reachable F usb clock fuel (no_handle last log) api
    → IsClosed F usb clock fuel (λ key. open_handles key log) (canfd_close F usb clock fuel api)
unfolding held_by
canfd_close-Reachable F usb clock fuel last log api path =
    let base = λ (key : ℕ). open_handles key log in
    close-IsClosed F usb clock fuel base api
      (Reachable-IsTidy F usb clock fuel base (no_handle last log) api (λ key. omega arith) path)
