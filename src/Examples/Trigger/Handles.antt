-- ===== src/Examples/Trigger/Handles.antt =====
-- How trigger_0x501.cpp ends, and the device handle over it.
use gsusb_canfd.Prelude.{
  ℕ, zero, suc, ◌-◌, ◌*◌, ◌≡◌, ◌≢◌, refl, false, not, ◌||◌, ◌==◌, leb, [], Bool-cases, inl, inr,
}
use gsusb_canfd.Prelude.Int.{pos}
use gsusb_canfd.Errors.{Result, ok, err, Result-cases}
use gsusb_canfd.Effects.{Action, ◌>>=◌, ◌>>◌, pure}
use gsusb_canfd.Floats.{Double}
use gsusb_canfd.Text.{Bytes}
use gsusb_canfd.Usb.{Libusb, Log}
use gsusb_canfd.Usb.Discovery.Balance.{open_handles}
use gsusb_canfd.Device.Open.{open_bus}
use gsusb_canfd.Device.Configure.{configure}
use gsusb_canfd.Device.Traffic.{Clock, Received, received, timed_out, out_of_fuel, send}
use gsusb_canfd.Device.Lifecycle.{IsSound}
use gsusb_canfd.Device.Lifecycle.Opening.{open_bus-IsSound}
use gsusb_canfd.Device.Lifecycle.Running.{configure-IsSound}
use gsusb_canfd.Device.Lifecycle.Transfers.{send-IsSound, receive-IsSound}
use gsusb_canfd.Device.Lifecycle.Closing.{IsReleased, close_bus-IsReleased}
use gsusb_canfd.Device.Lifecycle.Machine.{fresh, Reachable-IsSound, here}
use gsusb_canfd.Tools.Term.Session.{any_device}
use gsusb_canfd.Examples.{Running, Ending, code, terminated, goes_on, print, on_bus}
use gsusb_canfd.Examples.Safe.{
  IsSafe, pure-IsSafe, print-IsSafe, on_bus-IsSafe, bind-IsSafe, then-IsSafe,
}
use gsusb_canfd.Examples.Trigger.{
  Notice, bus_up, k_response_id, next, stuck, bus_config, trigger, repeat_trigger, show_response,
  turn, watch, session, ended, run_trigger,
}

module _ {D : Type 0} (F : Double D) (seconds : D → Bytes) (usb : Libusb) (clock : Clock D)
    (fuel : ℕ) (now : (round : ℕ) → ℕ) (base : ℕ → ℕ) where
  send-IsSafe : IsSafe {N = Notice} base (on_bus (send usb (trigger F) false))
  send-IsSafe = on_bus-IsSafe base _ (send-IsSound F usb base (trigger F) false)

  repeat_trigger-IsSafe :
      (round last : ℕ) → IsSafe base (repeat_trigger F seconds usb clock fuel now round last)
  repeat_trigger-IsSafe round last = record {
    keeps = λ s h. elim (Bool-cases (leb (1 * 1000000000) (now round - last))) [
      | inl e ↦
          rw (e, repeat_trigger)
            ((then-IsSafe base (on_bus (send usb (trigger F) false)) (pure (now round)) send-IsSafe
                (pure-IsSafe base (now round))).keeps
              s h)
      | inr e ↦ rw (e, repeat_trigger) h
    ];
  }

  show_response-IsSafe :
      (last : ℕ) (r : Received D) → IsSafe base (show_response F seconds usb clock fuel now last r)
  show_response-IsSafe last timed_out = pure-IsSafe base _
  show_response-IsSafe last out_of_fuel = pure-IsSafe base _
  show_response-IsSafe last (received frame) = record {
    keeps = λ s h. elim (Bool-cases (frame.echo || not (frame.id == k_response_id))) [
      | inl e ↦ rw (e, show_response) h
      | inr e ↦ rw (e, show_response) h
    ];
  }

  turn-IsSafe : (round last : ℕ) → IsSafe base (turn F seconds usb clock fuel now round last)
  unfolding turn
  turn-IsSafe round last = bind-IsSafe base _ _ (repeat_trigger-IsSafe round last) (λ last'.
      bind-IsSafe base _ _ (on_bus-IsSafe base _ (receive-IsSound F usb base clock (pos 200) fuel))
        (show_response-IsSafe last'))

  watch-IsSafe :
      (rounds round last : ℕ) (s : Running Notice)
      → IsSound base s.bus
      → IsSound base (watch F seconds usb clock fuel now rounds round last s).1.bus
  unfolding watch
  watch-IsSafe zero round last s h = h
  watch-IsSafe (suc rounds) round last s h =
      let s' = (turn F seconds usb clock fuel now round last s).1 in
      let kept = (turn-IsSafe round last).keeps s h in
      elim (Result-cases (turn F seconds usb clock fuel now round last s).0) [
        | inr (x, r) ↦ rw (r, watch) kept
        | inl (stuck, r) ↦ rw (r, watch) kept
        | inl (next last', r) ↦ rw (r, watch) (watch-IsSafe rounds (suc round) last' s' kept)
      ]

  session-IsSafe :
      (begun rounds : ℕ) → IsSafe base (session F seconds usb clock fuel now begun rounds)
  unfolding session
  session-IsSafe begun rounds =
      let first = on_bus {N = Notice} (open_bus usb) in
      let set = on_bus {N = Notice} (configure F usb (bus_config F)) in
      let sent = on_bus {N = Notice} (send usb (trigger F) false) in
      let loop = watch F seconds usb clock fuel now rounds 0 begun in
      then-IsSafe base first (set >> (print bus_up >> (sent >> loop)))
        (on_bus-IsSafe base (open_bus usb) (open_bus-IsSound usb base))
        (then-IsSafe base set (print bus_up >> (sent >> loop))
          (on_bus-IsSafe base (configure F usb (bus_config F))
            (configure-IsSound F usb base (bus_config F)))
          (then-IsSafe base (print bus_up) (sent >> loop) (print-IsSafe base bus_up) (
            then-IsSafe base sent loop send-IsSafe
              (record { keeps = watch-IsSafe rounds 0 begun }))))

  -- A part of the program that does not end in a code.
  abbrev IsEndless : Result Ending → Type 0
  IsEndless r = (n : ℕ) → r ≢ ok (code n)

  then-IsEndless :
      (m : Action (Running Notice) (Unit {0})) (k : Action (Running Notice) Ending)
      → ((s : Running Notice) → IsEndless (k s).0)
      → (s : Running Notice) → IsEndless ((m >> k) s).0
  then-IsEndless m k never s = elim (Result-cases (m s).0) [
    | inl (a, e) ↦ rw (e, ◌>>◌, ◌>>=◌) (never (m s).1)
    | inr (x, e) ↦ rw (e, ◌>>◌, ◌>>=◌) (λ n r. cc)
  ]

  watch-IsEndless :
      (rounds round last : ℕ) (s : Running Notice)
      → IsEndless (watch F seconds usb clock fuel now rounds round last s).0
  unfolding watch
  watch-IsEndless zero round last s = λ n r. cc
  watch-IsEndless (suc rounds) round last s =
      let s' = (turn F seconds usb clock fuel now round last s).1 in
      elim (Result-cases (turn F seconds usb clock fuel now round last s).0) [
        | inr (x, r) ↦ rw (r, watch) (λ n r. cc)
        | inl (stuck, r) ↦ rw (r, watch) (λ n r. cc)
        | inl (next last', r) ↦ rw (r, watch) (watch-IsEndless rounds (suc round) last' s')
      ]

  session-IsEndless :
      (begun rounds : ℕ) (s : Running Notice)
      → IsEndless (session F seconds usb clock fuel now begun rounds s).0
  unfolding session
  session-IsEndless begun rounds =
      let set = on_bus {N = Notice} (configure F usb (bus_config F)) in
      let sent = on_bus {N = Notice} (send usb (trigger F) false) in
      let loop = watch F seconds usb clock fuel now rounds 0 begun in
      then-IsEndless (on_bus (open_bus usb)) (set >> (print bus_up >> (sent >> loop))) (
        then-IsEndless set (print bus_up >> (sent >> loop)) (
          then-IsEndless (print bus_up) (sent >> loop)
            (then-IsEndless sent loop (watch-IsEndless rounds 0 begun))))

  ended-IsFailure :
      (r : Result Ending × Running Notice) (n : ℕ)
      → IsSound base r.1.bus
      → IsEndless r.0
      → (ended F seconds usb clock fuel now r).0 ≡ code n
      → (n ≡ 1) × IsReleased usb base (ended F seconds usb clock fuel now r).1.bus
  ended-IsFailure (ok (code m), s) n h never e = absurd (never m refl)
  ended-IsFailure (ok terminated, s) n h never e = cc
  ended-IsFailure (ok goes_on, s) n h never e = cc
  ended-IsFailure (err x, s) n h never e = (cc, close_bus-IsReleased usb base s.bus h)

-- Where the program ends, its exit code is 1, the bus has no transport, is not started, and for
-- every device as many handles are open as before.
pub run_trigger-IsFailure :
    {D : Type 0} (F : Double D) (seconds : D → Bytes) (usb : Libusb) (clock : Clock D) (fuel : ℕ)
    (now : (round : ℕ) → ℕ) (begun rounds : ℕ) (log : Log) (n : ℕ)
    → (run_trigger F seconds usb clock fuel now begun rounds log).0 ≡ code n
    → (n ≡ 1)
      × IsReleased usb
          (λ key. open_handles key log)
          (run_trigger F seconds usb clock fuel now begun rounds log).1.bus
unfolding run_trigger
run_trigger-IsFailure F seconds usb clock fuel now begun rounds log n e =
    let base = λ (key : ℕ). open_handles key log in
    let new = fresh any_device log in
    let s : Running Notice = record { bus = new; printed = [] } in
    ended-IsFailure F seconds usb clock fuel now base
      (session F seconds usb clock fuel now begun rounds s) n
      ((session-IsSafe F seconds usb clock fuel now base begun rounds).keeps s
        (Reachable-IsSound F usb clock any_device log new here))
      (session-IsEndless F seconds usb clock fuel now base begun rounds s) e
