-- ===== src/Tools/Cli/Handles.antt =====
-- The device handle over a run of canfd_cli.cpp.
use gsusb_canfd.Prelude.{
  ℕ, zero, suc, ◌≡◌, Bool, true, false, not, ◌&&◌, Option, none, some, [], length, Bool-cases, inl,
  inr,
}
use gsusb_canfd.Prelude.Int.{pos}
use gsusb_canfd.Errors.{Result, ok, err, Result-cases}
use gsusb_canfd.Effects.{Action, ◌>>=◌, ◌>>◌, pure}
use gsusb_canfd.Floats.{Double}
use gsusb_canfd.Text.{Bytes}
use gsusb_canfd.Frame.{CanFrame}
use gsusb_canfd.Usb.{Libusb, Log}
use gsusb_canfd.Usb.Discovery.Balance.{open_handles}
use gsusb_canfd.Device.State.{Bus}
use gsusb_canfd.Device.Open.{open_bus}
use gsusb_canfd.Device.Configure.{configure}
use gsusb_canfd.Device.Traffic.{Clock, received, timed_out, out_of_fuel, receive, send}
use gsusb_canfd.Device.Lifecycle.{IsSound, Keeps}
use gsusb_canfd.Device.Lifecycle.Opening.{open_bus-IsSound}
use gsusb_canfd.Device.Lifecycle.Running.{configure-IsSound}
use gsusb_canfd.Device.Lifecycle.Transfers.{send-IsSound, receive-IsSound}
use gsusb_canfd.Device.Lifecycle.Closing.{IsReleased, close_bus-IsReleased}
use gsusb_canfd.Device.Lifecycle.Machine.{fresh, Reachable-IsSound, here}
use gsusb_canfd.Tools.Cli.{
  Options, Notice, line, sent, triggered, Cli, Exit, code, undefined, goes_on, make_frame,
}
use gsusb_canfd.Tools.Cli.Run.{
  selector_of, say, on_bus, print_info, has_enough, received_line, monitor, send_made, send_once,
  watch, act, run_calls, ended, run,
}

module _ {D : Type 0} (F : Double D) (seconds : D → Bytes) (usb : Libusb) (clock : Clock D)
    (fuel : ℕ) (stopped : (round : ℕ) → Bool) (base : ℕ → ℕ) where
  abbrev IsSafe : {A : Type 0} → Action Cli A → Type 0
  IsSafe m = (s : Cli) → IsSound base s.bus → IsSound base (m s).1.bus

  -- A call of the bus, and what follows where it does not throw.
  and_then :
      {A : Type 0} (m : Action Bus (Unit {0})) (k : Unit {0} → Action Cli A)
      → Keeps (IsSound base) m
      → ((u : Unit {0}) → IsSafe (k u))
      → IsSafe (on_bus m >>= k)
  and_then m k km kk s h = elim (Result-cases (m s.bus).0) [
    | inl (done, e) ↦
        rw (e, ◌>>=◌, on_bus) (kk done (record s { bus = (m s.bus).1 }) (km.keeps s.bus h))
    | inr (x, e) ↦ rw (e, ◌>>=◌, on_bus) (km.keeps s.bus h)
  ]

  monitor-IsSafe :
      (opts : Options D) (rounds round printed : ℕ)
      → IsSafe (monitor F seconds usb clock fuel stopped opts rounds round printed)
  unfolding monitor
  monitor-IsSafe opts zero round printed s h = h
  monitor-IsSafe opts (suc rounds) round printed s h = elim (Bool-cases (stopped round)) [
    | inl e ↦ rw (e, monitor) h
    | inr e ↦
        let b = (receive F usb clock (pos 100) fuel s.bus).1 in
        let s' = record s { bus = b } in
        let kept = (receive-IsSound F usb base clock (pos 100) fuel).keeps s.bus h in
        elim (Result-cases (receive F usb clock (pos 100) fuel s.bus).0) [
          | inr (x, r) ↦ rw (e, r, monitor) kept
          | inl (timed_out, r) ↦
              rw (e, r, monitor) (monitor-IsSafe opts rounds (suc round) printed s' kept)
          | inl (out_of_fuel, r) ↦ rw (e, r, monitor) kept
          | inl (received frame, r) ↦ elim (Bool-cases (frame.echo && not opts.show_echo)) [
            | inl hidden ↦
                rw (e, r, hidden, monitor) (monitor-IsSafe opts rounds (suc round) printed s' kept)
            | inr shown ↦
                elim (Bool-cases
                  (has_enough F seconds usb clock fuel stopped opts.count (suc printed))) [
                    | inl enough ↦ rw (e, r, shown, enough, monitor) kept
                    | inr more ↦
                        let told =
                          say (line (received_line F seconds usb clock fuel stopped frame)) s' in
                        rw (e, r, shown, more, monitor)
                          (monitor-IsSafe opts rounds (suc round) (suc printed) told kept)
                  ]
          ]
        ]
  ]

  send_made-IsSafe :
      (made : Option (CanFrame D)) (echo : Bool) (notice : Notice) (rest : Action Cli Exit)
      → IsSafe rest
      → IsSafe (send_made F seconds usb clock fuel stopped made echo notice rest)
  send_made-IsSafe none echo notice rest k s h = h
  send_made-IsSafe (some frame) echo notice rest k s h =
      and_then (send usb frame echo) (λ _ s. rest (say notice s))
        (send-IsSound F usb base frame echo) (λ _ s h. k (say notice s) h) s h

  act-IsSafe :
      (is_monitor : Bool) (opts : Options D) (rounds : ℕ)
      → IsSafe (act F seconds usb clock fuel stopped is_monitor opts rounds)
  unfolding watch send_once
  act-IsSafe false opts rounds s h =
      send_made-IsSafe (make_frame F opts.id opts.bytes opts.config.fd) false
        (sent opts.id (length opts.bytes)) (pure (code 0)) (λ s h. h) s h
  act-IsSafe true opts rounds s h = elim (Bool-cases opts.trigger) [
    | inr e ↦ rw (e, watch) (monitor-IsSafe opts rounds 0 0 s h)
    | inl e ↦
        rw (e, watch)
          (send_made-IsSafe (make_frame F opts.trigger_id opts.trigger_bytes opts.config.fd)
            opts.show_echo (triggered opts.trigger_id)
            (monitor F seconds usb clock fuel stopped opts rounds 0 0)
            (monitor-IsSafe opts rounds 0 0) s h)
  ]

  run_calls-IsSafe :
      (is_monitor : Bool) (opts : Options D) (rounds : ℕ)
      → IsSafe (run_calls F seconds usb clock fuel stopped is_monitor opts rounds)
  unfolding run_calls
  run_calls-IsSafe is_monitor opts rounds =
      and_then (open_bus usb)
        (λ _.
          on_bus (configure F usb opts.config)
          >> (print_info >> act F seconds usb clock fuel stopped is_monitor opts rounds))
        (open_bus-IsSound usb base)
        (λ _.
          and_then (configure F usb opts.config)
            (λ _. print_info >> act F seconds usb clock fuel stopped is_monitor opts rounds)
            (configure-IsSound F usb base opts.config)
            (λ _ s h. act-IsSafe is_monitor opts rounds _ h))

  ended-IsReleased :
      (r : Result Exit × Cli) (n : ℕ)
      → IsSound base r.1.bus
      → (ended F seconds usb clock fuel stopped r).0 ≡ code n
      → IsReleased usb base (ended F seconds usb clock fuel stopped r).1.bus
  ended-IsReleased (ok (code m), s) n h e = close_bus-IsReleased usb base s.bus h
  ended-IsReleased (ok undefined, s) n h e = cc
  ended-IsReleased (ok goes_on, s) n h e = cc
  ended-IsReleased (err x, s) n h e = close_bus-IsReleased usb base s.bus h

-- However `send` and `monitor` end with an exit code, exceptions included, the bus has no transport,
-- is not started, and for every device as many handles are open as before.
pub run-IsReleased :
    {D : Type 0} (F : Double D) (seconds : D → Bytes) (usb : Libusb) (clock : Clock D) (fuel : ℕ)
    (stopped : (round : ℕ) → Bool) (is_monitor : Bool) (opts : Options D) (rounds : ℕ) (log : Log)
    (n : ℕ)
    → (run F seconds usb clock fuel stopped is_monitor opts rounds log).0 ≡ code n
    → IsReleased usb
        (λ key. open_handles key log)
        (run F seconds usb clock fuel stopped is_monitor opts rounds log).1.bus
unfolding run
run-IsReleased F seconds usb clock fuel stopped is_monitor opts rounds log n e =
    let base = λ (key : ℕ). open_handles key log in
    let new = fresh (selector_of opts) log in
    let s : Cli = record { bus = new; printed = [] } in
    let sound =
      run_calls-IsSafe F seconds usb clock fuel stopped base is_monitor opts rounds s
        (Reachable-IsSound F usb clock (selector_of opts) log new here) in
    ended-IsReleased F seconds usb clock fuel stopped base
      (run_calls F seconds usb clock fuel stopped is_monitor opts rounds s) n sound e
