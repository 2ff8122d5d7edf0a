-- ===== src/Examples/Demo/Main/Handles.antt =====
-- The device handle over a run of canfd_demo.cpp.
use gsusb_canfd.Prelude.{
  ℕ, zero, suc, ◌+◌, ◌-◌, ◌*◌, ◌≡◌, ap, ◌∙◌, Bool, true, false, ◌&&◌, leb, Option, none, some, List,
  [], ◌∷◌, Bool-cases, inl, inr,
}
use gsusb_canfd.Prelude.Int.{pos}
use gsusb_canfd.Errors.{Result, ok, err, Result-cases}
use gsusb_canfd.Effects.{◌>>=◌, ◌>>◌, pure}
use gsusb_canfd.Floats.{Double}
use gsusb_canfd.Text.{Bytes}
use gsusb_canfd.Usb.{Libusb, Log}
use gsusb_canfd.Usb.Discovery.{AdapterInfo, scan_adapters}
use gsusb_canfd.Usb.Discovery.Balance.{open_handles, scan_adapters-balance}
use gsusb_canfd.Device.State.{Impl}
use gsusb_canfd.Device.Open.{open_bus}
use gsusb_canfd.Device.Configure.{configure}
use gsusb_canfd.Device.Traffic.{Clock, Received, received, timed_out, out_of_fuel}
use gsusb_canfd.Device.Lifecycle.{held, IsSound}
use gsusb_canfd.Device.Lifecycle.Opening.{open_bus-IsSound}
use gsusb_canfd.Device.Lifecycle.Running.{configure-IsSound}
use gsusb_canfd.Device.Lifecycle.Transfers.{send-IsSound, receive-IsSound}
use gsusb_canfd.Device.Lifecycle.Closing.{IsReleased, close_bus-IsReleased}
use gsusb_canfd.Device.Lifecycle.Machine.{fresh, Reachable-IsSound, here}
use gsusb_canfd.Tools.Term.Session.{any_device}
use gsusb_canfd.Examples.{Running, Ending, code, terminated, goes_on, print, print_all, on_bus}
use gsusb_canfd.Examples.Safe.{
  IsSafe, pure-IsSafe, print-IsSafe, print_all-IsSafe, on_bus-IsSafe, bind-IsSafe, then-IsSafe,
}
use gsusb_canfd.Examples.Demo.{Args, Notice, open_heading, tx_heading, configuring}
use gsusb_canfd.Examples.Demo.{scan_heading, rx_heading}
use gsusb_canfd.Examples.Demo.Counts.{Tally, is_wanted}
use gsusb_canfd.Examples.Demo.Main.{
  Surroundings, scan_lines, with_impl, open_lines, timing_lines, send_trigger, begin,
  repeat_trigger, take_frame, turn, goes, watch, start_tally, shown_ids, finish, traffic, opened,
  session, ended, after_scan, run_demo,
}

module _ {D : Type 0} (F : Double D) (seconds : D → Bytes) (usb : Libusb) (clock : Clock D)
    (fuel : ℕ) (around : Surroundings) (base : ℕ → ℕ) (args : Args D) where
  send_trigger-IsSafe : IsSafe base (send_trigger F seconds usb clock fuel around args)
  send_trigger-IsSafe = on_bus-IsSafe base _ (send-IsSound F usb base _ false)

  begin-IsSafe : (trigger : Bool) → IsSafe base (begin F seconds usb clock fuel around args trigger)
  begin-IsSafe true =
      then-IsSafe base _ _ (print-IsSafe base tx_heading)
        (then-IsSafe base _ _ send_trigger-IsSafe (print-IsSafe base _))
  begin-IsSafe false = print-IsSafe base _

  repeat_trigger-IsSafe :
      (now : ℕ) (t : Tally)
      → IsSafe base (repeat_trigger F seconds usb clock fuel around args now t)
  repeat_trigger-IsSafe now t = record {
    keeps = λ s h. elim (Bool-cases (args.trigger && leb (1 * 1000000000) (now - t.last_trigger))) [
      | inl e ↦
          rw (e, repeat_trigger)
            ((then-IsSafe base (send_trigger F seconds usb clock fuel around args)
                (pure (record t { last_trigger = now })) send_trigger-IsSafe
                (pure-IsSafe base _)).keeps
              s h)
      | inr e ↦ rw (e, repeat_trigger) h
    ];
  }

  take_frame-IsSafe :
      (now : ℕ) (t : Tally) (r : Received D)
      → IsSafe base (take_frame F seconds usb clock fuel around args now t r)
  take_frame-IsSafe now t timed_out = pure-IsSafe base _
  take_frame-IsSafe now t out_of_fuel = pure-IsSafe base _
  take_frame-IsSafe now t (received frame) = record {
    keeps = λ s h. elim (Bool-cases (is_wanted args frame)) [
      | inl e ↦ rw (e, take_frame) h
      | inr e ↦ rw (e, take_frame) h
    ];
  }

  turn-IsSafe :
      (now : ℕ) (t : Tally) → IsSafe base (turn F seconds usb clock fuel around args now t)
  unfolding turn
  turn-IsSafe now t = bind-IsSafe base _ _ (repeat_trigger-IsSafe now t) (λ t'.
      bind-IsSafe base _ _ (on_bus-IsSafe base _ (receive-IsSound F usb base clock (pos 100) fuel))
        (take_frame-IsSafe now t'))

  watch-IsSafe :
      (rounds round : ℕ) (t : Tally) (s : Running (Notice D))
      → IsSound base s.bus
      → IsSound base (watch F seconds usb clock fuel around args rounds round t s).1.bus
  unfolding watch
  watch-IsSafe zero round t s h = h
  watch-IsSafe (suc rounds) round t s h =
      elim (Bool-cases (goes F seconds usb clock fuel around args round)) [
        | inr e ↦ rw (e, watch) h
        | inl e ↦
            let now = around.now round in
            let s' = (turn F seconds usb clock fuel around args now t s).1 in
            let kept = (turn-IsSafe now t).keeps s h in
            elim (Result-cases (turn F seconds usb clock fuel around args now t s).0) [
              | inr (x, r) ↦ rw (e, r, watch) kept
              | inl (none, r) ↦ rw (e, r, watch) kept
              | inl (some t', r) ↦ rw (e, r, watch) (watch-IsSafe rounds (suc round) t' s' kept)
            ]
      ]

  finish-IsSafe :
      (found : Option Tally) → IsSafe base (finish F seconds usb clock fuel around found)
  finish-IsSafe none = pure-IsSafe base goes_on
  finish-IsSafe (some t) =
      then-IsSafe base _ _ (print_all-IsSafe base _) (pure-IsSafe base (code 0))

  with_impl-IsSafe :
      (lines : Impl → List (Notice D)) → IsSafe base (with_impl (λ impl. print_all (lines impl)))
  with_impl-IsSafe lines = record { keeps = λ s h. h }

  traffic-IsSafe : (rounds : ℕ) → IsSafe base (traffic F seconds usb clock fuel around args rounds)
  unfolding traffic
  traffic-IsSafe rounds =
      let start = start_tally F seconds usb clock fuel around in
      let loop = watch F seconds usb clock fuel around args rounds 0 start in
      let last = finish F seconds usb clock fuel around in
      let heading = rx_heading args.seconds (shown_ids F seconds usb clock fuel around args) in
      then-IsSafe base (begin F seconds usb clock fuel around args args.trigger)
        (print heading >> (loop >>= last)) (begin-IsSafe args.trigger)
        (then-IsSafe base (print heading) (loop >>= last) (print-IsSafe base heading) (
          bind-IsSafe base loop last (record { keeps = watch-IsSafe rounds 0 start })
            finish-IsSafe))

  opened-IsSafe : (rounds : ℕ) → IsSafe base (opened F seconds usb clock fuel around args rounds)
  unfolding opened
  opened-IsSafe rounds =
      let rest = traffic F seconds usb clock fuel around args rounds in
      let lines = timing_lines F seconds usb clock fuel around in
      let told = with_impl (λ (impl : Impl). print_all (lines impl)) in
      let set = on_bus {N = Notice D} (configure F usb args.config) in
      then-IsSafe base (print (configuring args.classic)) (set >> (told >> rest))
        (print-IsSafe base (configuring args.classic))
        (then-IsSafe base set (told >> rest)
          (on_bus-IsSafe base (configure F usb args.config)
            (configure-IsSound F usb base args.config))
          (then-IsSafe base told rest (with_impl-IsSafe lines) (traffic-IsSafe rounds)))

  session-IsSafe : (rounds : ℕ) → IsSafe base (session F seconds usb clock fuel around args rounds)
  unfolding session
  session-IsSafe rounds =
      let rest = opened F seconds usb clock fuel around args rounds in
      let lines = open_lines F seconds usb clock fuel around in
      let told = with_impl (λ (impl : Impl). print_all (lines impl)) in
      let start = on_bus {N = Notice D} (open_bus usb) in
      then-IsSafe base (print open_heading) (start >> (told >> rest))
        (print-IsSafe base open_heading)
        (then-IsSafe base start (told >> rest)
          (on_bus-IsSafe base (open_bus usb) (open_bus-IsSound usb base))
          (then-IsSafe base told rest (with_impl-IsSafe lines) (opened-IsSafe rounds)))

  ended-IsReleased :
      (r : Result Ending × Running (Notice D)) (n : ℕ)
      → IsSound base r.1.bus
      → (ended F seconds usb clock fuel around r).0 ≡ code n
      → IsReleased usb base (ended F seconds usb clock fuel around r).1.bus
  ended-IsReleased (ok (code m), s) n h e = close_bus-IsReleased usb base s.bus h
  ended-IsReleased (ok terminated, s) n h e = cc
  ended-IsReleased (ok goes_on, s) n h e = cc
  ended-IsReleased (err x, s) n h e = close_bus-IsReleased usb base s.bus h

  after_scan-IsReleased :
      (rounds : ℕ) (r : Result (List AdapterInfo) × Log) (n : ℕ)
      → ((key : ℕ) → open_handles key r.1 ≡ base key)
      → (after_scan F seconds usb clock fuel around args rounds r).0 ≡ code n
      → IsReleased usb base (after_scan F seconds usb clock fuel around args rounds r).1.bus
  after_scan-IsReleased rounds (err x, log) n same e = cc
  after_scan-IsReleased rounds (ok found, log) n same e =
      let new = fresh any_device log in
      let there = Reachable-IsSound F usb clock any_device log new here in
      let sound : IsSound base new =
        (λ key. there.0 key ∙ ap (λ (n : ℕ). n + held key new.impl) (same key), there.1) in
      let s : Running (Notice D) = record {
        bus = new;
        printed = scan_lines found (scan_heading ∷ []);
      } in
      ended-IsReleased (session F seconds usb clock fuel around args rounds s) n
        ((session-IsSafe rounds).keeps s sound) e

-- However the demo ends with an exit code, exceptions included, the bus has no transport, is not
-- started, and for every device as many handles are open as before the scan.
pub run_demo-IsReleased :
    {D : Type 0} (F : Double D) (seconds : D → Bytes) (usb : Libusb) (clock : Clock D) (fuel : ℕ)
    (around : Surroundings) (args : Args D) (rounds : ℕ) (log : Log) (n : ℕ)
    → (run_demo F seconds usb clock fuel around args rounds log).0 ≡ code n
    → IsReleased usb
        (λ key. open_handles key log)
        (run_demo F seconds usb clock fuel around args rounds log).1.bus
unfolding run_demo
run_demo-IsReleased F seconds usb clock fuel around args rounds log n e =
    after_scan-IsReleased F seconds usb clock fuel around (λ key. open_handles key log) args rounds
      (scan_adapters usb 0 0 log) n (λ key. scan_adapters-balance usb key 0 0 log) e
