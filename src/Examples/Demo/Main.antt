-- ===== src/Examples/Demo/Main.antt =====
-- main of canfd_demo.cpp. Parameters: the readings of g_stop and of the steady clock, in
-- nanoseconds.
pub mod Handles
pub mod Summary
use gsusb_canfd.Prelude.{
  ℕ, zero, suc, ◌+◌, ◌-◌, ◌*◌, Bool, true, false, not, ◌&&◌, Option, none, some, List, [], ◌∷◌,
  ◌++◌, leb, if◌then◌else◌,
}
use gsusb_canfd.Prelude.Int.{ℤ, pos}
use gsusb_canfd.Errors.{Result, ok, err}
use gsusb_canfd.Effects.{Action, ◌>>=◌, ◌>>◌, pure}
use gsusb_canfd.Floats.{Double}
use gsusb_canfd.Text.{Bytes, codes}
use gsusb_canfd.Usb.{Libusb, Log}
use gsusb_canfd.Usb.Discovery.{AdapterInfo, scan_adapters}
use gsusb_canfd.Device.State.{Impl, input_endpoint, output_endpoint}
use gsusb_canfd.Device.Getters
use gsusb_canfd.Device.Open.{open_bus}
use gsusb_canfd.Device.Configure.{configure, close_bus}
use gsusb_canfd.Device.Traffic.{Clock, Received, received, timed_out, out_of_fuel, send, receive}
use gsusb_canfd.Device.Lifecycle.Machine.{fresh}
use gsusb_canfd.Tools.Term.Session.{any_device}
use gsusb_canfd.Examples.{Running, Ending, code, terminated, goes_on, print, print_all, on_bus}
use gsusb_canfd.Examples.Demo.{
  Args, Notice, scan_heading, open_heading, tx_heading, adapter, endpoints, versions, capability,
  configuring, sent, passive, rx_heading, summary, counted, failed, feature_string, timing_notice,
  make_frame,
}
use gsusb_canfd.Examples.Demo.Counts.{Tally, is_wanted, note_frame}

-- What the surroundings answer: the signal handler and the clock, at the loop's condition and in its
-- body, in each round, and the four readings before the loop.
pub record Surroundings : Type 0 where
  pub stopped : (round : ℕ) → Bool
  pub checked : (round : ℕ) → ℕ
  pub now : (round : ℕ) → ℕ
  pub deadline_base : ℕ
  pub trigger_base : ℕ
  pub report_base : ℕ
  pub window_base : ℕ

module _ {D : Type 0} where
  -- The adapters that are found, newest line first.
  unfoldable pub scan_lines : List AdapterInfo → List (Notice D) → List (Notice D)
  scan_lines [] printed = printed
  scan_lines (a ∷ found) printed = scan_lines found (adapter a ∷ printed)

  -- The lines of the summary for the ids, newest first.
  unfoldable pub count_lines : List (ℕ × ℕ) → List (Notice D) → List (Notice D)
  count_lines [] printed = printed
  count_lines ((id, count) ∷ rest) printed = count_lines rest (counted id count ∷ printed)

  -- What is done with the state of the bus.
  abbrev pub with_impl :
      {A : Type 0} → (Impl → Action (Running (Notice D)) A) → Action (Running (Notice D)) A
  with_impl f s = f s.bus.impl s

module _ {D : Type 0} (F : Double D) (seconds : D → Bytes) (usb : Libusb) (clock : Clock D)
    (fuel : ℕ) (around : Surroundings) where
  -- What is printed of an open bus, newest first.
  abbrev pub open_lines : Impl → List (Notice D)
  open_lines impl =
      capability (Getters.clock_frequency impl) (Getters.feature impl)
        (feature_string (Getters.feature impl))
      ∷ versions (F.div (F.of_unsigned (Getters.device_info impl).sw_version) (F.literal 100 1))
          (F.div (F.of_unsigned (Getters.device_info impl).hw_version) (F.literal 100 1))
      ∷ endpoints (input_endpoint impl) (output_endpoint impl)
      ∷ []

  -- The timings of a configured bus, newest first.
  abbrev pub timing_lines : Impl → List (Notice D)
  timing_lines impl =
      let nominal =
        timing_notice F (codes "nominal") (Getters.nominal_timing impl)
          (Getters.clock_frequency impl) in
      if Getters.is_fd impl
      then timing_notice F (codes "data") (Getters.data_timing impl) (Getters.clock_frequency impl)
        ∷ nominal
        ∷ []
      else nominal ∷ []

  -- bus.send(makeFrame(args.trigger_id, args.trigger_data, args.config.fd))
  abbrev pub send_trigger : Args D → Action (Running (Notice D)) (Unit {0})
  send_trigger args =
      on_bus (send usb (make_frame F args.trigger_id args.trigger_data args.config.fd) false)

  -- The trigger, or the heading of the passive mode.
  abbrev pub begin : Args D → (trigger : Bool) → Action (Running (Notice D)) (Unit {0})
  begin args true =
      print tx_heading >> (send_trigger args >> print (sent args.trigger_id args.trigger_data))
  begin args false = print (passive args.seconds)

  -- The trigger is sent again where the last one is a second old.
  abbrev pub repeat_trigger : Args D → (now : ℕ) → Tally → Action (Running (Notice D)) Tally
  repeat_trigger args now t s = elim (args.trigger && leb (1 * 1000000000) (now - t.last_trigger)) [
    | true ↦ (send_trigger args >> pure (record t { last_trigger = now })) s
    | false ↦ (ok t, s)
  ]

  -- The rest of the body, behind the receive call; `none` if that goes on.
  abbrev pub take_frame :
      Args D → (now : ℕ) → Tally → Received D → Action (Running (Notice D)) (Option Tally)
  take_frame args now t timed_out s = (ok (some t), s)
  take_frame args now t out_of_fuel s = (ok none, s)
  take_frame args now t (received frame) s = elim (is_wanted args frame) [
    | false ↦ (ok (some t), s)
    | true ↦
        let (t, lines) = note_frame F seconds args now frame t in
        (print_all lines >> pure (some t)) s
  ]

  -- The loop's body.
  unfoldable pub turn : Args D → (now : ℕ) → Tally → Action (Running (Notice D)) (Option Tally)
  turn args now t = repeat_trigger args now t >>= λ t.
      on_bus (receive F usb clock (pos 100) fuel) >>= λ r. take_frame args now t r

  -- steady_clock::now() + duration<double>(args.seconds), which counts nanoseconds as a double.
  abbrev pub deadline : Args D → D
  deadline args =
      F.add (F.of_long (pos around.deadline_base)) (F.mul args.seconds (F.literal 1000000000 0))

  -- The loop's condition.
  abbrev pub goes : Args D → (round : ℕ) → Bool
  goes args round =
      not (around.stopped round) && F.lt (F.of_long (pos (around.checked round))) (deadline args)

  -- The loop, for a number of rounds; `none` if it goes on.
  unfoldable pub watch :
      Args D → (rounds round : ℕ) → Tally → Action (Running (Notice D)) (Option Tally)
  watch args zero round t s = (ok none, s)
  watch args (suc rounds) round t s = elim (goes args round) [
    | false ↦ (ok (some t), s)
    | true ↦
        let (r, s') = turn args (around.now round) t s in
        elim r [
          | err e ↦ (err e, s')
          | ok none ↦ (ok none, s')
          | ok (some t') ↦ watch args rounds (suc round) t' s'
        ]
  ]

  abbrev pub start_tally : Tally
  start_tally = record {
    counts = [];
    last = none;
    total = 0;
    window = 0;
    last_trigger = around.trigger_base;
    next_report = around.report_base + 2 * 1000000000;
    window_start = around.window_base;
  }

  -- args.filter_rx_id ? "0x481" : "all ids"
  abbrev pub shown_ids : Args D → Bytes
  shown_ids args = if args.filter_rx_id then codes "0x481" else codes "all ids"

  -- The summary.
  abbrev pub finish : Option Tally → Action (Running (Notice D)) Ending
  finish none = pure goes_on
  finish (some t) = print_all (count_lines t.counts (summary t.total ∷ [])) >> pure (code 0)

  -- The block under `try`: what follows the configuration, what follows open, and all of it.
  unfoldable pub traffic : Args D → (rounds : ℕ) → Action (Running (Notice D)) Ending
  traffic args rounds =
      begin args args.trigger
      >> (print (rx_heading args.seconds (shown_ids args))
          >> (watch args rounds 0 start_tally >>= finish))

  unfoldable pub opened : Args D → (rounds : ℕ) → Action (Running (Notice D)) Ending
  opened args rounds =
      print (configuring args.classic)
      >> (on_bus (configure F usb args.config)
          >> (with_impl (λ impl. print_all (timing_lines impl)) >> traffic args rounds))

  unfoldable pub session : Args D → (rounds : ℕ) → Action (Running (Notice D)) Ending
  session args rounds =
      print open_heading
      >> (on_bus (open_bus usb)
          >> (with_impl (λ impl. print_all (open_lines impl)) >> opened args rounds))

  -- The handler, and bus.close().
  abbrev pub ended : Result Ending × Running (Notice D) → Ending × Running (Notice D)
  ended (ok (code n), s) = (code n, record s { bus = close_bus usb s.bus })
  ended (ok terminated, s) = (terminated, s)
  ended (ok goes_on, s) = (goes_on, s)
  ended (err e, s) =
      (code 1, record s { bus = close_bus usb s.bus; printed = failed e ∷ s.printed })

  -- main behind parseArgs: the scan, outside of `try`, and the bus.
  abbrev pub after_scan :
      Args D → (rounds : ℕ) → Result (List AdapterInfo) × Log → Ending × Running (Notice D)
  after_scan args rounds (err e, log) =
      (terminated, record { bus = fresh any_device log; printed = scan_heading ∷ [] })
  after_scan args rounds (ok found, log) = ended (
      session args rounds
        (record { bus = fresh any_device log; printed = scan_lines found (scan_heading ∷ []) }))

  unfoldable pub run_demo : Args D → (rounds : ℕ) → Log → Ending × Running (Notice D)
  run_demo args rounds log = after_scan args rounds (scan_adapters usb 0 0 log)
