-- ===== src/Tools/Cli/Run.antt =====
-- run, listCommand and main of canfd_cli.cpp. The n-th reading of g_stop is a parameter.
use gsusb_canfd.Prelude.{
  ℕ, zero, suc, Bool, true, false, not, ◌&&◌, Option, none, some, List, [], ◌∷◌, ◌++◌, length,
  if◌then◌else◌,
}
use gsusb_canfd.Prelude.Int.{ℤ, pos, ltb_ℤ}
use gsusb_canfd.Errors.{Result, ok, err}
use gsusb_canfd.Effects.{Action, ◌>>=◌, ◌>>◌, pure}
use gsusb_canfd.Floats.{Double}
use gsusb_canfd.Text.{Bytes, codes}
use gsusb_canfd.Frame.{CanFrame}
use gsusb_canfd.Frame.Show.{to_string}
use gsusb_canfd.Usb.{Libusb, Log}
use gsusb_canfd.Usb.Text.{text_eq}
use gsusb_canfd.Usb.Discovery.{AdapterInfo, DeviceSelector, scan_adapters}
use gsusb_canfd.Device.State.{Bus}
use gsusb_canfd.Device.Open.{open_bus}
use gsusb_canfd.Device.Configure.{configure, close_bus}
use gsusb_canfd.Device.Traffic.{Clock, received, timed_out, out_of_fuel, send, receive}
use gsusb_canfd.Device.Lifecycle.Machine.{fresh}
use gsusb_canfd.Tools.Cli.{
  Options, Notice, line, adapter, no_devices, bus_info, sent, triggered, failed, Cli, Exit, code,
  undefined, goes_on, make_frame,
}
use gsusb_canfd.Tools.Cli.Arguments.{no_options, parse_args}

-- The selector of the options.
unfoldable pub selector_of : {D : Type 0} → Options D → DeviceSelector
selector_of opts = record {
  vid = opts.vid;
  pid = opts.pid;
  index = opts.index;
  channel = opts.channel;
  serial = none;
  product = none;
  bus = none;
  address = none;
}

abbrev pub say : Notice → Cli → Cli
say notice s = record s { printed = notice ∷ s.printed }

abbrev pub on_bus : {A : Type 0} → Action Bus A → Action Cli A
on_bus m s = let (r, b) = m s.bus in (r, record s { bus = b })

abbrev pub print_info : Action Cli (Unit {0})
print_info s = (ok tt, say (bus_info s.bus.impl) s)

module _ {D : Type 0} (F : Double D) (seconds : D → Bytes) (usb : Libusb) (clock : Clock D)
    (fuel : ℕ) (stopped : (round : ℕ) → Bool) where
  abbrev pub received_line : CanFrame D → Bytes
  received_line frame =
      (if frame.echo then codes "ec" else codes "RX") ++ (codes "  " ++ to_string F seconds frame)

  -- opts.count > 0 && printed >= opts.count
  abbrev pub has_enough : (count : ℤ) (printed : ℕ) → Bool
  has_enough count printed = ltb_ℤ (pos 0) count && not (ltb_ℤ (pos printed) count)

  -- The loop of the monitor, for a number of rounds.
  unfoldable pub monitor : Options D → (rounds round printed : ℕ) → Action Cli Exit
  monitor opts zero round printed s = (ok goes_on, s)
  monitor opts (suc rounds) round printed s = elim (stopped round) [
    | true ↦ (ok (code 0), s)
    | false ↦
        let (r, b) = receive F usb clock (pos 100) fuel s.bus in
        let s = record s { bus = b } in
        elim r [
          | err e ↦ (err e, s)
          | ok timed_out ↦ monitor opts rounds (suc round) printed s
          | ok out_of_fuel ↦ (ok goes_on, s)
          | ok (received frame) ↦ elim (frame.echo && not opts.show_echo) [
            | true ↦ monitor opts rounds (suc round) printed s
            | false ↦
                let s = say (line (received_line frame)) s in
                elim (has_enough opts.count (suc printed)) [
                  | true ↦ (ok (code 0), s)
                  | false ↦ monitor opts rounds (suc round) (suc printed) s
                ]
          ]
        ]
  ]

  -- The transmission of a frame, which the code makes and sends in one expression, and what is
  -- printed and done behind it.
  abbrev pub send_made :
      Option (CanFrame D) → (echo : Bool) → Notice → Action Cli Exit → Action Cli Exit
  send_made none echo notice rest s = (ok undefined, s)
  send_made (some frame) echo notice rest s =
      (on_bus (send usb frame echo) >>= λ _ s. rest (say notice s)) s

  unfoldable pub send_once : Options D → Action Cli Exit
  send_once opts =
      send_made (make_frame F opts.id opts.bytes opts.config.fd) false
        (sent opts.id (length opts.bytes)) (pure (code 0))

  unfoldable pub watch : Options D → (rounds : ℕ) → Action Cli Exit
  watch opts rounds s = elim opts.trigger [
    | false ↦ monitor opts rounds 0 0 s
    | true ↦
        send_made (make_frame F opts.trigger_id opts.trigger_bytes opts.config.fd) opts.show_echo
          (triggered opts.trigger_id) (monitor opts rounds 0 0) s
  ]

  abbrev pub act : (is_monitor : Bool) → Options D → (rounds : ℕ) → Action Cli Exit
  act true opts rounds = watch opts rounds
  act false opts rounds = send_once opts

  -- run up to the closing of the bus.
  unfoldable pub run_calls : (is_monitor : Bool) → Options D → (rounds : ℕ) → Action Cli Exit
  run_calls is_monitor opts rounds =
      on_bus (open_bus usb)
      >> (on_bus (configure F usb opts.config) >> (print_info >> act is_monitor opts rounds))

  -- bus.close(), or the destructor of the bus where the calls throw, and the handler of main.
  abbrev pub ended : Result Exit × Cli → Exit × Cli
  ended (ok (code n), s) = (code n, record s { bus = close_bus usb s.bus })
  ended (ok undefined, s) = (undefined, s)
  ended (ok goes_on, s) = (goes_on, s)
  ended (err e, s) = (code 1, say (failed e) (record s { bus = close_bus usb s.bus }))

  unfoldable pub run : (is_monitor : Bool) → Options D → (rounds : ℕ) → Log → Exit × Cli
  run is_monitor opts rounds log = ended (
      run_calls is_monitor opts rounds
        (record { bus = fresh (selector_of opts) log; printed = [] }))

-- listCommand: what is printed, newest first.
unfoldable pub list_from : (position : ℕ) → List AdapterInfo → List Notice → List Notice
list_from position [] printed = printed
list_from position (a ∷ found) printed =
    list_from (suc position) found (adapter position a ∷ printed)

-- A scan that throws ends the program by std::terminate, which is `none`.
abbrev pub listed : Result (List AdapterInfo) → Option ℕ × List Notice
listed (ok []) = (some 1, no_devices ∷ [])
listed (ok (a ∷ found)) = (some 0, list_from 0 (a ∷ found) [])
listed (err e) = (none, [])

unfoldable pub list_command : Libusb → Log → (Option ℕ × List Notice) × Log
list_command usb log = let (r, log) = scan_adapters usb 0 0 log in (listed r, log)

-- What main is asked to do.
pub data Task (D : Type 0) : Type 0 where
  lists : Task D
  runs : (is_monitor : Bool) → Options D → Task D
  refuses : Task D

abbrev pub run_task : {D : Type 0} → (is_monitor : Bool) → Option (Options D) → Task D
run_task is_monitor none = refuses
run_task is_monitor (some opts) = runs is_monitor opts

-- main up to the call of the command, on argv behind the program's name.
unfoldable pub task_of : {D : Type 0} → Double D → (atof : Bytes → D) → List Bytes → Task D
task_of F atof [] = refuses
task_of F atof (command ∷ args) =
    if text_eq command (codes "list")
    then lists
    else if text_eq command (codes "send")
    then run_task false (parse_args atof args (no_options F))
    else if text_eq command (codes "monitor")
    then run_task true (parse_args atof args (no_options F))
    else refuses
