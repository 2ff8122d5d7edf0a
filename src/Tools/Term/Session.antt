-- ===== src/Tools/Term/Session.antt =====
-- parseArgs and main of canfd_term.cpp. The n-th reading of g_stop is a parameter, and so is what
-- is typed: the lines of the input.
pub mod Handles
use gsusb_canfd.Prelude.{
  ℕ, zero, suc, ◌+◌, Bool, true, false, Option, none, some, List, [], ◌∷◌, ◌||◌, u16, u32,
  if◌then◌else◌,
}
use gsusb_canfd.Prelude.Int.{ℤ, pos, negsuc}
use gsusb_canfd.Errors.{CanFdError, Result, ok, err}
use gsusb_canfd.Floats.{Double}
use gsusb_canfd.Text.{Bytes, codes}
use gsusb_canfd.Text.Scan.{strtoul, atoi}
use gsusb_canfd.Usb.{Libusb, Log}
use gsusb_canfd.Usb.Text.{is_empty, text_eq}
use gsusb_canfd.Usb.Discovery.{AdapterInfo, DeviceSelector, scan_adapters}
use gsusb_canfd.Device.State.{BusConfig, default_config}
use gsusb_canfd.Device.Traffic.{Clock}
use gsusb_canfd.Tools.Term.{
  adapters, prompt, help_hint, stopping, failed, Term, Outcome, continues, quits, undefined, throws,
  say, new_term,
}
use gsusb_canfd.Tools.Term.Line.{trim, tokens_of}
use gsusb_canfd.Tools.Term.Open.{background, drop_bus, open_device, choose_device}
use gsusb_canfd.Tools.Term.Command.{handle_command}

-- DeviceSelector with its initialisers
abbrev pub any_device : DeviceSelector
any_device = record {
  vid = 0;
  pid = 0;
  index = pos 0;
  channel = 0;
  serial = none;
  product = none;
  bus = none;
  address = none;
}

pub record Options (D : Type 0) : Type 0 where
  pub selector : DeviceSelector
  pub config : BusConfig D
  pub index_given : Bool
  pub show_echo : Bool

abbrev pub no_options : {D : Type 0} → Double D → Options D
no_options F = record {
  selector = any_device;
  config = default_config F;
  index_given = false;
  show_echo = false;
}

-- The branches of parseArgs: options with a value, and others.
pub data Valued : Type 0 where
  vid pid index bitrate sample_point data_bitrate data_sample_point : Valued

pub data Flag : Type 0 where
  valued : Valued → Flag
  classic echo unknown : Flag

unfoldable pub flag_of : Bytes → Flag
flag_of a =
    if text_eq a (codes "--vid")
    then valued vid
    else if text_eq a (codes "--pid")
    then valued pid
    else if text_eq a (codes "--index")
    then valued index
    else if text_eq a (codes "--bitrate")
    then valued bitrate
    else if text_eq a (codes "--sample-point")
    then valued sample_point
    else if text_eq a (codes "--data-bitrate")
    then valued data_bitrate
    else if text_eq a (codes "--data-sample-point")
    then valued data_sample_point
    else if text_eq a (codes "--classic")
    then classic
    else if text_eq a (codes "--echo")
    then echo
    else unknown

module _ {D : Type 0} (atof : Bytes → D) where
  abbrev pub set_value : Valued → Bytes → Options D → Options D
  set_value vid text o = record o { selector = record o.selector { vid = u16 (strtoul 0 text) } }
  set_value pid text o = record o { selector = record o.selector { pid = u16 (strtoul 0 text) } }
  set_value index text o = record o {
    selector = record o.selector { index = atoi text };
    index_given = true;
  }
  set_value bitrate text o = record o {
    config = record o.config { bitrate = u32 (strtoul 0 text) };
  }
  set_value sample_point text o = record o { config = record o.config { sample_point = atof text } }
  set_value data_bitrate text o = record o {
    config = record o.config { data_bitrate = u32 (strtoul 0 text) };
  }
  set_value data_sample_point text o = record o {
    config = record o.config { data_sample_point = atof text };
  }

  -- parseArgs on the arguments behind the program's name; `none` is std::exit(2).
  unfoldable pub parse_args : List Bytes → Options D → Option (Options D)
  parse_args [] o = some o
  parse_args (a ∷ []) o = elim (flag_of a) [
    | valued v ↦ none
    | classic ↦ some (record o { config = record o.config { fd = false } })
    | echo ↦ some (record o { show_echo = true })
    | unknown ↦ none
  ]
  parse_args (a ∷ b ∷ args) o = elim (flag_of a) [
    | valued v ↦ parse_args args (set_value v b o)
    | classic ↦ parse_args (b ∷ args) (record o { config = record o.config { fd = false } })
    | echo ↦ parse_args (b ∷ args) (record o { show_echo = true })
    | unknown ↦ none
  ]

-- The end of the loop, or its next round.
abbrev pub go_on : {D : Type 0} → Outcome × Term D → (next : Outcome × Term D) → Outcome × Term D
go_on (continues, t) next = next
go_on (quits, t) next = (quits, t)
go_on (undefined, t) next = (undefined, t)
go_on (throws e, t) next = (throws e, t)

-- The surroundings of a run: the readings of g_stop by their number, and how many steps the receive
-- thread makes before each line.
pub record Surroundings : Type 0 where
  pub stopped : (round : ℕ) → Bool
  pub turns : (round : ℕ) → ℕ

module _ {D : Type 0} (F : Double D) (seconds : D → Bytes) (atof : Bytes → D) (usb : Libusb)
    (clock : Clock D) (fuel : ℕ) (around : Surroundings) where
  unfoldable pub background_times : ℕ → Term D → Term D
  background_times zero t = t
  background_times (suc n) t = background_times n (background F seconds usb clock fuel t)

  -- The line at the front of the input.
  unfoldable pub handle_line : Bytes → Term D → Outcome × Term D
  handle_line text t =
      if is_empty (trim text)
      then (continues, t)
      else handle_command F seconds atof usb clock fuel (tokens_of (trim text)) t

  -- The loop of main, over the lines that are left.
  unfoldable pub run_lines : (round : ℕ) → List Bytes → Term D → Outcome × Term D
  run_lines round [] t = elim (around.stopped round) [
    | true ↦ (quits, t)
    | false ↦ (quits, say prompt t)
  ]
  run_lines round (text ∷ lines) t = elim (around.stopped round) [
    | true ↦ (quits, t)
    | false ↦
        let r = handle_line text (background_times (around.turns round) (say prompt t)) in
        go_on r (run_lines (suc round) lines r.1)
  ]

  -- What follows the loop: the handler, and the bus is stopped and closed. `none` is undefined
  -- behaviour, else the exit code.
  abbrev pub leave : Outcome × Term D → Option ℕ × Term D
  leave (undefined, t) = (none, t)
  leave (throws e, t) =
      (some 0, drop_bus F seconds usb clock fuel (say stopping (say (failed e) t)))
  leave (continues, t) = (some 0, drop_bus F seconds usb clock fuel (say stopping t))
  leave (quits, t) = (some 0, drop_bus F seconds usb clock fuel (say stopping t))

  -- main from the opening of the device on.
  unfoldable pub run_opened : Bool × Term D → List Bytes → Option ℕ × Term D
  run_opened (false, t) lines = (some 1, t)
  run_opened (true, t) lines = leave (run_lines 0 lines (say help_hint t))

  abbrev pub pick : Options D → List AdapterInfo → List Bytes → Term D → (ℤ × Term D) × List Bytes
  pick o found lines t =
      if o.index_given then ((o.selector.index, t), lines) else choose_device found lines t

  -- main behind the scan.
  unfoldable pub run_scanned :
      Options D → List AdapterInfo → List Bytes → Term D → Option ℕ × Term D
  run_scanned o [] lines t = (some 1, say (adapters []) t)
  run_scanned o (a ∷ found) lines t =
      let ((chosen, t), lines) = pick o (a ∷ found) lines (say (adapters (a ∷ found)) t) in
      run_opened (open_device F seconds usb clock fuel chosen t) lines

  -- What follows the scan. One that throws ends the program by std::terminate: there is no handler
  -- around it.
  abbrev pub after_scan_of_main :
      Options D → List Bytes → Term D → Result (List AdapterInfo) × Log → Option ℕ × Term D
  after_scan_of_main o lines t (ok found, log) = run_scanned o found lines (record t { log = log })
  after_scan_of_main o lines t (err e, log) = (none, record t { log = log })

  -- main, given the parsed options.
  unfoldable pub run_main : Options D → List Bytes → Log → Option ℕ × Term D
  run_main o lines log =
      after_scan_of_main o lines (new_term o.selector o.config o.show_echo log)
        (scan_adapters usb 0 0 log)
