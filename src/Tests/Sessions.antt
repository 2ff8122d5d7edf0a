-- ===== src/Tests/Sessions.antt =====
-- Sessions of the terminal and runs of the command line tool, on an adapter that works.
use gsusb_canfd.Prelude.{
  ℕ, suc, zero, ◌+◌, ◌≤◌, ◌<◌, ◌≡◌, refl, Bool, true, false, ◌&&◌, ◌==◌, none, some, List, [], ◌∷◌,
  arith, length, if◌then◌else◌, Option,
}
use gsusb_canfd.Prelude.Int.{ℤ, pos, negsuc}
use gsusb_canfd.Text.{Bytes, codes}
use gsusb_canfd.Usb.{Libusb, Log}
use gsusb_canfd.Usb.Discovery.Balance.{open_handles}
use gsusb_canfd.Device.Lifecycle.Closing.{IsReleased}
use gsusb_canfd.Device.Traffic.{Clock}
use gsusb_canfd.Tools.Term.Session as Session
use gsusb_canfd.Tools.Term.Session.{Surroundings, any_device, run_main}
use gsusb_canfd.Tools.Term.Session.Handles.{run_main-IsGone}
use gsusb_canfd.Tools.Cli as Cli
use gsusb_canfd.Tools.Cli.{Cli, Exit, code}
use gsusb_canfd.Tools.Cli.Arguments.{no_options, parse_args}
use gsusb_canfd.Tools.Cli.Run.{run, monitor}
use gsusb_canfd.Errors.{ok}
use gsusb_canfd.Frame.{CanFrame, encode_frame, decode_frame}
use gsusb_canfd.Tools.Term.Send.Kept.{IsKept}
use gsusb_canfd.Tools.Cli.{make_frame}
use gsusb_canfd.Tools.Cli.Frames.{make_frame-IsKept}
use gsusb_canfd.Tools.Cli.Monitor.{monitor-length}
use gsusb_canfd.Tools.Cli.Handles.{run-IsReleased}
use gsusb_canfd.Tests.Fixed.{fixed}
use gsusb_canfd.Tests.Adapter.{usb, busy}
use gsusb_canfd.Tests.Devices.{clock, running, config}
use gsusb_canfd.Tests.Terminal.{seconds, atof}

-- The answer to the legacy request for capabilities: every mode but CAN FD, 80 MHz, and limits.
abbrev capabilities : List ℕ
capabilities =
    0x1B ∷ 0 ∷ 0 ∷ 0 ∷ 0x00 ∷ 0xB4 ∷ 0xC4 ∷ 0x04 ∷ 1 ∷ 0 ∷ 0 ∷ 0 ∷ 16 ∷ 0 ∷ 0 ∷ 0 ∷ 1 ∷ 0 ∷ 0 ∷ 0
    ∷ 8 ∷ 0 ∷ 0 ∷ 0 ∷ 4 ∷ 0 ∷ 0 ∷ 0 ∷ 1 ∷ 0 ∷ 0 ∷ 0 ∷ 10 ∷ 0 ∷ 0 ∷ 0 ∷ 1 ∷ 0 ∷ 0 ∷ 0 ∷ []

abbrev pub adapter : Libusb
adapter = record usb {
  control_transfer = λ log handle req.
      if req.request_type == 0xC1 && req.request == 11
      then (negsuc 8, req.bytes)
      else if req.request_type == 0xC1 && req.request == 4
      then (pos 40, capabilities)
      else (pos req.size, req.bytes);
}

abbrev around : Surroundings
around = record { stopped = λ round. false; turns = λ round. 2 }

abbrev options : Session.Options ℤ
options = record { selector = any_device; config = config; index_given = true; show_echo = false }

abbrev typed : List Bytes
typed = codes "send 123 AA" ∷ codes "quit" ∷ []

ends-eq : (run_main fixed seconds atof adapter clock 3 around options typed busy).0 ≡ some 0
unfolding gsusb_canfd.Prelude.Store.copy_loop gsusb_canfd.Prelude.Store.copy_until
    gsusb_canfd.Wire.put_u32_le gsusb_canfd.Wire.get_u32_le gsusb_canfd.Frame.dlc_search
    gsusb_canfd.Frame.length_to_dlc gsusb_canfd.Frame.dlc_to_length gsusb_canfd.Frame.can_id_word
    gsusb_canfd.Frame.flag_byte gsusb_canfd.Frame.header_bytes gsusb_canfd.Frame.frame_bytes
    gsusb_canfd.Frame.encode_frame gsusb_canfd.Frame.hw_seconds gsusb_canfd.Frame.decode_fields
    gsusb_canfd.Frame.decode_frame gsusb_canfd.Timing.to_bytes gsusb_canfd.Timing.timing_of
    gsusb_canfd.Timing.keep_better gsusb_canfd.Timing.search_loop gsusb_canfd.Timing.propose
    gsusb_canfd.Timing.best_timing gsusb_canfd.Timing.calculate_bit_timing
    gsusb_canfd.Usb.Text.to_lower gsusb_canfd.Usb.Text.text_eq gsusb_canfd.Usb.Text.starts_with
    gsusb_canfd.Usb.Text.contains gsusb_canfd.Usb.Interface.scan_endpoints
    gsusb_canfd.Usb.Interface.try_setting gsusb_canfd.Usb.Interface.try_settings
    gsusb_canfd.Usb.Interface.try_interfaces gsusb_canfd.Usb.Interface.choose_endpoints
    gsusb_canfd.Usb.Interface.scan_flags gsusb_canfd.Usb.Interface.is_vendor_pair
    gsusb_canfd.Usb.Interface.has_vendor_setting gsusb_canfd.Usb.Interface.has_vendor_interface
    gsusb_canfd.Usb.Discovery.is_known_gs_usb_id gsusb_canfd.Usb.Discovery.accepts
    gsusb_canfd.Usb.Discovery.accepts_ids gsusb_canfd.Usb.Discovery.read_text
    gsusb_canfd.Usb.Discovery.has_vendor_bulk_interface gsusb_canfd.Usb.Discovery.looks_like_gs_usb
    gsusb_canfd.Usb.Discovery.read_info gsusb_canfd.Usb.Discovery.inspect
    gsusb_canfd.Usb.Discovery.inspect_all gsusb_canfd.Usb.Discovery.find_devices
    gsusb_canfd.Usb.Discovery.unref_all gsusb_canfd.Usb.Discovery.scan_adapters
    gsusb_canfd.Usb.Transport.close_transport gsusb_canfd.Usb.Transport.abandon
    gsusb_canfd.Usb.Transport.pick_device gsusb_canfd.Usb.Transport.find_bulk_interface
    gsusb_canfd.Usb.Transport.claim_found gsusb_canfd.Usb.Transport.claim_endpoints
    gsusb_canfd.Usb.Transport.open_device gsusb_canfd.Usb.Transport.open_picked
    gsusb_canfd.Usb.Transport.open_found gsusb_canfd.Usb.Transport.open_transport
    gsusb_canfd.Usb.Transport.control_with gsusb_canfd.Usb.Transport.bulk_write
    gsusb_canfd.Usb.Transport.bulk_read gsusb_canfd.Device.Open.parse_const
    gsusb_canfd.Device.Open.selector_for gsusb_canfd.Device.Open.read_legacy
    gsusb_canfd.Device.Open.read_capabilities gsusb_canfd.Device.Open.read_device_info
    gsusb_canfd.Device.Open.handshake gsusb_canfd.Device.Open.open_bus
    gsusb_canfd.Device.Open.open_adapter gsusb_canfd.Device.Configure.mode_bytes
    gsusb_canfd.Device.Configure.mode_flags gsusb_canfd.Device.Configure.configure_data
    gsusb_canfd.Device.Configure.start_modes gsusb_canfd.Device.Configure.apply_timing
    gsusb_canfd.Device.Configure.configure_open gsusb_canfd.Device.Configure.configure
    gsusb_canfd.Device.Configure.reset_mode gsusb_canfd.Device.Configure.close_bus
    gsusb_canfd.Device.Traffic.send_started gsusb_canfd.Device.Traffic.send
    gsusb_canfd.Device.Traffic.decode_read gsusb_canfd.Device.Traffic.read_frame
    gsusb_canfd.Device.Traffic.receive_loop gsusb_canfd.Device.Traffic.receive
    gsusb_canfd.Device.Worker.start gsusb_canfd.Device.Worker.begin_stop
    gsusb_canfd.Device.Worker.advance gsusb_canfd.Device.Worker.stop
    gsusb_canfd.Text.Print.to_digits gsusb_canfd.Text.Print.print_hex
    gsusb_canfd.Text.Print.print_unsigned gsusb_canfd.Text.Scan.read_digits
    gsusb_canfd.Text.Scan.skip_space gsusb_canfd.Text.Scan.strtoul gsusb_canfd.Text.Scan.strtol
    gsusb_canfd.Text.Scan.atoi gsusb_canfd.Frame.Show.show_bytes gsusb_canfd.Frame.Show.to_string
    gsusb_canfd.Tools.Payload.clean gsusb_canfd.Tools.Payload.pairs
    gsusb_canfd.Tools.Payload.parse_data gsusb_canfd.Tools.Payload.clean_all
    gsusb_canfd.Tools.Payload.parse_hex_bytes gsusb_canfd.Tools.HexId.parse_id
    gsusb_canfd.Tools.HexId.id_of_digits gsusb_canfd.Tools.HexId.parse_hex_id
    gsusb_canfd.Tools.Term.Line.trim_front gsusb_canfd.Tools.Term.Line.trim_back
    gsusb_canfd.Tools.Term.Line.trim gsusb_canfd.Tools.Term.Line.split
    gsusb_canfd.Tools.Term.Line.tokens_of gsusb_canfd.Tools.Term.Printing.contains_id
    gsusb_canfd.Tools.Term.Printing.passes_filter gsusb_canfd.Tools.Term.Printing.payload_of
    gsusb_canfd.Tools.Term.Printing.store_payload gsusb_canfd.Tools.Term.Printing.look
    gsusb_canfd.Tools.Term.Printing.print_frame gsusb_canfd.Tools.Term.Printing.print_rx
    gsusb_canfd.Tools.Term.Printing.after_frames gsusb_canfd.Tools.Term.Send.frame_of
    gsusb_canfd.Tools.Term.Send.send_frame gsusb_canfd.Tools.Term.Open.valid_choice
    gsusb_canfd.Tools.Term.Open.choose_line gsusb_canfd.Tools.Term.Open.choose_device
    gsusb_canfd.Tools.Term.Open.background gsusb_canfd.Tools.Term.Open.drop_bus
    gsusb_canfd.Tools.Term.Open.bring_up gsusb_canfd.Tools.Term.Open.opened_or_failed
    gsusb_canfd.Tools.Term.Open.open_device gsusb_canfd.Tools.Term.Command.command_of
    gsusb_canfd.Tools.Term.Command.filter_ids gsusb_canfd.Tools.Term.Command.send_words
    gsusb_canfd.Tools.Term.Command.execute gsusb_canfd.Tools.Term.Command.handle_command
    gsusb_canfd.Tools.Term.Session.flag_of gsusb_canfd.Tools.Term.Session.parse_args
    gsusb_canfd.Tools.Term.Session.background_times gsusb_canfd.Tools.Term.Session.handle_line
    gsusb_canfd.Tools.Term.Session.run_lines gsusb_canfd.Tools.Term.Session.run_opened
    gsusb_canfd.Tools.Term.Session.run_scanned gsusb_canfd.Tools.Term.Session.run_main
ends-eq = refl

run_main-IsGone_example :
    ((run_main fixed seconds atof adapter clock 3 around options typed busy).1.bus ≡ none)
    × ((key : ℕ)
        → open_handles key
            (run_main fixed seconds atof adapter clock 3 around options typed busy).1.log
          ≡ open_handles key busy)
run_main-IsGone_example =
    run_main-IsGone fixed seconds atof adapter clock 3 around options typed busy 0 ends-eq

-- `send 123 AABB`, and `monitor` with a limit of two lines.
abbrev sending : Cli.Options ℤ
sending = record (no_options fixed) {
  config = config;
  id = 0x123;
  bytes = 0xAA ∷ 0xBB ∷ [];
  count = pos 2;
}

abbrev never : ℕ → Bool
never round = false

sends-eq : (run fixed seconds adapter clock 3 never false sending 5 busy).0 ≡ code 0
unfolding gsusb_canfd.Prelude.Store.copy_loop gsusb_canfd.Prelude.Store.copy_until
    gsusb_canfd.Wire.put_u32_le gsusb_canfd.Wire.get_u32_le gsusb_canfd.Frame.dlc_search
    gsusb_canfd.Frame.length_to_dlc gsusb_canfd.Frame.dlc_to_length gsusb_canfd.Frame.can_id_word
    gsusb_canfd.Frame.flag_byte gsusb_canfd.Frame.header_bytes gsusb_canfd.Frame.frame_bytes
    gsusb_canfd.Frame.encode_frame gsusb_canfd.Frame.hw_seconds gsusb_canfd.Frame.decode_fields
    gsusb_canfd.Frame.decode_frame gsusb_canfd.Timing.to_bytes gsusb_canfd.Timing.timing_of
    gsusb_canfd.Timing.keep_better gsusb_canfd.Timing.search_loop gsusb_canfd.Timing.propose
    gsusb_canfd.Timing.best_timing gsusb_canfd.Timing.calculate_bit_timing
    gsusb_canfd.Usb.Text.to_lower gsusb_canfd.Usb.Text.text_eq gsusb_canfd.Usb.Text.starts_with
    gsusb_canfd.Usb.Text.contains gsusb_canfd.Usb.Interface.scan_endpoints
    gsusb_canfd.Usb.Interface.try_setting gsusb_canfd.Usb.Interface.try_settings
    gsusb_canfd.Usb.Interface.try_interfaces gsusb_canfd.Usb.Interface.choose_endpoints
    gsusb_canfd.Usb.Interface.scan_flags gsusb_canfd.Usb.Interface.is_vendor_pair
    gsusb_canfd.Usb.Interface.has_vendor_setting gsusb_canfd.Usb.Interface.has_vendor_interface
    gsusb_canfd.Usb.Discovery.is_known_gs_usb_id gsusb_canfd.Usb.Discovery.accepts
    gsusb_canfd.Usb.Discovery.accepts_ids gsusb_canfd.Usb.Discovery.read_text
    gsusb_canfd.Usb.Discovery.has_vendor_bulk_interface gsusb_canfd.Usb.Discovery.looks_like_gs_usb
    gsusb_canfd.Usb.Discovery.read_info gsusb_canfd.Usb.Discovery.inspect
    gsusb_canfd.Usb.Discovery.inspect_all gsusb_canfd.Usb.Discovery.find_devices
    gsusb_canfd.Usb.Discovery.unref_all gsusb_canfd.Usb.Discovery.scan_adapters
    gsusb_canfd.Usb.Transport.close_transport gsusb_canfd.Usb.Transport.abandon
    gsusb_canfd.Usb.Transport.pick_device gsusb_canfd.Usb.Transport.find_bulk_interface
    gsusb_canfd.Usb.Transport.claim_found gsusb_canfd.Usb.Transport.claim_endpoints
    gsusb_canfd.Usb.Transport.open_device gsusb_canfd.Usb.Transport.open_picked
    gsusb_canfd.Usb.Transport.open_found gsusb_canfd.Usb.Transport.open_transport
    gsusb_canfd.Usb.Transport.control_with gsusb_canfd.Usb.Transport.bulk_write
    gsusb_canfd.Usb.Transport.bulk_read gsusb_canfd.Device.Open.parse_const
    gsusb_canfd.Device.Open.selector_for gsusb_canfd.Device.Open.read_legacy
    gsusb_canfd.Device.Open.read_capabilities gsusb_canfd.Device.Open.read_device_info
    gsusb_canfd.Device.Open.handshake gsusb_canfd.Device.Open.open_bus
    gsusb_canfd.Device.Open.open_adapter gsusb_canfd.Device.Configure.mode_bytes
    gsusb_canfd.Device.Configure.mode_flags gsusb_canfd.Device.Configure.configure_data
    gsusb_canfd.Device.Configure.start_modes gsusb_canfd.Device.Configure.apply_timing
    gsusb_canfd.Device.Configure.configure_open gsusb_canfd.Device.Configure.configure
    gsusb_canfd.Device.Configure.reset_mode gsusb_canfd.Device.Configure.close_bus
    gsusb_canfd.Device.Traffic.send_started gsusb_canfd.Device.Traffic.send
    gsusb_canfd.Device.Traffic.decode_read gsusb_canfd.Device.Traffic.read_frame
    gsusb_canfd.Device.Traffic.receive_loop gsusb_canfd.Device.Traffic.receive
    gsusb_canfd.Text.Print.to_digits gsusb_canfd.Text.Print.print_hex
    gsusb_canfd.Text.Print.print_unsigned gsusb_canfd.Text.Scan.read_digits
    gsusb_canfd.Text.Scan.skip_space gsusb_canfd.Text.Scan.strtoul gsusb_canfd.Text.Scan.strtol
    gsusb_canfd.Text.Scan.atoi gsusb_canfd.Frame.Show.show_bytes gsusb_canfd.Frame.Show.to_string
    gsusb_canfd.Tools.Cli.make_frame gsusb_canfd.Tools.Cli.Run.selector_of
    gsusb_canfd.Tools.Cli.Run.monitor gsusb_canfd.Tools.Cli.Run.send_once
    gsusb_canfd.Tools.Cli.Run.watch gsusb_canfd.Tools.Cli.Run.run_calls
    gsusb_canfd.Tools.Cli.Run.run gsusb_canfd.Tools.Cli.Run.list_from
    gsusb_canfd.Tools.Cli.Run.list_command gsusb_canfd.Tools.Cli.Run.task_of
sends-eq = refl

run-IsReleased_example :
    IsReleased adapter
      (λ key. open_handles key busy)
      (run fixed seconds adapter clock 3 never false sending 5 busy).1.bus
run-IsReleased_example =
    run-IsReleased fixed seconds adapter clock 3 never false sending 5 busy 0 sends-eq

abbrev watching : Cli
watching = record { bus = running; printed = [] }

monitor-length_example :
    length (monitor fixed seconds usb clock 3 never sending 9 0 0 watching).1.printed + 0
    ≤ length watching.printed + 2
monitor-length_example =
    monitor-length fixed seconds usb clock 3 never sending 2 refl 9 0 0 watching (omega arith)

make_frame-IsKept_example :
    (sent : CanFrame ℤ) × (out : List ℕ) × (got : CanFrame ℤ) × (make_frame fixed 0x1ABCDEF
        (0xAA ∷ 0xBB ∷ [])
        true
      ≡ some sent)
    × (encode_frame (record sent { channel = 1 }) 1 ≡ ok out)
    × (decode_frame fixed (pos 7) out (length out) false ≡ ok got)
    × IsKept 0x1ABCDEF (0xAA ∷ 0xBB ∷ []) false got
make_frame-IsKept_example =
    make_frame-IsKept fixed (pos 7) 0x1ABCDEF (0xAA ∷ 0xBB ∷ []) true 1 1 (omega arith)
      (omega arith) (omega arith)

-- `--vid 0x1D50 123 AABB`
abbrev words : List Bytes
words = codes "--vid" ∷ codes "0x1D50" ∷ codes "123" ∷ codes "AABB" ∷ []

abbrev from_words : Cli.Options ℤ
from_words = record (no_options fixed) { vid = 0x1D50; id = 0x123; bytes = 0xAA ∷ 0xBB ∷ [] }

words-eq : parse_args atof words (no_options fixed) ≡ some from_words
unfolding parse_args gsusb_canfd.Tools.Cli.Arguments.flag_of
    gsusb_canfd.Tools.Cli.Arguments.set_plain gsusb_canfd.Usb.Text.text_eq
    gsusb_canfd.Text.Scan.strtoul gsusb_canfd.Text.Scan.read_digits gsusb_canfd.Text.Scan.skip_space
    gsusb_canfd.Tools.HexId.parse_id gsusb_canfd.Tools.Payload.parse_data
    gsusb_canfd.Tools.Payload.clean gsusb_canfd.Tools.Payload.pairs
words-eq = refl
