-- ===== src/Tests/Examples.antt =====
-- Runs of the examples on an adapter that works.
use gsusb_canfd.Prelude.{ℕ, ◌^◌, ◌<◌, ◌≡◌, refl, Bool, true, false, none, some, [], ◌∷◌, arith, leb}
use gsusb_canfd.Prelude.Int.{ℤ}
use gsusb_canfd.Errors.{ok}
use gsusb_canfd.Usb.Discovery.Balance.{open_handles}
use gsusb_canfd.Device.Lifecycle.Closing.{IsReleased}
use gsusb_canfd.Examples.{Running, Ending, code}
use gsusb_canfd.Examples.Demo.{Args, Notice}
use gsusb_canfd.Examples.Demo.Arguments.{default_args}
use gsusb_canfd.Examples.Demo.Counts.{Tally}
use gsusb_canfd.Examples.Demo.Counts.Tallied.{IsTally, lines_of}
use gsusb_canfd.Examples.Demo.Main.{Surroundings, watch, start_tally, run_demo}
use gsusb_canfd.Examples.Demo.Main.Handles.{run_demo-IsReleased}
use gsusb_canfd.Examples.Demo.Main.Summary.{watch-IsTally}
use gsusb_canfd.Examples.Trigger.{run_trigger}
use gsusb_canfd.Examples.Trigger.Handles.{run_trigger-IsFailure}
use gsusb_canfd.Tests.Fixed.{fixed}
use gsusb_canfd.Tests.Adapter.{usb, busy}
use gsusb_canfd.Tests.Devices.{clock, running, config}
use gsusb_canfd.Tests.Terminal.{seconds}
use gsusb_canfd.Tests.Sessions.{adapter}

-- Two rounds, until the signal.
abbrev around : Surroundings
around = record {
  stopped = λ round. leb 2 round;
  checked = λ round. round;
  now = λ round. round;
  deadline_base = 0;
  trigger_base = 0;
  report_base = 0;
  window_base = 0;
}

-- `--classic --rx-id 123 --all-frames`
abbrev args : Args ℤ
args = record (default_args fixed) {
  classic = true;
  config = config;
  rx_id = 0x123;
  print_all = true;
}

demo-eq : (run_demo fixed seconds adapter clock 3 around args 5 busy).0 ≡ code 0
unfolding gsusb_canfd.Prelude.Store.copy_loop gsusb_canfd.Prelude.Store.copy_until
    gsusb_canfd.Wire.put_u32_le gsusb_canfd.Wire.get_u32_le gsusb_canfd.Frame.dlc_search
    gsusb_canfd.Frame.length_to_dlc gsusb_canfd.Frame.dlc_to_length gsusb_canfd.Frame.can_id_word
    gsusb_canfd.Frame.flag_byte gsusb_canfd.Frame.header_bytes gsusb_canfd.Frame.frame_bytes
    gsusb_canfd.Frame.encode_frame gsusb_canfd.Frame.hw_seconds gsusb_canfd.Frame.decode_fields
    gsusb_canfd.Frame.decode_frame gsusb_canfd.Timing.to_bytes gsusb_canfd.Timing.timing_of
    gsusb_canfd.Timing.keep_better gsusb_canfd.Timing.search_loop gsusb_canfd.Timing.propose
    gsusb_canfd.Timing.best_timing gsusb_canfd.Timing.calculate_bit_timing
    gsusb_canfd.Usb.Text.to_lower gsusb_canfd.Usb.Text.text_eq gsusb_canfd.Usb.Text.starts_with
    gsusb_canfd.Usb.Text.contains gsusb_canfd.Usb.Interface.scan_endpoints
    gsusb_canfd.Usb.Interface.try_setting gsusb_canfd.Usb.Interface.try_settings
    gsusb_canfd.Usb.Interface.try_interfaces gsusb_canfd.Usb.Interface.choose_endpoints
    gsusb_canfd.Usb.Interface.scan_flags gsusb_canfd.Usb.Interface.is_vendor_pair
    gsusb_canfd.Usb.Interface.has_vendor_setting gsusb_canfd.Usb.Interface.has_vendor_interface
    gsusb_canfd.Usb.Discovery.is_known_gs_usb_id gsusb_canfd.Usb.Discovery.accepts
    gsusb_canfd.Usb.Discovery.accepts_ids gsusb_canfd.Usb.Discovery.read_text
    gsusb_canfd.Usb.Discovery.has_vendor_bulk_interface gsusb_canfd.Usb.Discovery.looks_like_gs_usb
    gsusb_canfd.Usb.Discovery.read_info gsusb_canfd.Usb.Discovery.inspect
    gsusb_canfd.Usb.Discovery.inspect_all gsusb_canfd.Usb.Discovery.find_devices
    gsusb_canfd.Usb.Discovery.unref_all gsusb_canfd.Usb.Discovery.scan_adapters
    gsusb_canfd.Usb.Transport.close_transport gsusb_canfd.Usb.Transport.abandon
    gsusb_canfd.Usb.Transport.pick_device gsusb_canfd.Usb.Transport.find_bulk_interface
    gsusb_canfd.Usb.Transport.claim_found gsusb_canfd.Usb.Transport.claim_endpoints
    gsusb_canfd.Usb.Transport.open_device gsusb_canfd.Usb.Transport.open_picked
    gsusb_canfd.Usb.Transport.open_found gsusb_canfd.Usb.Transport.open_transport
    gsusb_canfd.Usb.Transport.control_with gsusb_canfd.Usb.Transport.bulk_write
    gsusb_canfd.Usb.Transport.bulk_read gsusb_canfd.Device.Open.parse_const
    gsusb_canfd.Device.Open.selector_for gsusb_canfd.Device.Open.read_legacy
    gsusb_canfd.Device.Open.read_capabilities gsusb_canfd.Device.Open.read_device_info
    gsusb_canfd.Device.Open.handshake gsusb_canfd.Device.Open.open_bus
    gsusb_canfd.Device.Open.open_adapter gsusb_canfd.Device.Configure.mode_bytes
    gsusb_canfd.Device.Configure.mode_flags gsusb_canfd.Device.Configure.configure_data
    gsusb_canfd.Device.Configure.start_modes gsusb_canfd.Device.Configure.apply_timing
    gsusb_canfd.Device.Configure.configure_open gsusb_canfd.Device.Configure.configure
    gsusb_canfd.Device.Configure.reset_mode gsusb_canfd.Device.Configure.close_bus
    gsusb_canfd.Device.Traffic.send_started gsusb_canfd.Device.Traffic.send
    gsusb_canfd.Device.Traffic.decode_read gsusb_canfd.Device.Traffic.read_frame
    gsusb_canfd.Device.Traffic.receive_loop gsusb_canfd.Device.Traffic.receive
    gsusb_canfd.Text.Print.to_digits gsusb_canfd.Text.Print.print_hex
    gsusb_canfd.Text.Print.print_unsigned gsusb_canfd.Text.Scan.read_digits
    gsusb_canfd.Text.Scan.skip_space gsusb_canfd.Text.Scan.strtoul gsusb_canfd.Text.Scan.strtol
    gsusb_canfd.Text.Scan.atoi gsusb_canfd.Frame.Show.show_bytes gsusb_canfd.Frame.Show.to_string
    gsusb_canfd.Tools.Payload.clean gsusb_canfd.Tools.Payload.pairs
    gsusb_canfd.Tools.Payload.parse_data gsusb_canfd.Tools.Payload.clean_all
    gsusb_canfd.Tools.Payload.parse_hex_bytes gsusb_canfd.Examples.Demo.feature_string
    gsusb_canfd.Examples.Demo.make_frame gsusb_canfd.Examples.Demo.Counts.increment
    gsusb_canfd.Examples.Demo.Counts.note_frame gsusb_canfd.Examples.Demo.Counts.Tallied.sum_of
    gsusb_canfd.Examples.Demo.Counts.Tallied.IsAscending
    gsusb_canfd.Examples.Demo.Counts.Tallied.IsOnly
    gsusb_canfd.Examples.Demo.Counts.Tallied.lines_of gsusb_canfd.Examples.Demo.Main.scan_lines
    gsusb_canfd.Examples.Demo.Main.count_lines gsusb_canfd.Examples.Demo.Main.turn
    gsusb_canfd.Examples.Demo.Main.watch gsusb_canfd.Examples.Demo.Main.traffic
    gsusb_canfd.Examples.Demo.Main.opened gsusb_canfd.Examples.Demo.Main.session
    gsusb_canfd.Examples.Demo.Main.run_demo gsusb_canfd.Examples.Trigger.turn
    gsusb_canfd.Examples.Trigger.watch gsusb_canfd.Examples.Trigger.session
    gsusb_canfd.Examples.Trigger.run_trigger
demo-eq = refl

run_demo-IsReleased_example :
    IsReleased adapter
      (λ key. open_handles key busy)
      (run_demo fixed seconds adapter clock 3 around args 5 busy).1.bus
run_demo-IsReleased_example =
    run_demo-IsReleased fixed seconds adapter clock 3 around args 5 busy 0 demo-eq

abbrev watching : Running (Notice ℤ)
watching = record { bus = running; printed = [] }

-- What the two frames make of the counts.
abbrev two_frames : Tally
two_frames = record {
  counts = (0x123, 2) ∷ [];
  last = some (0xAA ∷ 0xBB ∷ []);
  total = 2;
  window = 2;
  last_trigger = 0;
  next_report = 2000000000;
  window_start = 0;
}

watch-eq :
    (watch fixed seconds usb clock 3 around args 5 0
      (start_tally fixed seconds usb clock 3 around)
      watching).0
    ≡ ok (some two_frames)
unfolding gsusb_canfd.Prelude.Store.copy_loop gsusb_canfd.Prelude.Store.copy_until
    gsusb_canfd.Wire.put_u32_le gsusb_canfd.Wire.get_u32_le gsusb_canfd.Frame.dlc_search
    gsusb_canfd.Frame.length_to_dlc gsusb_canfd.Frame.dlc_to_length gsusb_canfd.Frame.can_id_word
    gsusb_canfd.Frame.flag_byte gsusb_canfd.Frame.header_bytes gsusb_canfd.Frame.frame_bytes
    gsusb_canfd.Frame.encode_frame gsusb_canfd.Frame.hw_seconds gsusb_canfd.Frame.decode_fields
    gsusb_canfd.Frame.decode_frame gsusb_canfd.Timing.to_bytes gsusb_canfd.Timing.timing_of
    gsusb_canfd.Timing.keep_better gsusb_canfd.Timing.search_loop gsusb_canfd.Timing.propose
    gsusb_canfd.Timing.best_timing gsusb_canfd.Timing.calculate_bit_timing
    gsusb_canfd.Usb.Text.to_lower gsusb_canfd.Usb.Text.text_eq gsusb_canfd.Usb.Text.starts_with
    gsusb_canfd.Usb.Text.contains gsusb_canfd.Usb.Interface.scan_endpoints
    gsusb_canfd.Usb.Interface.try_setting gsusb_canfd.Usb.Interface.try_settings
    gsusb_canfd.Usb.Interface.try_interfaces gsusb_canfd.Usb.Interface.choose_endpoints
    gsusb_canfd.Usb.Interface.scan_flags gsusb_canfd.Usb.Interface.is_vendor_pair
    gsusb_canfd.Usb.Interface.has_vendor_setting gsusb_canfd.Usb.Interface.has_vendor_interface
    gsusb_canfd.Usb.Discovery.is_known_gs_usb_id gsusb_canfd.Usb.Discovery.accepts
    gsusb_canfd.Usb.Discovery.accepts_ids gsusb_canfd.Usb.Discovery.read_text
    gsusb_canfd.Usb.Discovery.has_vendor_bulk_interface gsusb_canfd.Usb.Discovery.looks_like_gs_usb
    gsusb_canfd.Usb.Discovery.read_info gsusb_canfd.Usb.Discovery.inspect
    gsusb_canfd.Usb.Discovery.inspect_all gsusb_canfd.Usb.Discovery.find_devices
    gsusb_canfd.Usb.Discovery.unref_all gsusb_canfd.Usb.Discovery.scan_adapters
    gsusb_canfd.Usb.Transport.close_transport gsusb_canfd.Usb.Transport.abandon
    gsusb_canfd.Usb.Transport.pick_device gsusb_canfd.Usb.Transport.find_bulk_interface
    gsusb_canfd.Usb.Transport.claim_found gsusb_canfd.Usb.Transport.claim_endpoints
    gsusb_canfd.Usb.Transport.open_device gsusb_canfd.Usb.Transport.open_picked
    gsusb_canfd.Usb.Transport.open_found gsusb_canfd.Usb.Transport.open_transport
    gsusb_canfd.Usb.Transport.control_with gsusb_canfd.Usb.Transport.bulk_write
    gsusb_canfd.Usb.Transport.bulk_read gsusb_canfd.Device.Open.parse_const
    gsusb_canfd.Device.Open.selector_for gsusb_canfd.Device.Open.read_legacy
    gsusb_canfd.Device.Open.read_capabilities gsusb_canfd.Device.Open.read_device_info
    gsusb_canfd.Device.Open.handshake gsusb_canfd.Device.Open.open_bus
    gsusb_canfd.Device.Open.open_adapter gsusb_canfd.Device.Configure.mode_bytes
    gsusb_canfd.Device.Configure.mode_flags gsusb_canfd.Device.Configure.configure_data
    gsusb_canfd.Device.Configure.start_modes gsusb_canfd.Device.Configure.apply_timing
    gsusb_canfd.Device.Configure.configure_open gsusb_canfd.Device.Configure.configure
    gsusb_canfd.Device.Configure.reset_mode gsusb_canfd.Device.Configure.close_bus
    gsusb_canfd.Device.Traffic.send_started gsusb_canfd.Device.Traffic.send
    gsusb_canfd.Device.Traffic.decode_read gsusb_canfd.Device.Traffic.read_frame
    gsusb_canfd.Device.Traffic.receive_loop gsusb_canfd.Device.Traffic.receive
    gsusb_canfd.Text.Print.to_digits gsusb_canfd.Text.Print.print_hex
    gsusb_canfd.Text.Print.print_unsigned gsusb_canfd.Text.Scan.read_digits
    gsusb_canfd.Text.Scan.skip_space gsusb_canfd.Text.Scan.strtoul gsusb_canfd.Text.Scan.strtol
    gsusb_canfd.Text.Scan.atoi gsusb_canfd.Frame.Show.show_bytes gsusb_canfd.Frame.Show.to_string
    gsusb_canfd.Tools.Payload.clean gsusb_canfd.Tools.Payload.pairs
    gsusb_canfd.Tools.Payload.parse_data gsusb_canfd.Tools.Payload.clean_all
    gsusb_canfd.Tools.Payload.parse_hex_bytes gsusb_canfd.Examples.Demo.feature_string
    gsusb_canfd.Examples.Demo.make_frame gsusb_canfd.Examples.Demo.Counts.increment
    gsusb_canfd.Examples.Demo.Counts.note_frame gsusb_canfd.Examples.Demo.Counts.Tallied.sum_of
    gsusb_canfd.Examples.Demo.Counts.Tallied.IsAscending
    gsusb_canfd.Examples.Demo.Counts.Tallied.IsOnly
    gsusb_canfd.Examples.Demo.Counts.Tallied.lines_of gsusb_canfd.Examples.Demo.Main.scan_lines
    gsusb_canfd.Examples.Demo.Main.count_lines gsusb_canfd.Examples.Demo.Main.turn
    gsusb_canfd.Examples.Demo.Main.watch gsusb_canfd.Examples.Demo.Main.traffic
    gsusb_canfd.Examples.Demo.Main.opened gsusb_canfd.Examples.Demo.Main.session
    gsusb_canfd.Examples.Demo.Main.run_demo gsusb_canfd.Examples.Trigger.turn
    gsusb_canfd.Examples.Trigger.watch gsusb_canfd.Examples.Trigger.session
    gsusb_canfd.Examples.Trigger.run_trigger
watch-eq = refl

watch-IsTally_example :
    IsTally args
      (lines_of watching.printed)
      5
      (watch fixed seconds usb clock 3 around args 5 0
        (start_tally fixed seconds usb clock 3 around)
        watching).1.printed
      two_frames
watch-IsTally_example =
    watch-IsTally fixed seconds usb clock 3 around args 5 watching two_frames (omega arith) watch-eq

-- The adapter has no CAN FD, which the program asks for.
trigger-eq : (run_trigger fixed seconds adapter clock 3 (λ round. round) 0 5 busy).0 ≡ code 1
unfolding gsusb_canfd.Prelude.Store.copy_loop gsusb_canfd.Prelude.Store.copy_until
    gsusb_canfd.Wire.put_u32_le gsusb_canfd.Wire.get_u32_le gsusb_canfd.Frame.dlc_search
    gsusb_canfd.Frame.length_to_dlc gsusb_canfd.Frame.dlc_to_length gsusb_canfd.Frame.can_id_word
    gsusb_canfd.Frame.flag_byte gsusb_canfd.Frame.header_bytes gsusb_canfd.Frame.frame_bytes
    gsusb_canfd.Frame.encode_frame gsusb_canfd.Frame.hw_seconds gsusb_canfd.Frame.decode_fields
    gsusb_canfd.Frame.decode_frame gsusb_canfd.Timing.to_bytes gsusb_canfd.Timing.timing_of
    gsusb_canfd.Timing.keep_better gsusb_canfd.Timing.search_loop gsusb_canfd.Timing.propose
    gsusb_canfd.Timing.best_timing gsusb_canfd.Timing.calculate_bit_timing
    gsusb_canfd.Usb.Text.to_lower gsusb_canfd.Usb.Text.text_eq gsusb_canfd.Usb.Text.starts_with
    gsusb_canfd.Usb.Text.contains gsusb_canfd.Usb.Interface.scan_endpoints
    gsusb_canfd.Usb.Interface.try_setting gsusb_canfd.Usb.Interface.try_settings
    gsusb_canfd.Usb.Interface.try_interfaces gsusb_canfd.Usb.Interface.choose_endpoints
    gsusb_canfd.Usb.Interface.scan_flags gsusb_canfd.Usb.Interface.is_vendor_pair
    gsusb_canfd.Usb.Interface.has_vendor_setting gsusb_canfd.Usb.Interface.has_vendor_interface
    gsusb_canfd.Usb.Discovery.is_known_gs_usb_id gsusb_canfd.Usb.Discovery.accepts
    gsusb_canfd.Usb.Discovery.accepts_ids gsusb_canfd.Usb.Discovery.read_text
    gsusb_canfd.Usb.Discovery.has_vendor_bulk_interface gsusb_canfd.Usb.Discovery.looks_like_gs_usb
    gsusb_canfd.Usb.Discovery.read_info gsusb_canfd.Usb.Discovery.inspect
    gsusb_canfd.Usb.Discovery.inspect_all gsusb_canfd.Usb.Discovery.find_devices
    gsusb_canfd.Usb.Discovery.unref_all gsusb_canfd.Usb.Discovery.scan_adapters
    gsusb_canfd.Usb.Transport.close_transport gsusb_canfd.Usb.Transport.abandon
    gsusb_canfd.Usb.Transport.pick_device gsusb_canfd.Usb.Transport.find_bulk_interface
    gsusb_canfd.Usb.Transport.claim_found gsusb_canfd.Usb.Transport.claim_endpoints
    gsusb_canfd.Usb.Transport.open_device gsusb_canfd.Usb.Transport.open_picked
    gsusb_canfd.Usb.Transport.open_found gsusb_canfd.Usb.Transport.open_transport
    gsusb_canfd.Usb.Transport.control_with gsusb_canfd.Usb.Transport.bulk_write
    gsusb_canfd.Usb.Transport.bulk_read gsusb_canfd.Device.Open.parse_const
    gsusb_canfd.Device.Open.selector_for gsusb_canfd.Device.Open.read_legacy
    gsusb_canfd.Device.Open.read_capabilities gsusb_canfd.Device.Open.read_device_info
    gsusb_canfd.Device.Open.handshake gsusb_canfd.Device.Open.open_bus
    gsusb_canfd.Device.Open.open_adapter gsusb_canfd.Device.Configure.mode_bytes
    gsusb_canfd.Device.Configure.mode_flags gsusb_canfd.Device.Configure.configure_data
    gsusb_canfd.Device.Configure.start_modes gsusb_canfd.Device.Configure.apply_timing
    gsusb_canfd.Device.Configure.configure_open gsusb_canfd.Device.Configure.configure
    gsusb_canfd.Device.Configure.reset_mode gsusb_canfd.Device.Configure.close_bus
    gsusb_canfd.Device.Traffic.send_started gsusb_canfd.Device.Traffic.send
    gsusb_canfd.Device.Traffic.decode_read gsusb_canfd.Device.Traffic.read_frame
    gsusb_canfd.Device.Traffic.receive_loop gsusb_canfd.Device.Traffic.receive
    gsusb_canfd.Text.Print.to_digits gsusb_canfd.Text.Print.print_hex
    gsusb_canfd.Text.Print.print_unsigned gsusb_canfd.Text.Scan.read_digits
    gsusb_canfd.Text.Scan.skip_space gsusb_canfd.Text.Scan.strtoul gsusb_canfd.Text.Scan.strtol
    gsusb_canfd.Text.Scan.atoi gsusb_canfd.Frame.Show.show_bytes gsusb_canfd.Frame.Show.to_string
    gsusb_canfd.Tools.Payload.clean gsusb_canfd.Tools.Payload.pairs
    gsusb_canfd.Tools.Payload.parse_data gsusb_canfd.Tools.Payload.clean_all
    gsusb_canfd.Tools.Payload.parse_hex_bytes gsusb_canfd.Examples.Demo.feature_string
    gsusb_canfd.Examples.Demo.make_frame gsusb_canfd.Examples.Demo.Counts.increment
    gsusb_canfd.Examples.Demo.Counts.note_frame gsusb_canfd.Examples.Demo.Counts.Tallied.sum_of
    gsusb_canfd.Examples.Demo.Counts.Tallied.IsAscending
    gsusb_canfd.Examples.Demo.Counts.Tallied.IsOnly
    gsusb_canfd.Examples.Demo.Counts.Tallied.lines_of gsusb_canfd.Examples.Demo.Main.scan_lines
    gsusb_canfd.Examples.Demo.Main.count_lines gsusb_canfd.Examples.Demo.Main.turn
    gsusb_canfd.Examples.Demo.Main.watch gsusb_canfd.Examples.Demo.Main.traffic
    gsusb_canfd.Examples.Demo.Main.opened gsusb_canfd.Examples.Demo.Main.session
    gsusb_canfd.Examples.Demo.Main.run_demo gsusb_canfd.Examples.Trigger.turn
    gsusb_canfd.Examples.Trigger.watch gsusb_canfd.Examples.Trigger.session
    gsusb_canfd.Examples.Trigger.run_trigger
trigger-eq = refl

run_trigger-IsFailure_example :
    (◌≡◌ {A = ℕ} 1 1)
    × IsReleased adapter
        (λ key. open_handles key busy)
        (run_trigger fixed seconds adapter clock 3 (λ round. round) 0 5 busy).1.bus
run_trigger-IsFailure_example =
    run_trigger-IsFailure fixed seconds adapter clock 3 (λ round. round) 0 5 busy 1 trigger-eq
