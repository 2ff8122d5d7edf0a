-- ===== src/Tests/Devices.antt =====
-- The bus object on that adapter: opened, sending and receiving, and closed.
use gsusb_canfd.Prelude.{
  ℕ, ◌+◌, ◌*◌, ◌≤◌, ◌≡◌, refl, ap, sym, ◌∙◌, true, false, some, List, [], ◌∷◌, arith, replicate,
  Option, length, suc,
}
use gsusb_canfd.Prelude.Int.{ℤ, pos}
use gsusb_canfd.Errors.{ok}
use gsusb_canfd.Frame.{CanFrame, k_echo_none, dlc_to_length, encode_frame, length_to_dlc}
use gsusb_canfd.Frame.Dlc.{IsLeastDlc}
use gsusb_canfd.Frame.RoundTrip.{IsReceived}
use gsusb_canfd.Usb.{Libusb, Log, BulkRequest, bulk}
use gsusb_canfd.Usb.Discovery.Balance.{open_handles}
use gsusb_canfd.Usb.Transport.{UsbTransport, transport_is_open, control_with, bulk_write}
use gsusb_canfd.Device.State.{Bus, BusConfig, new_impl}
use gsusb_canfd.Device.Open.{open_bus}
use gsusb_canfd.Device.Configure.{configure, configure_open, apply_timing, start_modes, close_bus}
use gsusb_canfd.Device.Traffic.{Clock, received, started_transport, send, send_started, receive}
use gsusb_canfd.Device.Traffic.Receive.{has_ended, IsTimed, receive-ends}
use gsusb_canfd.Device.Traffic.Link.{read_request, send-receive}
use gsusb_canfd.Device.Traffic.Send.{encoded_for, Wrote, send-IsSent}
use gsusb_canfd.Device.Lifecycle.{IsSound}
use gsusb_canfd.Device.Lifecycle.Closing.{IsReleased}
use gsusb_canfd.Device.Lifecycle.Machine.{
  fresh, Reachable, here, after, opens, configures, Reachable-IsSound, close_bus-Reachable,
}
use gsusb_canfd.Device.Lifecycle.Phases.{transferring, sends, Allows, IsInert, perform, phase_of}
use gsusb_canfd.Device.Lifecycle.Phases.Followed.{perform-Allows}
use gsusb_canfd.Timing.{
  calculate_bit_timing, best_timing, search_loop, propose, timing_of, keep_better,
}
use gsusb_canfd.Device.Configure.Started.{IsStarted, configure-IsStarted}
use gsusb_canfd.Tests.Timings.{limits}
use gsusb_canfd.Tests.Fixed.{fixed}
use gsusb_canfd.Tests.Frames.{one_byte}
use gsusb_canfd.Tests.Adapter.{usb, selector, busy}

-- A clock that goes on by a microsecond with each reading.
abbrev pub clock : Clock ℤ
clock = record { nanoseconds = λ log reading. reading * 1000; host_seconds = λ log. pos 7 }

abbrev pub config : BusConfig ℤ
config = record {
  bitrate = 500000;
  sample_point = fixed.literal 8 1;
  data_bitrate = 2000000;
  data_sample_point = fixed.literal 8 1;
  fd = false;
  listen_only = false;
  loopback = false;
  one_shot = false;
  hw_timestamp = false;
  drop_echo = true;
}

abbrev opened_bus : Bus
opened_bus = (open_bus usb (fresh selector busy)).1

abbrev pub configured_bus : Bus
configured_bus = (configure fixed usb config opened_bus).1

configured-Reachable : Reachable fixed usb clock (fresh selector busy) configured_bus
configured-Reachable =
    after (after here (opens (fresh selector busy))) (configures config opened_bus)

Reachable-IsSound_example : IsSound (λ key. open_handles key busy) configured_bus
Reachable-IsSound_example =
    Reachable-IsSound fixed usb clock selector busy configured_bus configured-Reachable

close_bus-Reachable_example :
    IsReleased usb (λ key. open_handles key busy) (close_bus usb configured_bus)
close_bus-Reachable_example =
    close_bus-Reachable fixed usb clock selector busy configured_bus configured-Reachable

perform-Allows_example :
    Allows transferring
      (phase_of configured_bus.impl)
      (perform fixed usb clock (sends one_byte false) configured_bus).0
      (phase_of (perform fixed usb clock (sends one_byte false) configured_bus).1.impl)
    × IsInert transferring
        (phase_of configured_bus.impl)
        (perform fixed usb clock (sends one_byte false) configured_bus).1
        configured_bus
perform-Allows_example =
    perform-Allows fixed usb clock selector busy configured_bus configured-Reachable
      (sends one_byte false)

-- A bus that has been started.
abbrev transport : UsbTransport
transport = record {
  selector = selector;
  handle = some 1;
  ep_in = 0x81;
  ep_out = 0x02;
  interface_number = pos 1;
  interface_claimed = true;
}

abbrev pub running : Bus
running = record {
  impl = record (new_impl selector) {
    transport = some transport;
    started = true;
    drop_echo = true;
    hw_timestamp = false;
  };
  log = busy;
}

abbrev read_once : Bus
read_once = (receive fixed usb clock (pos 100) 3 running).1

abbrev got : CanFrame ℤ
got = record one_byte { bytes = 0xAA ∷ 0xBB ∷ replicate 62 0; size = 2; timestamp = pos 7 }

pub ticks :
    (log : Log) (reading : ℕ)
    → clock.nanoseconds running.log 0 + reading ≤ clock.nanoseconds log reading
ticks log reading = omega arith

receive-ends_example :
    (has_ended (receive fixed usb clock (pos 100) 100000001 running).0 ≡ true)
    × IsTimed 100 running.log (receive fixed usb clock (pos 100) 100000001 running).1.log
receive-ends_example =
    receive-ends fixed usb clock 100 100000001 running (omega arith) (omega arith) ticks
      (omega arith)

abbrev sent_once : Bus
sent_once = (send usb one_byte false running).1

sent-eq : send usb one_byte false running ≡ (ok tt, sent_once)
unfolding send send_started bulk_write encode_frame length_to_dlc
sent-eq = refl

send-IsSent_example :
    (t : UsbTransport) × (bytes : List ℕ) × (started_transport running.impl ≡ some t)
    × (false ≡ false)
    × (encoded_for one_byte false running.impl ≡ ok bytes)
    × Wrote t bytes running sent_once
send-IsSent_example = send-IsSent usb one_byte false running sent_once sent-eq

-- An open bus whose adapter has every mode.
abbrev ready : Bus
ready = record {
  impl = record (new_impl selector) {
    transport = some transport;
    feature = 0x11B;
    fclk_can = 80000000;
    nominal_const = limits;
  };
  log = busy;
}

abbrev pub configured_once : Bus
configured_once = (configure fixed usb config ready).1

configured-eq : configure fixed usb config ready ≡ (ok tt, configured_once)
unfolding configure configure_open apply_timing start_modes control_with calculate_bit_timing
    best_timing search_loop propose timing_of keep_better
configured-eq = refl

configure-IsStarted_example :
    (t : UsbTransport) × (ready.impl.transport ≡ some t)
    × (transport_is_open t ≡ true)
    × IsStarted t config 0 0x11B configured_once
    × (false ≡ false)
configure-IsStarted_example =
    configure-IsStarted fixed usb config ready configured_once configured-eq

-- What `one_byte` is on the wire, and an adapter that delivers it.
abbrev one_byte_wire : List ℕ
one_byte_wire =
    255 ∷ 255 ∷ 255 ∷ 255 ∷ 0x23 ∷ 1 ∷ 0 ∷ 0 ∷ 1 ∷ selector.channel ∷ 0 ∷ 0 ∷ 0x5A ∷ 0 ∷ 0 ∷ 0 ∷ 0
    ∷ 0 ∷ 0 ∷ 0 ∷ []

abbrev far : Libusb
far = record usb { bulk_transfer = λ log handle req. (pos 0, length one_byte_wire, one_byte_wire) }

abbrev one_byte_write : BulkRequest
one_byte_write = record { endpoint = 0x02; bytes = one_byte_wire; size = 20; timeout_ms = 1000 }

sent-log : sent_once.log ≡ bulk (some 1) one_byte_write ∷ running.log
unfolding send send_started bulk_write encode_frame length_to_dlc
    gsusb_canfd.Prelude.Store.copy_loop gsusb_canfd.Wire.put_u32_le gsusb_canfd.Frame.dlc_search
    gsusb_canfd.Frame.can_id_word gsusb_canfd.Frame.flag_byte gsusb_canfd.Frame.header_bytes
    gsusb_canfd.Frame.frame_bytes dlc_to_length
sent-log = refl

abbrev newest : Log → BulkRequest
newest (bulk handle req ∷ log) = req
newest _ = one_byte_write

arrives :
    (handle : Option ℕ) (req : BulkRequest)
    → sent_once.log ≡ bulk handle req ∷ running.log
    → far.bulk_transfer running.log (some 1) (read_request transport running.impl)
      ≡ (pos 0, req.size, req.bytes)
arrives handle req e =
    ap (λ (r : BulkRequest). (pos 0, r.size, r.bytes)) (ap newest (sym sent-log ∙ e))

send-receive_example :
    (d : ℕ) × (got : CanFrame ℤ) × ((receive fixed far clock (pos 0) 1 running).0
      ≡ ok (received got))
    × IsLeastDlc false 1 d
    × IsReceived (record one_byte { channel = running.impl.channel }) k_echo_none d got
send-receive_example =
    send-receive fixed usb far clock one_byte running sent_once running transport 0 (omega arith)
      sent-eq refl refl refl arrives
