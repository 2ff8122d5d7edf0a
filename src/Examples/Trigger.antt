-- ===== src/Examples/Trigger.antt =====
-- examples/trigger_0x501.cpp: main, whose loop only an exception ends. The reading of the steady
-- clock in a round, in nanoseconds, is a parameter.
pub mod Handles
use gsusb_canfd.Prelude.{
  ℕ, zero, suc, ◌-◌, ◌*◌, Bool, true, false, not, ◌||◌, List, [], ◌∷◌, ◌++◌, ◌==◌, leb, replicate,
}
use gsusb_canfd.Prelude.Int.{ℤ, pos}
use gsusb_canfd.Errors.{CanFdError, Result, ok, err}
use gsusb_canfd.Effects.{Action, ◌>>=◌, ◌>>◌, pure}
use gsusb_canfd.Floats.{Double}
use gsusb_canfd.Text.{Bytes}
use gsusb_canfd.Frame.{CanFrame}
use gsusb_canfd.Frame.Show.{to_string}
use gsusb_canfd.Usb.{Libusb, Log}
use gsusb_canfd.Device.State.{BusConfig, default_config}
use gsusb_canfd.Device.Open.{open_bus}
use gsusb_canfd.Device.Configure.{configure, close_bus}
use gsusb_canfd.Device.Traffic.{Clock, Received, received, timed_out, out_of_fuel, send, receive}
use gsusb_canfd.Device.Lifecycle.Machine.{fresh}
use gsusb_canfd.Tools.Term.Session.{any_device}
use gsusb_canfd.Examples.{Running, Ending, code, terminated, goes_on, print, on_bus}

pub data Notice : Type 0 where
  bus_up : Notice
  line : Bytes → Notice
  failed : CanFdError → Notice

abbrev pub k_bitrate : ℕ
k_bitrate = 1000000

abbrev pub k_data_bitrate : ℕ
k_data_bitrate = 5000000

abbrev pub k_trigger_id : ℕ
k_trigger_id = 0x501

abbrev pub k_response_id : ℕ
k_response_id = 0x481

-- The last of the readings of the clock, and whether the loop goes on within the fuel.
pub data Turn : Type 0 where
  next : (last_repeat : ℕ) → Turn
  stuck : Turn

module _ {D : Type 0} (F : Double D) where
  abbrev pub k_sample_point : D
  k_sample_point = F.literal 80 2

  abbrev pub k_data_sample_point : D
  k_data_sample_point = F.literal 75 2

  abbrev pub bus_config : BusConfig D
  bus_config = record (default_config F) {
    bitrate = k_bitrate;
    sample_point = k_sample_point;
    data_bitrate = k_data_bitrate;
    data_sample_point = k_data_sample_point;
    fd = true;
  }

  abbrev pub trigger : CanFrame D
  trigger = record {
    id = k_trigger_id;
    bytes = 0x00 ∷ 0x02 ∷ 0x50 ∷ 0x01 ∷ replicate 60 0;
    size = 4;
    extended = false;
    fd = true;
    brs = true;
    remote = false;
    error = false;
    echo = false;
    overflow = false;
    channel = 0;
    timestamp = F.literal 0 0;
  }

module _ {D : Type 0} (F : Double D) (seconds : D → Bytes) (usb : Libusb) (clock : Clock D)
    (fuel : ℕ) (now : (round : ℕ) → ℕ) where
  -- The trigger is sent again where the last one is a second old.
  abbrev pub repeat_trigger : (round last_repeat : ℕ) → Action (Running Notice) ℕ
  repeat_trigger round last_repeat s = elim (leb (1 * 1000000000) (now round - last_repeat)) [
    | true ↦ (on_bus (send usb (trigger F) false) >> pure (now round)) s
    | false ↦ (ok last_repeat, s)
  ]

  -- What is printed of a received frame.
  abbrev pub show_response : (last_repeat : ℕ) → Received D → Action (Running Notice) Turn
  show_response last_repeat timed_out s = (ok (next last_repeat), s)
  show_response last_repeat out_of_fuel s = (ok stuck, s)
  show_response last_repeat (received frame) s =
      elim (frame.echo || not (frame.id == k_response_id)) [
        | true ↦ (ok (next last_repeat), s)
        | false ↦ (print (line (to_string F seconds frame)) >> pure (next last_repeat)) s
      ]

  -- The loop's body.
  unfoldable pub turn : (round last_repeat : ℕ) → Action (Running Notice) Turn
  turn round last_repeat = repeat_trigger round last_repeat >>= λ last.
      on_bus (receive F usb clock (pos 200) fuel) >>= λ r. show_response last r

  -- The loop, for a number of rounds.
  unfoldable pub watch : (rounds round last_repeat : ℕ) → Action (Running Notice) Ending
  watch zero round last_repeat s = (ok goes_on, s)
  watch (suc rounds) round last_repeat s =
      let (r, s') = turn round last_repeat s in
      elim r [
        | err e ↦ (err e, s')
        | ok stuck ↦ (ok goes_on, s')
        | ok (next last) ↦ watch rounds (suc round) last s'
      ]

  -- The block under `try`; `begun` is the reading before the loop.
  unfoldable pub session : (begun rounds : ℕ) → Action (Running Notice) Ending
  session begun rounds =
      on_bus (open_bus usb)
      >> (on_bus (configure F usb (bus_config F))
          >> (print bus_up >> (on_bus (send usb (trigger F) false) >> watch rounds 0 begun)))

  -- The handler; behind the block, the destructor closes the bus.
  abbrev pub ended : Result Ending × Running Notice → Ending × Running Notice
  ended (ok (code n), s) = (code 0, record s { bus = close_bus usb s.bus })
  ended (ok terminated, s) = (terminated, s)
  ended (ok goes_on, s) = (goes_on, s)
  ended (err e, s) =
      (code 1, record s { bus = close_bus usb s.bus; printed = failed e ∷ s.printed })

  unfoldable pub run_trigger : (begun rounds : ℕ) → Log → Ending × Running Notice
  run_trigger begun rounds log =
      ended (session begun rounds (record { bus = fresh any_device log; printed = [] }))
