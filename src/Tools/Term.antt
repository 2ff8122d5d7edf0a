-- ===== src/Tools/Term.antt =====
-- tools/canfd_term.cpp: the state of the terminal. What it prints is kept, newest first: a frame as
-- its line, any other message as a value of `Notice`, with what is printed into it.
pub mod Printing
pub mod Line
pub mod Send
pub mod Open
pub mod Command
pub mod Session
pub mod Handles
use gsusb_canfd.Prelude.{ℕ, ◌+◌, ◌≡◌, Bool, true, false, Option, none, some, List, [], ◌∷◌}
use gsusb_canfd.Prelude.Int.{ℤ}
use gsusb_canfd.Errors.{CanFdError, Message}
use gsusb_canfd.Text.{Bytes}
use gsusb_canfd.Floats.{Double}
use gsusb_canfd.Usb.{Log}
use gsusb_canfd.Usb.Discovery.{AdapterInfo, DeviceSelector}
use gsusb_canfd.Device.State.{BusConfig}
use gsusb_canfd.Device.Worker.{Shared}

pub data Notice (D : Type 0) : Type 0 where
  line : Bytes → Notice D
  adapters : List AdapterInfo → Notice D
  only_one invalid_selection help_text cleared : Notice D
  choice : (largest : ℕ) → Notice D
  opened :
      (index : ℤ) (ep_in ep_out : ℤ) (clock feature bitrate data_bitrate : ℕ) (fd : Bool) → Notice D
  open_failed : Message → Notice D
  usage_open usage_id : Notice D
  is_now becomes : (setting : Bytes) (on : Bool) → Notice D
  id_becomes : (id : ℕ) (extended : Bool) → Notice D
  data_becomes : (count : ℕ) → Notice D
  filtering : List ℕ → Notice D
  invalid_id unknown_command : Bytes → Notice D
  slept : (seconds : D) → Notice D
  prompt help_hint stopping : Notice D
  failed : CanFdError → Notice D

-- g_filter, g_dedup and g_last_payload
pub record View : Type 0 where
  pub filter : List ℕ
  pub dedup : Bool
  pub last_payload : List (ℕ × List ℕ)

-- State, the globals, and what is printed. `log` is what libusb has been asked while there is no
-- bus; a bus has the log itself.
pub record Term (D : Type 0) : Type 0 where
  pub bus : Option (Shared D)
  pub log : Log
  pub selector : DeviceSelector
  pub config : BusConfig D
  pub default_id : ℕ
  pub default_data : List ℕ
  pub brs : Bool
  pub show_echo : Bool
  pub view : View
  pub printed : List (Notice D)

-- How a part of the program ends: it goes on or is asked to quit, an exception leaves it, or its
-- behaviour is undefined.
pub data Outcome : Type 0 where
  continues quits undefined : Outcome
  throws : CanFdError → Outcome

module _ {D : Type 0} where
  abbrev pub say : Notice D → Term D → Term D
  say notice t = record t { printed = notice ∷ t.printed }

  -- Everything that libusb has been asked.
  abbrev pub log_in : Option (Shared D) → Log → Log
  log_in none log = log
  log_in (some s) log = s.bus.log

  abbrev pub log_of : Term D → Log
  log_of t = log_in t.bus t.log

  -- The state behind a call that asks libusb something and leaves the bus alone.
  abbrev pub with_log : Log → Term D → Term D
  with_log log t = elim t.bus [
    | none ↦ record t { log = log }
    | some s ↦ record t { bus = some (record s { bus = record s.bus { log = log } }) }
  ]

-- State and the globals with their initialisers.
abbrev pub new_term :
    {D : Type 0} → DeviceSelector → BusConfig D → (show_echo : Bool) → Log → Term D
new_term selector config show_echo log = record {
  bus = none;
  log = log;
  selector = selector;
  config = config;
  default_id = 0x123;
  default_data = [];
  brs = true;
  show_echo = show_echo;
  view = record { filter = []; dedup = false; last_payload = [] };
  printed = [];
}
