-- ===== src/Tools/Cli.antt =====
-- tools/canfd_cli.cpp: the options, the frame that is sent, and what is printed.
pub mod Arguments
pub mod Run
pub mod Monitor
pub mod Handles
pub mod Frames
use gsusb_canfd.Prelude.{
  ℕ, Bool, true, false, Option, none, some, List, [], ◌∷◌, leb, ltb, length, replicate, u8,
  if◌then◌else◌,
}
use gsusb_canfd.Prelude.Int.{ℤ, pos}
use gsusb_canfd.Prelude.Store.{copy_loop}
use gsusb_canfd.Errors.{CanFdError}
use gsusb_canfd.Floats.{Double}
use gsusb_canfd.Text.{Bytes}
use gsusb_canfd.Frame.{CanFrame}
use gsusb_canfd.Usb.Discovery.{AdapterInfo}
use gsusb_canfd.Device.State.{Impl, Bus, BusConfig}

pub record Options (D : Type 0) : Type 0 where
  pub vid : ℕ
  pub pid : ℕ
  pub index : ℤ
  pub channel : ℕ
  pub config : BusConfig D
  pub id : ℕ
  pub bytes : List ℕ
  pub trigger_id : ℕ
  pub trigger_bytes : List ℕ
  pub trigger : Bool
  pub show_echo : Bool
  pub count : ℤ

-- What is printed: a frame as its line, any other message with what is printed into it.
pub data Notice : Type 0 where
  line : Bytes → Notice
  adapter : (position : ℕ) → AdapterInfo → Notice
  no_devices : Notice
  bus_info : Impl → Notice
  sent : (id count : ℕ) → Notice
  triggered : (id : ℕ) → Notice
  failed : CanFdError → Notice

-- The bus object of `run`, and what has been printed, newest first.
pub record Cli : Type 0 where
  pub bus : Bus
  pub printed : List Notice

-- How a part of the program ends: with an exit code, in undefined behaviour, or not within the
-- fuel of the model.
pub data Exit : Type 0 where
  code : ℕ → Exit
  undefined goes_on : Exit

module _ {D : Type 0} (F : Double D) where
  -- The frame that makeFrame fills in.
  abbrev pub filled_frame : (id : ℕ) → List ℕ → (fd : Bool) → CanFrame D
  filled_frame id bytes fd = record {
    id = id;
    bytes = copy_loop (length bytes) 0 bytes 0 (replicate 64 0) 0;
    size = u8 (length bytes);
    extended = ltb 0x7FF id;
    fd = fd;
    brs = fd;
    remote = false;
    error = false;
    echo = false;
    overflow = false;
    channel = 0;
    timestamp = F.literal 0 0;
  }

  -- makeFrame: more than 64 bytes are written past the end of the frame's array.
  unfoldable pub make_frame : (id : ℕ) → List ℕ → (fd : Bool) → Option (CanFrame D)
  make_frame id bytes fd = if leb (length bytes) 64 then some (filled_frame id bytes fd) else none
