-- ===== src/Examples/Demo/Arguments.antt =====
-- parseArgs of canfd_demo.cpp. `atof` is a parameter.
use gsusb_canfd.Prelude.{ℕ, true, false, List, [], ◌∷◌, u32, if◌then◌else◌}
use gsusb_canfd.Floats.{Double}
use gsusb_canfd.Text.{Bytes, codes}
use gsusb_canfd.Text.Scan.{strtoul}
use gsusb_canfd.Usb.Text.{text_eq}
use gsusb_canfd.Device.State.{default_config}
use gsusb_canfd.Tools.Payload.{parse_data}
use gsusb_canfd.Examples.Demo.{Args}

-- Args with its initialisers
abbrev pub default_args : {D : Type 0} → Double D → Args D
default_args F = record {
  seconds = F.literal 6 0;
  monitor = false;
  classic = false;
  trigger = true;
  config = default_config F;
  trigger_id = 0x501;
  trigger_data = 0x00 ∷ 0x02 ∷ 0x50 ∷ 0x01 ∷ [];
  rx_id = 0x481;
  filter_rx_id = true;
  print_all = false;
}

-- parseData, which is the function of canfd_cli.cpp.
abbrev pub parse_payload : Bytes → List ℕ
parse_payload text = parse_data text

-- The branches: options with a value, options without, and anything else.
pub data Valued : Type 0 where
  seconds bitrate sample_point data_bitrate data_sample_point trigger_id trigger_data rx_id : Valued

pub data Switch : Type 0 where
  monitor no_trigger classic every_id every_frame : Switch

pub data Flag : Type 0 where
  valued : Valued → Flag
  switch : Switch → Flag
  unknown : Flag

unfoldable pub flag_of : Bytes → Flag
flag_of a =
    if text_eq a (codes "--seconds")
    then valued seconds
    else if text_eq a (codes "--monitor")
    then switch monitor
    else if text_eq a (codes "--no-trigger")
    then switch no_trigger
    else if text_eq a (codes "--classic")
    then switch classic
    else if text_eq a (codes "--bitrate")
    then valued bitrate
    else if text_eq a (codes "--sample-point")
    then valued sample_point
    else if text_eq a (codes "--data-bitrate")
    then valued data_bitrate
    else if text_eq a (codes "--data-sample-point")
    then valued data_sample_point
    else if text_eq a (codes "--id")
    then valued trigger_id
    else if text_eq a (codes "--take-data")
    then valued trigger_data
    else if text_eq a (codes "--rx-id")
    then valued rx_id
    else if text_eq a (codes "--all")
    then switch every_id
    else if text_eq a (codes "--all-frames")
    then switch every_frame
    else unknown

-- How parseArgs ends: with the arguments, or in std::exit(2), which names the option.
pub data Parsed (D : Type 0) : Type 0 where
  arguments : Args D → Parsed D
  missing_value unknown_option : Bytes → Parsed D

module _ {D : Type 0} where
  abbrev pub set_switch : Switch → Args D → Args D
  set_switch monitor args = record args { monitor = true; trigger = false }
  set_switch no_trigger args = record args { trigger = false }
  set_switch classic args = record args {
    classic = true;
    config = record args.config { fd = false };
  }
  set_switch every_id args = record args { filter_rx_id = false }
  set_switch every_frame args = record args { print_all = true }

  abbrev pub last_flag : Flag → Bytes → Args D → Parsed D
  last_flag (valued v) a args = missing_value a
  last_flag (switch f) a args = arguments (set_switch f args)
  last_flag unknown a args = unknown_option a

  module _ (atof : Bytes → D) where
    abbrev pub set_value : Valued → Bytes → Args D → Args D
    set_value seconds text args = record args { seconds = atof text }
    set_value bitrate text args = record args {
      config = record args.config { bitrate = u32 (strtoul 0 text) };
    }
    set_value sample_point text args = record args {
      config = record args.config { sample_point = atof text };
    }
    set_value data_bitrate text args = record args {
      config = record args.config { data_bitrate = u32 (strtoul 0 text) };
    }
    set_value data_sample_point text args = record args {
      config = record args.config { data_sample_point = atof text };
    }
    set_value trigger_id text args = record args { trigger_id = u32 (strtoul 16 text) }
    set_value trigger_data text args = record args { trigger_data = parse_payload text }
    set_value rx_id text args = record args { rx_id = u32 (strtoul 16 text) }

    -- parseArgs, on argv behind the program's name.
    unfoldable pub parse_args : List Bytes → Args D → Parsed D
    parse_args [] args = arguments args
    parse_args (a ∷ []) args = last_flag (flag_of a) a args
    parse_args (a ∷ value ∷ rest) args = elim (flag_of a) [
      | valued v ↦ parse_args rest (set_value v value args)
      | switch f ↦ parse_args (value ∷ rest) (set_switch f args)
      | unknown ↦ unknown_option a
    ]
