-- ===== src/Tools/Cli/Arguments.antt =====
-- parseArgs of canfd_cli.cpp. `atof` is a parameter.
use gsusb_canfd.Prelude.{
  ℕ, ◌-◌, ◌%◌, ◌^◌, ◌==◌, ◌&&◌, Bool, true, false, Option, none, some, List, [], ◌∷◌, u16, u32,
  if◌then◌else◌,
}
use gsusb_canfd.Prelude.Int.{ℤ, pos, negsuc}
use gsusb_canfd.Floats.{Double}
use gsusb_canfd.Text.{Bytes, codes}
use gsusb_canfd.Text.Scan.{strtoul, atoi}
use gsusb_canfd.Usb.Text.{text_eq, is_empty}
use gsusb_canfd.Device.State.{default_config}
use gsusb_canfd.Tools.Payload.{parse_data}
use gsusb_canfd.Tools.HexId.{parse_id}
use gsusb_canfd.Tools.Cli.{Options}

-- Options with its initialisers
abbrev pub no_options : {D : Type 0} → Double D → Options D
no_options F = record {
  vid = 0;
  pid = 0;
  index = pos 0;
  channel = 0;
  config = default_config F;
  id = 0;
  bytes = [];
  trigger_id = 0x501;
  trigger_bytes = 0x00 ∷ 0x02 ∷ 0x50 ∷ 0x01 ∷ [];
  trigger = false;
  show_echo = false;
  count = pos 0;
}

-- static_cast<uint8_t> of an int
abbrev pub low_byte : ℤ → ℕ
low_byte (pos n) = n % 2 ^ 8
low_byte (negsuc n) = 2 ^ 8 - 1 - n % 2 ^ 8

-- The branches: options with a value, and others.
pub data Valued : Type 0 where
  vid pid index channel bitrate sample_point data_bitrate data_sample_point trigger_id trigger_data
        count :
      Valued

pub data Flag : Type 0 where
  valued : Valued → Flag
  classic trigger show_echo unknown plain : Flag

-- arg.size() >= 2 && arg[0] == '-' && arg[1] == '-'
abbrev pub is_dashed : Bytes → Bool
is_dashed (a ∷ b ∷ rest) = a == b'-' && b == b'-'
is_dashed _ = false

unfoldable pub flag_of : Bytes → Flag
flag_of arg =
    if text_eq arg (codes "--vid")
    then valued vid
    else if text_eq arg (codes "--pid")
    then valued pid
    else if text_eq arg (codes "--index")
    then valued index
    else if text_eq arg (codes "--channel")
    then valued channel
    else if text_eq arg (codes "--bitrate")
    then valued bitrate
    else if text_eq arg (codes "--sample-point")
    then valued sample_point
    else if text_eq arg (codes "--data-bitrate")
    then valued data_bitrate
    else if text_eq arg (codes "--data-sample-point")
    then valued data_sample_point
    else if text_eq arg (codes "--classic")
    then classic
    else if text_eq arg (codes "--trigger")
    then trigger
    else if text_eq arg (codes "--show-echo")
    then show_echo
    else if text_eq arg (codes "--trigger-id")
    then valued trigger_id
    else if text_eq arg (codes "--trigger-data")
    then valued trigger_data
    else if text_eq arg (codes "--count")
    then valued count
    else if is_dashed arg
    then unknown
    else plain

module _ {D : Type 0} where
  -- An argument that is no option: the id, then the data.
  unfoldable pub set_plain : Bytes → Options D → Options D
  set_plain arg o =
      if o.id == 0
      then record o { id = parse_id arg }
      else if is_empty o.bytes
      then record o { bytes = parse_data arg }
      else o

  -- An option without a value, or another argument; `none` is `return false`.
  abbrev pub set_flag : Flag → Bytes → Options D → Option (Options D)
  set_flag (valued v) arg o = none
  set_flag classic arg o = some (record o { config = record o.config { fd = false } })
  set_flag trigger arg o = some (record o { trigger = true })
  set_flag show_echo arg o = some (record o { show_echo = true })
  set_flag unknown arg o = none
  set_flag plain arg o = some (set_plain arg o)

module _ {D : Type 0} (atof : Bytes → D) where
  abbrev pub set_value : Valued → Bytes → Options D → Options D
  set_value vid text o = record o { vid = u16 (strtoul 0 text) }
  set_value pid text o = record o { pid = u16 (strtoul 0 text) }
  set_value index text o = record o { index = atoi text }
  set_value channel text o = record o { channel = low_byte (atoi text) }
  set_value bitrate text o = record o {
    config = record o.config { bitrate = u32 (strtoul 0 text) };
  }
  set_value sample_point text o = record o { config = record o.config { sample_point = atof text } }
  set_value data_bitrate text o = record o {
    config = record o.config { data_bitrate = u32 (strtoul 0 text) };
  }
  set_value data_sample_point text o = record o {
    config = record o.config { data_sample_point = atof text };
  }
  set_value trigger_id text o = record o { trigger_id = parse_id text }
  set_value trigger_data text o = record o { trigger_bytes = parse_data text }
  set_value count text o = record o { count = atoi text }

  -- parseArgs on the arguments behind the command; `none` ends the program with the code 2.
  unfoldable pub parse_args : List Bytes → Options D → Option (Options D)
  parse_args [] o = some o
  parse_args (arg ∷ []) o = set_flag (flag_of arg) arg o
  parse_args (arg ∷ value ∷ args) o = elim (flag_of arg) [
    | valued v ↦ parse_args args (set_value v value o)
    | classic ↦ parse_args (value ∷ args) (record o { config = record o.config { fd = false } })
    | trigger ↦ parse_args (value ∷ args) (record o { trigger = true })
    | show_echo ↦ parse_args (value ∷ args) (record o { show_echo = true })
    | unknown ↦ none
    | plain ↦ parse_args (value ∷ args) (set_plain arg o)
  ]
