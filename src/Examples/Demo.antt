-- ===== src/Examples/Demo.antt =====
-- examples/canfd_demo.cpp: the arguments it runs with, what it prints, and the frame it sends.
pub mod Arguments
pub mod Counts
pub mod Main
use gsusb_canfd.Prelude.{
  ℕ, ◌+◌, ◌-◌, min, Bool, true, false, List, [], ◌∷◌, ◌++◌, ltb, length, replicate, u8, u32,
  if◌then◌else◌,
}
use gsusb_canfd.Prelude.Int.{ℤ}
use gsusb_canfd.Prelude.Store.{copy_loop}
use gsusb_canfd.Errors.{CanFdError}
use gsusb_canfd.Floats.{Double}
use gsusb_canfd.Text.{Bytes, codes}
use gsusb_canfd.Timing.{BitTiming, tseg1}
use gsusb_canfd.Frame.{CanFrame}
use gsusb_canfd.Usb.Text.{is_empty}
use gsusb_canfd.Usb.Discovery.{AdapterInfo}
use gsusb_canfd.Device.State.{
  BusConfig, has_feature, k_listen_only, k_loopback, k_one_shot, k_hw_timestamp, k_fd,
}

pub record Args (D : Type 0) : Type 0 where
  pub seconds : D
  pub monitor : Bool
  pub classic : Bool
  pub trigger : Bool
  pub config : BusConfig D
  pub trigger_id : ℕ
  pub trigger_data : List ℕ
  pub rx_id : ℕ
  pub filter_rx_id : Bool
  pub print_all : Bool

-- What is printed: the headings, and any other message with what is printed into it.
pub data Notice (D : Type 0) : Type 0 where
  scan_heading open_heading tx_heading : Notice D
  adapter : AdapterInfo → Notice D
  endpoints : (input output : ℤ) → Notice D
  versions : (firmware hardware : D) → Notice D
  capability : (fclk feature : ℕ) → (features : Bytes) → Notice D
  configuring : (classic : Bool) → Notice D
  timing : (label : Bytes) → BitTiming → (bitrate percent : D) → Notice D
  sent : (id : ℕ) → List ℕ → Notice D
  passive : (seconds : D) → Notice D
  rx_heading : (seconds : D) → (shown : Bytes) → Notice D
  line : Bytes → Notice D
  rate : (window : ℕ) → (elapsed fps : D) → Notice D
  summary : (total : ℕ) → Notice D
  counted : (id count : ℕ) → Notice D
  failed : CanFdError → Notice D

-- device.hpp
abbrev pub k_bt_const_ext : ℕ
k_bt_const_ext = 0x400

-- `add` of featureString, under its condition
abbrev pub add_name : Bool → Bytes → Bytes → Bytes
add_name false name out = out
add_name true name out = (if is_empty out then out else out ++ codes "|") ++ name

unfoldable pub feature_string : (feature : ℕ) → Bytes
feature_string feature =
    let out = add_name (has_feature feature k_listen_only) (codes "listen_only") [] in
    let out = add_name (has_feature feature k_loopback) (codes "loopback") out in
    let out = add_name (has_feature feature k_one_shot) (codes "one_shot") out in
    let out = add_name (has_feature feature k_hw_timestamp) (codes "hw_timestamp") out in
    let out = add_name (has_feature feature k_fd) (codes "fd") out in
    let out = add_name (has_feature feature k_bt_const_ext) (codes "bt_const_ext") out in
    if is_empty out then codes "none" else out

module _ {D : Type 0} (F : Double D) where
  -- 1.0 + t.tseg1() + t.phase_seg2
  abbrev pub quanta : BitTiming → D
  quanta t = F.add (F.add (F.literal 1 0) (F.of_unsigned (tseg1 t))) (F.of_unsigned t.phase_seg2)

  abbrev pub sample_point_of : BitTiming → D
  sample_point_of t = F.div (F.of_unsigned (u32 (1 + tseg1 t))) (quanta t)

  abbrev pub bitrate_of : BitTiming → (fclk : ℕ) → D
  bitrate_of t fclk = F.div (F.of_unsigned fclk) (F.mul (F.of_unsigned t.brp) (quanta t))

  -- printTiming
  abbrev pub timing_notice : (label : Bytes) → BitTiming → (fclk : ℕ) → Notice D
  timing_notice label t fclk =
      timing label t (bitrate_of t fclk) (F.mul (sample_point_of t) (F.literal 100 0))

  -- makeFrame: no more than 64 bytes are copied, whatever the size says.
  unfoldable pub make_frame : (id : ℕ) → List ℕ → (fd : Bool) → CanFrame D
  make_frame id bytes fd = record {
    id = id;
    bytes = copy_loop (min (length bytes) 64) 0 bytes 0 (replicate 64 0) 0;
    size = u8 (length bytes);
    extended = ltb 0x7FF id;
    fd = fd;
    brs = fd;
    remote = false;
    error = false;
    echo = false;
    overflow = false;
    channel = 0;
    timestamp = F.literal 0 0;
  }
