-- ===== src/Device/State.antt =====
-- The fields of CanFdBus::Impl, the configuration, and the constants of the protocol.
use gsusb_canfd.Prelude.{
  ℕ, ◌+◌, Bool, true, false, Option, none, some, bit_and, ◌==◌, not, if◌then◌else◌,
}
use gsusb_canfd.Prelude.Int.{ℤ, pos, negsuc}
use gsusb_canfd.Errors.{Result, ok}
use gsusb_canfd.Floats.{Double}
use gsusb_canfd.Effects.{Action}
use gsusb_canfd.Timing.{BitTimingConst, BitTiming, blank_timing}
use gsusb_canfd.Usb.{Log}
use gsusb_canfd.Usb.Discovery.{DeviceSelector}
use gsusb_canfd.Usb.Transport.{UsbTransport, transport_is_open}

-- gs_usb_protocol.hpp
abbrev pub k_breq_host_format : ℕ
k_breq_host_format = 0

abbrev pub k_breq_bittiming : ℕ
k_breq_bittiming = 1

abbrev pub k_breq_mode : ℕ
k_breq_mode = 2

abbrev pub k_breq_bt_const : ℕ
k_breq_bt_const = 4

abbrev pub k_breq_device_config : ℕ
k_breq_device_config = 5

abbrev pub k_breq_data_bittiming : ℕ
k_breq_data_bittiming = 10

abbrev pub k_breq_bt_const_ext : ℕ
k_breq_bt_const_ext = 11

abbrev pub k_mode_reset : ℕ
k_mode_reset = 0

abbrev pub k_mode_start : ℕ
k_mode_start = 1

-- The bits of a feature word, which are also those of the mode flags.
abbrev pub k_listen_only : ℕ
k_listen_only = 0x1

abbrev pub k_loopback : ℕ
k_loopback = 0x2

abbrev pub k_one_shot : ℕ
k_one_shot = 0x8

abbrev pub k_hw_timestamp : ℕ
k_hw_timestamp = 0x10

abbrev pub k_fd : ℕ
k_fd = 0x100

abbrev pub k_ctrl_out : ℕ
k_ctrl_out = 0x41

abbrev pub k_ctrl_in : ℕ
k_ctrl_in = 0xC1

pub record DeviceInfo : Type 0 where
  pub icount : ℕ
  pub sw_version : ℕ
  pub hw_version : ℕ
  pub channel_count : ℕ

pub record BusConfig (D : Type 0) : Type 0 where
  pub bitrate : ℕ
  pub sample_point : D
  pub data_bitrate : ℕ
  pub data_sample_point : D
  pub fd : Bool
  pub listen_only : Bool
  pub loopback : Bool
  pub one_shot : Bool
  pub hw_timestamp : Bool
  pub drop_echo : Bool

-- BusConfig with its initialisers
abbrev pub default_config : {D : Type 0} → Double D → BusConfig D
default_config F = record {
  bitrate = 1000000;
  sample_point = F.literal 80 2;
  data_bitrate = 5000000;
  data_sample_point = F.literal 75 2;
  fd = true;
  listen_only = false;
  loopback = false;
  one_shot = false;
  hw_timestamp = true;
  drop_echo = false;
}

pub record Impl : Type 0 where
  pub selector : DeviceSelector
  pub transport : Option UsbTransport
  pub channel : ℕ
  pub feature : ℕ
  pub fclk_can : ℕ
  pub nominal_const : BitTimingConst
  pub data_const : BitTimingConst
  pub has_data_const : Bool
  pub device_info : DeviceInfo
  pub has_device_info : Bool
  pub nominal_timing : BitTiming
  pub data_timing : BitTiming
  pub is_fd : Bool
  pub listen_only : Bool
  pub hw_timestamp : Bool
  pub drop_echo : Bool
  pub started : Bool

abbrev pub blank_const : BitTimingConst
blank_const = record {
  tseg1_min = 0;
  tseg1_max = 0;
  tseg2_min = 0;
  tseg2_max = 0;
  sjw_max = 0;
  brp_min = 0;
  brp_max = 0;
  brp_inc = 1;
}

-- Impl::Impl
abbrev pub new_impl : DeviceSelector → Impl
new_impl selector = record {
  selector = selector;
  transport = none;
  channel = selector.channel;
  feature = 0;
  fclk_can = 0;
  nominal_const = blank_const;
  data_const = blank_const;
  has_data_const = false;
  device_info = record { icount = 0; sw_version = 0; hw_version = 0; channel_count = 1 };
  has_device_info = false;
  nominal_timing = blank_timing;
  data_timing = blank_timing;
  is_fd = false;
  listen_only = false;
  hw_timestamp = true;
  drop_echo = false;
  started = false;
}

-- The object and the log.
pub record Bus : Type 0 where
  pub impl : Impl
  pub log : Log

-- CanFdBus::isOpen
abbrev pub is_open : Impl → Bool
is_open impl = elim impl.transport [ none ↦ false | some t ↦ transport_is_open t ]

-- CanFdBus::inputEndpoint and outputEndpoint
abbrev pub input_endpoint : Impl → ℤ
input_endpoint impl = elim impl.transport [ none ↦ negsuc 0 | some t ↦ pos t.ep_in ]

abbrev pub output_endpoint : Impl → ℤ
output_endpoint impl = elim impl.transport [ none ↦ negsuc 0 | some t ↦ pos t.ep_out ]

-- impl_->feature & bit
abbrev pub has_feature : ℕ → ℕ → Bool
has_feature feature bit = not (bit_and feature bit == 0)

-- Impl::rxSize
abbrev pub rx_size : Impl → ℕ
rx_size impl = 12 + (if impl.is_fd then 64 else 8) + (if impl.hw_timestamp then 4 else 0)

module _ {A : Type 0} where
  -- A call of the transport that changes only the log.
  abbrev pub lift : Action Log A → Action Bus A
  lift m b = let (r, log) = m b.log in (r, record { impl = b.impl; log = log })

  abbrev pub from_result : Result A → Action Bus A
  from_result r b = (r, b)

abbrev pub update : (Impl → Impl) → Action Bus (Unit {0})
update f b = (ok tt, record { impl = f b.impl; log = b.log })
