-- ===== src/Device/Getters.antt =====
-- The getters of CanFdBus, on the fields of its Impl.
use gsusb_canfd.Prelude.{ℕ, Bool}
use gsusb_canfd.Timing.{BitTiming}
use gsusb_canfd.Device.State.{Impl, DeviceInfo}

abbrev pub is_started : Impl → Bool
is_started impl = impl.started

abbrev pub is_fd : Impl → Bool
is_fd impl = impl.is_fd

abbrev pub device_info : Impl → DeviceInfo
device_info impl = impl.device_info

abbrev pub feature : Impl → ℕ
feature impl = impl.feature

abbrev pub clock_frequency : Impl → ℕ
clock_frequency impl = impl.fclk_can

abbrev pub channel_count : Impl → ℕ
channel_count impl = impl.device_info.channel_count

abbrev pub channel : Impl → ℕ
channel impl = impl.channel

abbrev pub nominal_timing : Impl → BitTiming
nominal_timing impl = impl.nominal_timing

abbrev pub data_timing : Impl → BitTiming
data_timing impl = impl.data_timing
