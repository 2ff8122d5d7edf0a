-- ===== src/Tests/CFrames.antt =====
-- The C interface, at one frame and one call.
use gsusb_canfd.Prelude.{◌∷◌, replicate}
use gsusb_canfd.Prelude.Int.{ℤ, pos}
use gsusb_canfd.CApi.{CanFdFrame, to_bus_frame, to_c_frame}
use gsusb_canfd.CApi.Frames.{IsCopyOf, to_c_frame-to_bus_frame}
use gsusb_canfd.Tests.Fixed.{fixed}

-- Flags that are neither 0 nor 1, and two bytes of payload.
abbrev c_frame : CanFdFrame ℤ
c_frame = record {
  id = 0x123;
  size = 2;
  channel = 0;
  extended = 0;
  fd = 7;
  brs = 1;
  remote = 0;
  error = 0;
  echo = 1;
  overflow = 0;
  timestamp = pos 5;
  bytes = 0xAA ∷ 0xBB ∷ replicate 62 0xFF;
}

to_c_frame-to_bus_frame_example :
    IsCopyOf fixed c_frame (to_c_frame fixed (to_bus_frame fixed c_frame))
to_c_frame-to_bus_frame_example = to_c_frame-to_bus_frame fixed c_frame
