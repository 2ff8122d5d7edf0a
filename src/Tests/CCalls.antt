-- ===== src/Tests/CCalls.antt =====
-- Calls of the C interface on the running bus.
use gsusb_canfd.Prelude.{refl, ◌≡◌, true, false, none, some, [], arith, length, take}
use gsusb_canfd.Prelude.Int.{ℤ, pos}
use gsusb_canfd.Text.{codes}
use gsusb_canfd.Device.Worker.{idle}
use gsusb_canfd.CApi.{Api, LastError}
use gsusb_canfd.CApi.Reported.{receives, starts, IsReported, run_call, run_call-IsReported}
use gsusb_canfd.Usb.Discovery.Balance.{open_handles}
use gsusb_canfd.CApi.Calls.{canfd_open_channel, canfd_close}
use gsusb_canfd.CApi.Handles.{
  Reachable, here, after, opens, calls, no_handle, IsClosed, canfd_close-Reachable,
}
use gsusb_canfd.CApi.Scan.{until_nul, copy_string, canfd_scan}
use gsusb_canfd.CApi.Scan.Copied.{IsFitting, copy_string-until_nul, canfd_scan-IsFitting}
use gsusb_canfd.Tests.Fixed.{fixed}
use gsusb_canfd.Tests.Adapter.{usb, busy}
use gsusb_canfd.Tests.Devices.{clock, running}

abbrev no_error : LastError
no_error = record { message = none; code = 0 }

abbrev api : Api ℤ
api = record {
  handle = some (record { shared = idle running; callback = none });
  last_error = no_error;
  leaked = [];
  log = [];
}

run_call-IsReported_example :
    IsReported api (run_call fixed usb clock 100 (receives true (pos 50)) api)
run_call-IsReported_example = run_call-IsReported fixed usb clock 100 (receives true (pos 50)) api

copy_string-until_nul_example :
    (length (copy_string 4 (codes "candle")) ≡ 4)
    × (until_nul (copy_string 4 (codes "candle")) ≡ take 3 (until_nul (codes "candle")))
copy_string-until_nul_example = copy_string-until_nul 4 (codes "candle") (omega arith)

canfd_scan-IsFitting_example :
    IsFitting (pos 4) (canfd_scan usb true (pos 4) no_error busy)
    × (true ≡ false → (canfd_scan usb true (pos 4) no_error busy).written ≡ [])
canfd_scan-IsFitting_example = canfd_scan-IsFitting usb true (pos 4) no_error busy

-- A handle that is opened, started in vain, and closed again.
abbrev opened : Api ℤ
opened = canfd_open_channel fixed usb 0x1D50 0x606F (pos 0) (pos 0) (no_handle no_error busy)

abbrev tried : Api ℤ
tried = (run_call fixed usb clock 100 (starts (some 7) 9) opened).1

tried-path : Reachable fixed usb clock 100 (no_handle no_error busy) tried
tried-path =
    after (after here (opens 0x1D50 0x606F (pos 0) (pos 0) (no_handle no_error busy) refl))
      (calls (starts (some 7) 9) opened)

canfd_close-Reachable_example :
    IsClosed fixed usb clock 100
      (λ key. open_handles key busy)
      (canfd_close fixed usb clock 100 tried)
canfd_close-Reachable_example =
    canfd_close-Reachable fixed usb clock 100 no_error busy tried tried-path
