-- ===== src/Tests/Workers.antt =====
-- The receive thread beside its client, on the bus of the other tests, and the adapters' names.
use gsusb_canfd.Prelude.{◌≡◌, refl, true, [], arith}
use gsusb_canfd.Prelude.Int.{ℤ}
use gsusb_canfd.Device.Worker.{Shared, idle, receiving, start, step_worker, has_ended_thread}
use gsusb_canfd.Device.Worker.Machine.{
  Reachable, here, after, starts, works, IsOrderly, Reachable-IsOrderly,
}
use gsusb_canfd.Device.Worker.Join.{go, stop-ends}
use gsusb_canfd.Device.Names.{name, display_name, unique_name, unique_name-inj}
use gsusb_canfd.Usb.Discovery.{AdapterInfo}
use gsusb_canfd.Text.{codes}
use gsusb_canfd.Tests.Fixed.{fixed}
use gsusb_canfd.Tests.Adapter.{usb}
use gsusb_canfd.Tests.Devices.{clock, running, ticks}

abbrev new : Shared ℤ
new = idle running

abbrev started : Shared ℤ
started = (start new).1

abbrev looking : Shared ℤ
looking = step_worker fixed usb clock 100000001 started

started-path : Reachable fixed usb clock 100000001 running looking
started-path = after (after here (starts new refl)) (works started)

Reachable-IsOrderly_example : IsOrderly fixed usb clock 100000001 looking
Reachable-IsOrderly_example =
    Reachable-IsOrderly fixed usb clock 100000001 running looking started-path

-- Told to end while it waits for a frame.
abbrev waiting : Shared ℤ
waiting = record new { worker = receiving }

stop-ends_example :
    has_ended_thread
      (go fixed usb clock 100000001
        (go fixed usb clock 100000001 (go fixed usb clock 100000001 waiting))).worker
    ≡ true
stop-ends_example = stop-ends fixed usb clock 100000001 waiting refl ticks (omega arith)

abbrev first_adapter : AdapterInfo
first_adapter = record {
  vendor_id = 0x1D50;
  product_id = 0x606F;
  bus = 1;
  address = 4;
  manufacturer = [];
  product = codes "candle";
  serial = codes "A1";
}

abbrev second_adapter : AdapterInfo
second_adapter = record first_adapter { bus = 2; address = 7 }

same_name : name first_adapter ≡ name second_adapter
unfolding name
same_name = refl

same_unique_name : unique_name first_adapter ≡ unique_name second_adapter
unfolding unique_name display_name name
same_unique_name = refl

unique_name-inj_example :
    (first_adapter.vendor_id ≡ second_adapter.vendor_id)
    × (first_adapter.product_id ≡ second_adapter.product_id)
    × (first_adapter.serial ≡ second_adapter.serial)
unique_name-inj_example =
    unique_name-inj first_adapter second_adapter (omega arith) (omega arith) (omega arith)
      (omega arith) same_name same_unique_name
