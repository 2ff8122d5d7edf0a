-- ===== src/Lib.antt =====
-- gsusb-canfd: a C++ library for USB CAN FD adapters that speak the gs_usb protocol. A frame is
-- encoded to the bytes of a bulk transfer and decoded from them, a bit timing is computed from the
-- limits that an adapter reports, an adapter is found among the USB devices and opened through
-- libusb, and a bus object (CanFdBus) ties these together behind open, configure, send, receive and
-- close, and runs a thread that receives and calls a callback. A C interface wraps the bus object,
-- and two programs use it: canfd, which lists, sends and monitors, and canfd_term, a terminal. Two
-- examples send a trigger frame and print what comes back.
--
-- Where the parts stand:
--   Errors     include/canfd/error.hpp. A message is a constructor with the numbers in it.
--   Effects    a call that changes a state and may throw; what was written before stays written.
--   Wire       putU32Le and getU32Le of src/frame.cpp.
--   Frame      include/canfd/frame.hpp and src/frame.cpp: lengthToDlc, dlcToLength, encodeFrame,
--              decodeFrame, and toString in Frame.Show. A frame's data is a list of 64 bytes.
--   Floats     the type double: a parameter with the operations that the code calls.
--   Timing     include/canfd/bit_timing.hpp and src/bit_timing.cpp.
--   Usb        src/usb_transport.hpp and src/usb_transport.cpp: Usb.Discovery is findDevices and
--              scanAdapters, Usb.Interface is findBulkInterface and hasVendorBulkInterface,
--              Usb.Transport is the class UsbTransport. Usb.Discovery.References counts the
--              references to libusb_device.
--   Device     include/canfd/device.hpp and src/device.cpp: Device.State holds the fields of
--              CanFdBus::Impl, Device.Open open(), Device.Configure configure() and close(),
--              Device.Traffic send() and receive(); Device.Traffic.Link joins them. Device.Lifecycle
--              is the state machine of calls, with an abstract view of it (closed, opened, started)
--              in Device.Lifecycle.Phases. Device.Worker is start(), stop() and the receive thread,
--              with the interleavings in Device.Worker.Machine. Device.Names holds the names of
--              AdapterInfo, and Device.Getters the getters.
--   CApi       src/c_api.cpp: frames, configs and error codes; CApi.Calls the calls on a handle,
--              CApi.Scan canfd_scan. CApi.Handles is the state machine of the calls, for a caller
--              who has at most one handle at a time.
--   Text       texts as lists of bytes: what the code uses of printf, strtoul, strtol, atoi and
--              <cctype>, in the "C" locale and with 64 bits in `long`.
--   Tools      tools/canfd_cli.cpp (Tools.Cli) and tools/canfd_term.cpp (Tools.Term), with the payloads
--              and identifiers that both read (Tools.Payload, Tools.HexId).
--   Examples   examples/canfd_demo.cpp (Examples.Demo) and examples/trigger_0x501.cpp
--              (Examples.Trigger).
--   Prelude    names that all modules share, and lemmas on lists, bits, words and copy loops.
--   Tests      concrete inputs, and the theorems at them.
--
-- How code corresponds to definitions: a function keeps its name in snake case (encodeFrame is
-- encode_frame, CanFdBus::open is open_bus, UsbTransport::open is open_transport). A method is a
-- function from the state before it to its result and the state after it, where a thrown error is a
-- result. libusb is a record of functions (Usb.Libusb): each answer may depend on all that has been
-- asked before, which the log holds, so that an adapter may do anything at any time. The open
-- handles of each device are counted in the log, and so are the references to it: as libusb
-- documents it, a device list comes with a reference to each of its devices, and
-- libusb_free_device_list(list, 0) leaves them. The monotonic clock is a parameter in the same way
-- (Device.Traffic.Clock), and so is the type double: a result that depends on rounding names the
-- facts of IEEE comparison that it uses (Floats.IsIeee). What printf prints of a double, atof, the
-- lines that are typed, the readings of the flag that SIGINT sets, and how many steps the receive
-- thread makes before each line are arguments too. What the programs print is kept in their state:
-- a frame as its line, any other message as a constructor with what is printed into it. A null
-- pointer that is called through and an access out of bounds are an outcome of their own.
--
-- Bounds and fuel: uint8_t and uint32_t values wrap as they do in the code (u8, u32, % 2 ^ 32). In
-- the timing search `long` and uint64_t are unbounded, as all values that it computes fit in them.
-- The search for a bit timing runs on brp_max + 1 rounds of fuel, which is enough, as the step is
-- at least 1. The receive loop takes its fuel as an argument, and so do the loops of the monitor
-- and of the examples. The digits of a number are printed on 20 rounds of fuel, enough for 64 bits.
-- The receive thread is given three steps to end while the bus is stopped: the end of its receive
-- call, the callback, and the test of the flag. The deadline of a receive call has no bound here,
-- where the code's 64-bit nanoseconds overflow at timeouts of centuries. Every call of libusb
-- returns here, also a read with the time limit 0, which libusb takes for none: on a silent bus it
-- may wait for ever.
--
-- Not modelled: the reference that libusb itself takes for an open handle, the kernel driver's
-- detaching beyond its place in the log, the work that a callback does, calls of the bus from
-- several clients at once, a caller of the C interface with several handles at once, a receive call
-- of the thread that is cut in two by a call of the client, a handle that is used after
-- canfd_close, and the build.
pub mod Prelude
pub mod Errors
pub mod Effects
pub mod Floats
pub mod Wire
pub mod Frame
pub mod Timing
pub mod Usb
pub mod Device
pub mod CApi
pub mod Text
pub mod Tools
pub mod Examples
pub mod Tests
