-- ===== src/Usb/Transport/References.antt =====
-- The references to libusb_device over UsbTransport::open.
