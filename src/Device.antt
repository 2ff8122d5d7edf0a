-- ===== src/Device.antt =====
-- include/canfd/device.hpp and src/device.cpp: the bus object. A state is the object's fields with
-- what has been asked of libusb.
pub mod State
pub mod Open
pub mod Configure
pub mod Traffic
pub mod Lifecycle
pub mod Names
pub mod Getters
pub mod Worker
