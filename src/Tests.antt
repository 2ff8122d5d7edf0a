-- ===== src/Tests.antt =====
-- Concrete inputs: numbers, an adapter, frames, and the theorems at them.
mod Fixed
mod Adapter
mod Frames
mod Timings
mod Devices
mod Workers
mod CFrames
mod Terminal
mod Sessions
mod CCalls
mod Examples
