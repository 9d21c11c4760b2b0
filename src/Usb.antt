-- ===== src/Usb.antt =====
-- src/legacy_usb.c, the USB protocol of the Crazyradio PA: its state, its callbacks and its thread.
pub mod State
pub mod Out
pub mod Scan
pub mod Command
pub mod Vendor
pub mod Data
pub mod Stream
pub mod Invariant
pub mod Session
pub mod Queue
pub mod Descriptor
pub mod Firmware
pub mod Examples
