-- ===== src/Esb.antt =====
-- src/esb.c, the Enhanced ShockBurst radio: its state, its interrupt handler and its functions.
pub mod State
pub mod Isr
pub mod Address
pub mod Config
pub mod Send
pub mod Sniffer
pub mod Unnoticed
pub mod Api
mod Examples
