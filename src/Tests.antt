-- ===== src/Tests.antt =====
-- The theorems at concrete inputs: a short message, a full peer table, a card that works, a pairing
-- that times out.
mod Data
mod Protocol
mod Storage
mod Radio
mod Host
mod Usb
mod Line
mod Chunks
mod Engine
mod Firmware
