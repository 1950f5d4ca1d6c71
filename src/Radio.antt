-- ===== src/Radio.antt =====
-- apps/gibberish-firmware/src/radio: the slot arbiter, the pairing gate, duplicate detection, the
-- transmit queue and the frames on the air.
pub mod Coex
pub mod BleGate
pub mod Backoff
pub mod Phy
pub mod Dedup
