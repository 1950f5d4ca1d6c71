-- ===== src/Protocol.antt =====
-- crates/gibberish-protocol/src/frame.rs: the constants of the wire formats, and the modules for
-- the mesh packet, the selective acknowledgement, the telemetry payload and the peer table.
pub mod Consts
pub mod Jitter
pub mod Header
pub mod Packet
pub mod Peers
pub mod Sack
pub mod Telemetry
