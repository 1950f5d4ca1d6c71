-- ===== src/Host/Chunks.antt =====
-- `ChunkEngine` of apps/gibberish-daemon/src/chunk.rs: fragmentation, reassembly and selective
-- retransmission. Times are milliseconds, and a call reads the clock once. A text is its bytes;
-- whether bytes are UTF-8 is the parameter `is_utf8`.
pub mod Engine
pub mod Send
pub mod Receive
pub mod Sacks
pub mod Fragments
pub mod Slots
pub mod Store
pub mod Reassembly
pub mod Arrival
pub mod Delivered
mod Branches
pub mod Counting
pub mod Bounded
pub mod Eviction
pub mod Refused
pub mod Panics
pub mod Marked
pub mod Retransmit
pub mod RateLimit
