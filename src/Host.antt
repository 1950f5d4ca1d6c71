-- ===== src/Host.antt =====
-- apps/gibberish-daemon/src: the daemon on the host.
pub mod Nonce
pub mod Clipboard
pub mod Chunks
