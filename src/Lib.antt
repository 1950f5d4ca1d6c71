-- ===== src/Lib.antt =====
-- A model of Project Gibberish: an encrypted text and telemetry mesh of IEEE 802.15.4 dongles, each
-- with a daemon on a host. Paths are those of the repository.
--
-- A dongle receives frames from the radio (apps/gibberish-firmware/src/radio/ieee802154.rs), drops
-- duplicates (radio/dedup.rs), records who sent them (the peer table of
-- crates/gibberish-protocol/src/frame.rs), keeps the packets in a ring in memory
-- (crates/gibberish-storage/src/sram_ring.rs), flushes the ring to a card
-- (crates/gibberish-storage/src/fat32_container.rs), and relays a packet after a delay through a
-- queue that is cancelled when a stronger node relays first. The radio is shared with BLE by a fixed
-- cycle (radio/coex.rs), and pairing over BLE needs a button (radio/ble_gate.rs). The firmware's main
-- loop (apps/gibberish-firmware/src/main.rs) runs all of these in turns of 5 ms. The daemon takes the
-- texts that are copied on its host (apps/gibberish-daemon/src/clipboard.rs), gives each an epoch and a
-- counter (apps/gibberish-daemon/src/nonce.rs), cuts it into chunks and encrypts them
-- (apps/gibberish-daemon/src/chunk.rs over crates/gibberish-crypto/src/ratchet.rs), and hands the packets
-- to its dongle over a serial line. From the packets that its dongle receives, the daemon assembles the
-- texts of others, asks for missing chunks by SACK packets and answers those of others.
--
-- Files and code:
--   Prelude: Boolean tests, lists measured by native numbers, byte buffers and big-endian words, bits
--     of bytes and words, signed bytes, and windows of circular buffers.
--   Protocol: frame.rs. Consts, Jitter; Header (MeshHeader::serialize, deserialize); Packet
--     (MeshPacket, decrement_ttl); Peers (PeerTable::record_peer and the queries); Sack
--     (SackPayload); Telemetry (the two payloads and their codes).
--   Storage: Ring (SramRingBuffer), Record (ChunkRecord, CheckpointSector), Manager
--     (DynamicStorageManager, BlockDevice, crc7), Error (StorageError).
--   Radio: Coex (TdmArbiter), BleGate (BleSecurityGate), Dedup (SlidingBloomFilter), Backoff
--     (BackoffController), Phy (RadioManager, assemble_phy_frame, the parsers).
--   Crypto: ratchet.rs; RoundTrip and Chain are about its chunks and its chain of keys.
--   Host: Nonce (NonceManager), Clipboard (ClipboardManager), and Chunks (ChunkEngine): Engine (state
--     and purge_expired), Send (fragment_and_encrypt, cache_outbound), Receive (ingest_packet), Sacks
--     (check_pending_sacks, handle_sack, suppress_sack). Its proofs: Fragments, Slots, Store,
--     Reassembly, Arrival, Delivered, Branches, Counting, Bounded, Eviction, Refused, Panics, Marked, Retransmit
--     and RateLimit.
--   Usb: the frame of SerialTransport::send_packet (apps/gibberish-daemon/src/transport.rs), and the
--     parser of the firmware's main loop with its hand-over. Line: the lines that the dongle prints for
--     packets, poll_stream and parse_pkt_line; its proofs: RoundTrip, Stream and Printed. Text: what
--     they use of Rust's strings. NodeId: parse_dongle_node_id.
--   Firmware: main.rs of the firmware: Node (the variables of main), Receive (the frames of a slot), Loop
--     (a turn). Its proofs: Duplicates, Seen, Shared, Relaying, Invariant, Turns and Start.
--   Tests: the theorems at concrete inputs.
--
-- A method is a function from the state to the new state and the result, under the name of the
-- method. Integers are natural numbers with the wrap-around or saturation of the source written out;
-- a theorem that needs the range of a field's type says so (IsHeader, IsPacket, IsSack, IsPayload).
-- Arrays are lists, with their lengths in the same predicates. Loops over fixed ranges are structural
-- recursions on the number of rounds, which is the source's number of rounds. The loop that polls the
-- radio has fuel, the number of the frames that wait, of which each round takes one at least.
-- A hash map is an association list with distinct keys, whose order stands for the order
-- of iteration; an operation of the chunk engine reads the clock once.
--
-- Parameters: the CRC-32 of crc32fast (its values fit 32 bits), BLAKE3, ChaCha20-Poly1305 and X25519 (the
-- record Primitives; IsPrimitives says that the lengths are right and that decryption with the same key
-- and nonce undoes encryption), the test for UTF-8, the block device (its states are any type, and any
-- call may fail; for recovery it is a card that works), the radio driver's pending frames and what it
-- answers to a transmission, the button, the bytes from the host, the random numbers and the free memory
-- (the record Inputs), the clock, and whether a write of the state file or of the clipboard succeeded.
-- No theorem needs a checksum or a cipher to be strong.
--
-- The firmware is the one built without the feature prod. In Firmware, a line that the dongle prints for
-- the daemon is the pair of its node id and its packet; Usb/Line has its text.
--
-- Not modelled: the opening of the serial port, the daemon's main loop with its sockets, the fleet
-- monitor, the firmware's log lines, LED and display, the wiping of secrets in memory, the SD card's SPI
-- commands, and the clients in other languages. The accessors that return a field are the fields
-- themselves.
pub mod Prelude
pub mod Protocol
pub mod Storage
pub mod Crypto
pub mod Radio
pub mod Host
pub mod Usb
pub mod Firmware
pub mod Tests
