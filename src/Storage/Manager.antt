-- ===== src/Storage/Manager.antt =====
-- `crc7`, the `BlockDevice` trait and `DynamicStorageManager` of
-- crates/gibberish-storage/src/fat32_container.rs. A device is any type of states with the trait's
-- two methods; the CRC-32 of the `crc32fast` crate is the parameter `crc32`.
pub mod Log
pub mod Rounds
pub mod Flush
pub mod Recovery
pub mod Intact
use Prim.Native.Nat.{bit_and, bit_or, bit_xor}
use gibberish.Prelude.{
  ℕ, zero, suc, ◌+◌, ◌*◌, ◌/◌, ◌%◌, ◌^◌, Bool, true, false, not, ◌&&◌, Option, none, some, List, [],
  ◌∷◌, replicate, leb, ◌==◌, if◌then◌else◌, saturating_add, max, is_none,
}
use gibberish.Prelude.Bytes.{write_at, slice}
use gibberish.Protocol.Telemetry.{StorageModeStatus, ram_only, micro_sd_active}
use gibberish.Protocol.Packet.{MeshPacket}
use gibberish.Storage.Error.{Result, ok, err, to_option}
use gibberish.Storage.Record.{
  ChunkRecord, CheckpointSector, record_size, sector_size, serialize_record, serialize_checkpoint,
  deserialize_checkpoint,
}
use gibberish.Storage.Ring
use gibberish.Storage.Ring.{SramRingBuffer}

-- `for i in (0..8).rev()`, with `i` bits left. `crc` is a `u8`; `crc <<= 1` drops the top bit.
crc7_bits : ℕ → ℕ → ℕ → ℕ
crc7_bits zero b crc = crc
crc7_bits (suc i) b crc =
    let bit = bit_and (b / 2 ^ i) 1 in
    let carry = bit_and (crc / 2 ^ 7) 1 in
    let shifted = crc * 2 % 256 in
    crc7_bits i b (if bit_xor carry bit == 0 then shifted else bit_xor shifted 0x12)

crc7_loop : ℕ → List ℕ → ℕ
unfolding crc7_bits
crc7_loop crc [] = crc
crc7_loop crc (b ∷ bytes) = crc7_loop (crc7_bits 8 b crc) bytes

unfoldable pub crc7 : List ℕ → ℕ
unfolding crc7_loop
crc7 bytes = bit_or (crc7_loop 0 bytes) 1

-- The trait: a call returns the device's next state. `read_block` returns what the buffer holds
-- afterwards beside its result.
pub record BlockDevice (D : Type 0) : Type 0 where
  pub read_block : D → ℕ → List ℕ → D × List ℕ × Result (Unit {0})
  pub write_block : D → ℕ → List ℕ → D × Result (Unit {0})

pub record Manager (D : Type 0) : Type 0 where
  pub device : Option D
  pub mode : StorageModeStatus
  pub current_sequence : ℕ
  pub current_lba : ℕ
  pub torn_writes_recovered : ℕ

abbrev pub is_ram_only : StorageModeStatus → Bool
is_ram_only ram_only = true
is_ram_only micro_sd_active = false

-- The chunk container begins at this block.
abbrev pub first_lba : ℕ
first_lba = 10

unfoldable pub new_ram_only : {D : Type 0} → Manager D
new_ram_only = record {
  device = none;
  mode = ram_only;
  current_sequence = 0;
  current_lba = first_lba;
  torn_writes_recovered = 0;
}

-- `(head_offset / SECTOR_SIZE) as u32`
abbrev pub lba_of : CheckpointSector → ℕ
lba_of c = c.head_offset / sector_size % 2 ^ 32

-- The `match` on the two checkpoints: sequence, block and recovered torn writes.
unfoldable pub choose_checkpoint : Option CheckpointSector → Option CheckpointSector → ℕ × ℕ × ℕ
choose_checkpoint (some c1) (some c2) =
    if leb c2.sequence c1.sequence then (c1.sequence, lba_of c1, 0) else (c2.sequence, lba_of c2, 0)
choose_checkpoint (some c1) none = (c1.sequence, lba_of c1, 1)
choose_checkpoint none (some c2) = (c2.sequence, lba_of c2, 1)
choose_checkpoint none none = (0, first_lba, 0)

abbrev pub is_err : {A : Type 0} → Result A → Bool
is_err (ok a) = false
is_err (err e) = true

-- `res.ok().and_then(|()| CheckpointSector::deserialize(&sector).ok())`
abbrev pub read_checkpoint : (List ℕ → ℕ) → Result (Unit {0}) → List ℕ → Option CheckpointSector
read_checkpoint crc32 (ok u) sector = to_option (deserialize_checkpoint crc32 sector)
read_checkpoint crc32 (err e) sector = none

-- The block that a packet's record is written in: the record, and zeros behind it.
abbrev pub record_block : (List ℕ → ℕ) → ℕ → MeshPacket → List ℕ
record_block crc32 sequence packet =
    let record_bytes =
      serialize_record crc32 (record { sequence = sequence; ciphertext = packet.payload })
        (slice 0 record_size (replicate sector_size 0)) in
    write_at 0 record_bytes (replicate sector_size 0)

-- Two blocks are used in turn.
abbrev pub checkpoint_lba : ℕ → ℕ
checkpoint_lba sequence = if sequence % 32 == 0 then 1 else 2

abbrev pub checkpoint_of : ℕ → ℕ → CheckpointSector
checkpoint_of sequence lba = record {
  sequence = sequence;
  head_offset = lba * sector_size;
  tail_offset = first_lba * sector_size;
  total_records = sequence;
}

module _ {D : Type 0} (crc32 : List ℕ → ℕ) (dev : BlockDevice D) where
  open dev use {read_block, write_block}

  unfoldable pub new_with_device : D → Manager D
  unfolding choose_checkpoint
  new_with_device d0 =
      let (d1, sector1, read1) = read_block d0 1 (replicate sector_size 0) in
      let (d2, sector2, read2) = read_block d1 2 (replicate sector_size 0) in
      if is_err read1 && is_err read2
      then record {
        device = some d2;
        mode = ram_only;
        current_sequence = 0;
        current_lba = first_lba;
        torn_writes_recovered = 0;
      }
      else (let (seq, lba, torn_recovered) =
            choose_checkpoint (read_checkpoint crc32 read1 sector1)
              (read_checkpoint crc32 read2 sector2) in
          record {
            device = some d2;
            mode = micro_sd_active;
            current_sequence = seq;
            current_lba = max lba first_lba;
            torn_writes_recovered = torn_recovered;
          })

  -- Every 16 records a checkpoint is written; its result is ignored.
  unfoldable pub write_checkpoint : D → ℕ → ℕ → D
  write_checkpoint d sequence lba =
      if sequence % 16 == 0
      then ((write_block d (checkpoint_lba sequence)
          (serialize_checkpoint crc32 (checkpoint_of sequence lba) (replicate sector_size 0))).0)
      else d

  -- `for _ in 0..2`, with `rounds` to go, on a device that is present.
  pub flush_loop : ℕ → Manager D → D → SramRingBuffer → Manager D × SramRingBuffer
  flush_loop zero m d ring = (record m { device = some d }, ring)
  flush_loop (suc rounds) m d ring = elim (Ring.peek ring) [
    | none ↦ (record m { device = some d }, ring)
    | some packet ↦
        let next_seq = saturating_add 18446744073709551615 m.current_sequence 1 in
        let (d1, res) = write_block d m.current_lba (record_block crc32 next_seq packet) in
        elim res [
          | err e ↦ (record m { device = some d1; mode = ram_only }, ring)
          | ok u ↦
              let next_lba = saturating_add 4294967295 m.current_lba 1 in
              let d2 = write_checkpoint d1 next_seq next_lba in
              let m' = record m { current_sequence = next_seq; current_lba = next_lba } in
              flush_loop rounds m' d2 (Ring.pop ring).0
        ]
  ]

  unfoldable pub flush_from_sram : Manager D → SramRingBuffer → Manager D × SramRingBuffer
  unfolding flush_loop
  flush_from_sram m ring =
      if is_ram_only m.mode
      then (m, ring)
      else elim m.device [ none ↦ (m, ring) | some d ↦ flush_loop 2 m d ring ]
