-- ===== src/Storage/Record.antt =====
-- `ChunkRecord` and `CheckpointSector` of crates/gibberish-storage/src/fat32_container.rs. The
-- CRC-32 of the `crc32fast` crate is the parameter `crc32`.
pub mod RoundTrip
pub mod Torn
use gibberish.Prelude.{
  ℕ, ◌+◌, ◌<◌, ◌^◌, ◌≡◌, Bool, true, false, not, ◌&&◌, List, [], ◌∷◌, replicate, length, ◌==◌,
  if◌then◌else◌, All,
}
use gibberish.Prelude.Bytes.{bytes_eq, write_at, slice, to_be_bytes, from_be_bytes}
use gibberish.Protocol.Consts.{ciphertext_len, record_magic, record_commit_marker}
use gibberish.Storage.Error.{Result, ok, err, torn_write_detected, invalid_magic, crc_mismatch}

abbrev pub record_size : ℕ
record_size = 116

abbrev pub sector_size : ℕ
sector_size = 512

pub record ChunkRecord : Type 0 where
  pub sequence : ℕ
  pub ciphertext : List ℕ

pub record IsRecord (r : ChunkRecord) : Type 0 where
  pub sequence_fits : r.sequence < 2 ^ 64
  pub ciphertext_fits : length r.ciphertext ≡ ciphertext_len

pub record CheckpointSector : Type 0 where
  pub sequence : ℕ
  pub head_offset : ℕ
  pub tail_offset : ℕ
  pub total_records : ℕ

pub record IsCheckpoint (c : CheckpointSector) : Type 0 where
  pub sequence_fits : c.sequence < 2 ^ 64
  pub head_fits : c.head_offset < 2 ^ 64
  pub tail_fits : c.tail_offset < 2 ^ 64
  pub total_fits : c.total_records < 2 ^ 64

-- "GCPT"
abbrev pub checkpoint_magic : List ℕ
checkpoint_magic = b'G' ∷ b'C' ∷ b'P' ∷ b'T' ∷ []

module _ (crc32 : List ℕ → ℕ) where
  unfoldable pub serialize_record : ChunkRecord → List ℕ → List ℕ
  serialize_record r out =
      let b0 = write_at 0 record_magic out in
      let b1 = write_at 4 (to_be_bytes 8 r.sequence) b0 in
      let b2 = write_at 12 (to_be_bytes 2 ciphertext_len) b1 in
      let b3 = write_at 14 r.ciphertext b2 in
      let b4 = write_at 110 (to_be_bytes 4 (crc32 (slice 0 110 b3))) b3 in
      write_at 114 (to_be_bytes 2 record_commit_marker) b4

  unfoldable pub deserialize_record : List ℕ → Result ChunkRecord
  unfolding bytes_eq
  deserialize_record buf =
      if not (bytes_eq (slice 0 4 buf) record_magic)
      then err invalid_magic
      else (if not (from_be_bytes (slice 114 2 buf) == record_commit_marker)
          then err torn_write_detected
          else (if not (crc32 (slice 0 110 buf) == from_be_bytes (slice 110 4 buf))
              then err crc_mismatch
              else ok (record {
                sequence = from_be_bytes (slice 4 8 buf);
                ciphertext = write_at 0 (slice 14 96 buf) (replicate ciphertext_len 0);
              })))

  unfoldable pub serialize_checkpoint : CheckpointSector → List ℕ → List ℕ
  serialize_checkpoint c sector =
      let s0 = replicate (length sector) 0 in
      let s1 = write_at 0 checkpoint_magic s0 in
      let s2 = write_at 4 (to_be_bytes 8 c.sequence) s1 in
      let s3 = write_at 12 (to_be_bytes 8 c.head_offset) s2 in
      let s4 = write_at 20 (to_be_bytes 8 c.tail_offset) s3 in
      let s5 = write_at 28 (to_be_bytes 8 c.total_records) s4 in
      let s6 = write_at 36 (to_be_bytes 4 (crc32 (slice 0 36 s5))) s5 in
      write_at 510 (to_be_bytes 2 record_commit_marker) s6

  unfoldable pub deserialize_checkpoint : List ℕ → Result CheckpointSector
  unfolding bytes_eq
  deserialize_checkpoint sector =
      if not (bytes_eq (slice 0 4 sector) checkpoint_magic)
      then err invalid_magic
      else (if not (from_be_bytes (slice 510 2 sector) == record_commit_marker)
          then err torn_write_detected
          else (if not (crc32 (slice 0 36 sector) == from_be_bytes (slice 36 4 sector))
              then err crc_mismatch
              else ok (record {
                sequence = from_be_bytes (slice 4 8 sector);
                head_offset = from_be_bytes (slice 12 8 sector);
                tail_offset = from_be_bytes (slice 20 8 sector);
                total_records = from_be_bytes (slice 28 8 sector);
              })))
