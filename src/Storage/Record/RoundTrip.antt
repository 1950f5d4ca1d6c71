-- ===== src/Storage/Record/RoundTrip.antt =====
-- Records and checkpoints are read back as they were written.
use gibberish.Prelude.{ℕ, ◌<◌, ◌^◌, ◌≡◌, List, length, arith}
use gibberish.Prelude.Bytes.{
  bytes_eq, buffer_laws, word_laws, from_be_bytes, to_be_bytes, u16_roundtrip,
}
use gibberish.Protocol.Consts.{record_commit_marker}
use gibberish.Storage.Error.{ok}
use gibberish.Storage.Record.{
  ChunkRecord, IsRecord, CheckpointSector, IsCheckpoint, record_size, sector_size, serialize_record,
  deserialize_record, serialize_checkpoint, deserialize_checkpoint,
}

marker : from_be_bytes (to_be_bytes 2 record_commit_marker) ≡ record_commit_marker
marker = u16_roundtrip record_commit_marker (omega arith)

-- A checksum is a `u32`.
module _ (crc32 : List ℕ → ℕ) (crc32_fits : (bytes : List ℕ) → crc32 bytes < 2 ^ 32) where
  -- A record written into any 116-byte buffer is read back: magic, commit word and checksum all
  -- pass, and the sequence number and the 96 bytes of ciphertext are those written.
  pub deserialize_record-serialize_record :
      (r : ChunkRecord) (out : List ℕ)
      → IsRecord r
      → length out ≡ record_size
      → deserialize_record crc32 (serialize_record crc32 r out) ≡ ok r
  unfolding serialize_record deserialize_record bytes_eq
  deserialize_record-serialize_record r out v e =
      simp (buffer_laws, word_laws, e, v.sequence_fits, v.ciphertext_fits, crc32_fits, marker)
        (ground arith)

  -- A checkpoint written into any 512-byte sector is read back with its four fields.
  pub deserialize_checkpoint-serialize_checkpoint :
      (c : CheckpointSector) (sector : List ℕ)
      → IsCheckpoint c
      → length sector ≡ sector_size
      → deserialize_checkpoint crc32 (serialize_checkpoint crc32 c sector) ≡ ok c
  unfolding serialize_checkpoint deserialize_checkpoint bytes_eq
  deserialize_checkpoint-serialize_checkpoint c sector v e =
      simp
        (
          buffer_laws, word_laws, e, v.sequence_fits, v.head_fits, v.tail_fits, v.total_fits,
          crc32_fits, marker,
        )
        (ground arith)
