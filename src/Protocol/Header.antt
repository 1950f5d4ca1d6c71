-- ===== src/Protocol/Header.antt =====
-- `MeshHeader` of frame.rs. Byte arrays are lists of numbers; `serialize` takes the buffer that the
-- source writes into and returns what it holds afterwards.
pub mod RoundTrip
use gibberish.Prelude.{ℕ, ◌<◌, ◌^◌, List}
use gibberish.Prelude.Bytes.{write_at, set_byte, slice, byte_at, to_be_bytes, from_be_bytes}

pub record MeshHeader : Type 0 where
  pub network_tag : ℕ
  pub msg_id : ℕ
  pub chunk_idx : ℕ
  pub total_chunks : ℕ
  pub ttl : ℕ
  pub hop_count : ℕ
  pub flags : ℕ

-- The ranges of the fields' integer types.
pub record IsHeader (h : MeshHeader) : Type 0 where
  pub network_tag_fits : h.network_tag < 2 ^ 64
  pub msg_id_fits : h.msg_id < 2 ^ 32
  pub chunk_idx_fits : h.chunk_idx < 256
  pub total_chunks_fits : h.total_chunks < 256
  pub ttl_fits : h.ttl < 256
  pub hop_count_fits : h.hop_count < 256
  pub flags_fits : h.flags < 2 ^ 16

unfoldable pub serialize : MeshHeader → List ℕ → List ℕ
serialize h buf =
    let b0 = write_at 0 (to_be_bytes 8 h.network_tag) buf in
    let b1 = write_at 8 (to_be_bytes 4 h.msg_id) b0 in
    let b2 = set_byte 12 h.chunk_idx b1 in
    let b3 = set_byte 13 h.total_chunks b2 in
    let b4 = set_byte 14 h.ttl b3 in
    let b5 = set_byte 15 h.hop_count b4 in write_at 16 (to_be_bytes 2 h.flags) b5

unfoldable pub deserialize : List ℕ → MeshHeader
deserialize buf = record {
  network_tag = from_be_bytes (slice 0 8 buf);
  msg_id = from_be_bytes (slice 8 4 buf);
  chunk_idx = byte_at 12 buf;
  total_chunks = byte_at 13 buf;
  ttl = byte_at 14 buf;
  hop_count = byte_at 15 buf;
  flags = from_be_bytes (slice 16 2 buf);
}
