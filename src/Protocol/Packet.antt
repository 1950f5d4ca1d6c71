-- ===== src/Protocol/Packet.antt =====
-- `MeshPacket` of frame.rs: a mesh header and an opaque 96-byte payload.
pub mod RoundTrip
pub mod Relay
pub mod InBytes
use gibberish.Prelude.{
  ℕ, ◌+◌, ◌-◌, ◌≡◌, Bool, true, false, List, replicate, length, ltb, ◌==◌, if◌then◌else◌,
  saturating_add, All,
}
use gibberish.Prelude.Bytes.{write_at, slice, IsByte}
use gibberish.Protocol.Consts.{mesh_header_len, ciphertext_len}
use gibberish.Protocol.Header
use gibberish.Protocol.Header.{MeshHeader, IsHeader}

pub record MeshPacket : Type 0 where
  pub header : MeshHeader
  pub payload : List ℕ

-- The header's fields are in range and the payload is an array of 96 bytes.
pub record IsPacket (p : MeshPacket) : Type 0 where
  pub header_fits : IsHeader p.header
  pub payload_len : length p.payload ≡ ciphertext_len

abbrev pub wire_payload_len : ℕ
wire_payload_len = mesh_header_len + ciphertext_len

unfoldable pub serialize_payload : MeshPacket → List ℕ → List ℕ
serialize_payload p out =
    let hdr_buf = Header.serialize p.header (replicate mesh_header_len 0) in
    write_at mesh_header_len p.payload (write_at 0 hdr_buf out)

unfoldable pub deserialize_payload : List ℕ → MeshPacket
deserialize_payload buf =
    let hdr_buf = write_at 0 (slice 0 mesh_header_len buf) (replicate mesh_header_len 0) in
    let payload =
      write_at 0 (slice mesh_header_len ciphertext_len buf) (replicate ciphertext_len 0) in
    record { header = Header.deserialize hdr_buf; payload = payload }

unfoldable pub matches_tag : MeshPacket → ℕ → Bool
matches_tag p expected_tag = p.header.network_tag == expected_tag

-- The new packet, and whether it may be relayed. `hop_count` is a `u8` and saturates.
unfoldable pub decrement_ttl : MeshPacket → MeshPacket × Bool
decrement_ttl p =
    if ltb 0 p.header.ttl
    then (
      record p {
        header = record p.header {
          ttl = p.header.ttl - 1;
          hop_count = saturating_add 255 p.header.hop_count 1;
        };
      },
      true,
    )
    else (p, false)
