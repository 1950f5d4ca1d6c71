-- ===== src/Protocol/Packet/RoundTrip.antt =====
-- The 114 wire bytes of a packet.
use gibberish.Prelude.{ℕ, ◌≡◌, List, length, replicate}
use gibberish.Prelude.Bytes.{buffer_laws}
use gibberish.Protocol.Consts.{mesh_header_len}
use gibberish.Protocol.Header.RoundTrip.{length-serialize, header_roundtrip}
use gibberish.Protocol.Packet.{
  MeshPacket, IsPacket, wire_payload_len, serialize_payload, deserialize_payload,
}

pub length-serialize_payload :
    (p : MeshPacket) (out : List ℕ) → length (serialize_payload p out) ≡ length out
unfolding serialize_payload
length-serialize_payload p out = simp buffer_laws

-- A packet serialized into any 114-byte buffer is read back unchanged: the header, for fields in
-- the ranges of their types, and all 96 payload bytes.
pub deserialize_payload-serialize_payload :
    (p : MeshPacket) (out : List ℕ)
    → IsPacket p
    → length out ≡ wire_payload_len
    → deserialize_payload (serialize_payload p out) ≡ p
unfolding serialize_payload deserialize_payload
deserialize_payload-serialize_payload p out v e = simp (
  buffer_laws,
  length-serialize,
  e,
  v.payload_len,
  header_roundtrip p.header (replicate mesh_header_len 0) v.header_fits,
)
