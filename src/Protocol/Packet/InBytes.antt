-- ===== src/Protocol/Packet/InBytes.antt =====
-- The wire bytes of a packet are bytes.
use gibberish.Prelude.{ℕ, zero, suc, List, [], ◌∷◌, replicate, arith, All}
use gibberish.Prelude.Bytes.{IsByte, overwrite, write_at, to_be_bytes, to_be_bytes-IsByte}
use gibberish.Protocol.Consts.{mesh_header_len}
use gibberish.Protocol.Header
use gibberish.Protocol.Header.{MeshHeader, IsHeader}
use gibberish.Protocol.Packet.{MeshPacket, IsPacket, wire_payload_len, serialize_payload}

zeros-IsByte : (n : ℕ) → All IsByte (replicate n 0)
zeros-IsByte zero = tt
zeros-IsByte (suc n) = (omega arith, zeros-IsByte n)

overwrite-IsByte :
    (src buf : List ℕ) → All IsByte src → All IsByte buf → All IsByte (overwrite src buf)
overwrite-IsByte [] buf h k = k
overwrite-IsByte (x ∷ src) [] h k = tt
overwrite-IsByte (x ∷ src) (b ∷ buf) h k = (h.0, overwrite-IsByte src buf h.1 k.1)

write_at-IsByte :
    (i : ℕ) (src buf : List ℕ) → All IsByte src → All IsByte buf → All IsByte (write_at i src buf)
unfolding write_at
write_at-IsByte zero src buf h k = overwrite-IsByte src buf h k
write_at-IsByte (suc i) src [] h k = tt
write_at-IsByte (suc i) src (b ∷ buf) h k = (k.0, write_at-IsByte i src buf h k.1)

serialize-IsByte :
    (h : MeshHeader) (buf : List ℕ)
    → IsHeader h
    → All IsByte buf
    → All IsByte (Header.serialize h buf)
unfolding Header.serialize
serialize-IsByte h buf v k =
    let k0 = write_at-IsByte 0 (to_be_bytes 8 h.network_tag) buf (to_be_bytes-IsByte 8 _) k in
    let k1 = write_at-IsByte 8 (to_be_bytes 4 h.msg_id) _ (to_be_bytes-IsByte 4 _) k0 in
    let k2 = write_at-IsByte 12 (h.chunk_idx ∷ []) _ (v.chunk_idx_fits, tt) k1 in
    let k3 = write_at-IsByte 13 (h.total_chunks ∷ []) _ (v.total_chunks_fits, tt) k2 in
    let k4 = write_at-IsByte 14 (h.ttl ∷ []) _ (v.ttl_fits, tt) k3 in
    let k5 = write_at-IsByte 15 (h.hop_count ∷ []) _ (v.hop_count_fits, tt) k4 in
    write_at-IsByte 16 (to_be_bytes 2 h.flags) _ (to_be_bytes-IsByte 2 _) k5

pub serialize_payload-IsByte :
    (p : MeshPacket)
    → IsPacket p
    → All IsByte p.payload
    → All IsByte (serialize_payload p (replicate wire_payload_len 0))
unfolding serialize_payload
serialize_payload-IsByte p v h = write_at-IsByte mesh_header_len p.payload _ h (
    write_at-IsByte 0 _ _
      (serialize-IsByte p.header (replicate mesh_header_len 0) v.header_fits
        (zeros-IsByte mesh_header_len))
      (zeros-IsByte wire_payload_len))
