-- ===== src/Protocol/Header/RoundTrip.antt =====
-- A header that was serialized is read back unchanged.
use gibberish.Prelude.{ℕ, ◌≡◌, List, length}
use gibberish.Prelude.Bytes.{buffer_laws, word_laws}
use gibberish.Protocol.Consts.{mesh_header_len}
use gibberish.Protocol.Header.{MeshHeader, IsHeader, serialize, deserialize}

pub length-serialize : (h : MeshHeader) (buf : List ℕ) → length (serialize h buf) ≡ length buf
unfolding serialize
length-serialize h buf = simp buffer_laws

-- Serializing a header into any 18-byte buffer and reading that buffer back gives the header,
-- for every header whose fields are in the ranges of their types.
pub header_roundtrip :
    (h : MeshHeader) (buf : List ℕ)
    → IsHeader h
    → length buf ≡ mesh_header_len
    → deserialize (serialize h buf) ≡ h
unfolding serialize deserialize
header_roundtrip h buf v e =
    simp (buffer_laws, word_laws, e, v.network_tag_fits, v.msg_id_fits, v.flags_fits)
