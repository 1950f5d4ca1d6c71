-- ===== src/Protocol/Sack/RoundTrip.antt =====
-- A selective acknowledgement is read back as it was sent.
use gibberish.Prelude.{ℕ, ◌≡◌, List, length, length-replicate}
use gibberish.Prelude.Bytes.{buffer_laws, word_laws}
use gibberish.Protocol.Consts.{ciphertext_len}
use gibberish.Protocol.Sack.{SackPayload, IsSack, serialize, deserialize}

pub length-serialize : (s : SackPayload) (out : List ℕ) → length (serialize s out) ≡ length out
unfolding serialize
length-serialize s out = simp (buffer_laws, length-replicate)

-- A SACK serialized into any 96-byte buffer, whatever it held, is read back unchanged: both node
-- ids, the base and all 64 bytes of the bitmask.
pub sack_roundtrip :
    (s : SackPayload) (out : List ℕ)
    → IsSack s
    → length out ≡ ciphertext_len
    → deserialize (serialize s out) ≡ s
unfolding serialize deserialize
sack_roundtrip s out v e = simp (
  buffer_laws, word_laws, length-replicate, e, v.receiver_fits, v.sender_fits, v.base_fits,
  v.bitmask_len,
)
