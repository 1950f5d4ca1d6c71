-- ===== src/Host/Chunks/Send.antt =====
-- `fragment_and_encrypt`, and the cache of what was sent.
use Prim.Native.Nat.{bit_and, bit_or}
use gibberish.Prelude.{
  ℕ, zero, suc, ◌+◌, ◌-◌, ◌*◌, ◌/◌, ◌%◌, Bool, none, some, List, [], ◌∷◌, length, ltb, ◌==◌,
  if◌then◌else◌,
}
use gibberish.Prelude.Bytes.{slice}
use gibberish.Prelude.HashMap.{put}
use gibberish.Protocol.Consts.{plaintext_chunk_len, flag_clipboard}
use gibberish.Protocol.Packet.{MeshPacket}
use gibberish.Crypto.{
  Primitives, Result, ok, err, payload_too_large, invalid_nonce, derive_sender_subkey,
  encrypt_chunk,
}
use gibberish.Host.Nonce.{NonceManager, World, allocate_msg}
use gibberish.Host.Chunks.Engine.{ChunkEngine, max_total_chunks, same_id}

-- `(local_node_id & 0xFFFF_0000) | ((counter & 0x0000_FFFF) as u32)`
unfoldable pub message_id : ℕ → ℕ → ℕ
message_id local_node_id counter =
    bit_or (bit_and local_node_id 0xFFFF0000) (bit_and counter 0xFFFF)

unfoldable pub num_chunks : List ℕ → ℕ
num_chunks raw_bytes = (length raw_bytes + plaintext_chunk_len - 1) / plaintext_chunk_len

unfoldable pub chunk_data : List ℕ → ℕ → List ℕ
chunk_data raw_bytes chunk_idx =
    slice (chunk_idx * plaintext_chunk_len) plaintext_chunk_len raw_bytes

unfoldable pub chunk_packet : ℕ → ℕ → ℕ → ℕ → List ℕ → MeshPacket
chunk_packet swarm_tag msg_id chunk_idx total_chunks ciphertext = record {
  header = record {
    network_tag = swarm_tag;
    msg_id = msg_id;
    chunk_idx = chunk_idx;
    total_chunks = total_chunks;
    ttl = 7;
    hop_count = 0;
    flags = flag_clipboard;
  };
  payload = ciphertext;
}

-- `packets.push` before what the later turns push
unfoldable pub pushed : MeshPacket → Result (List MeshPacket) → Result (List MeshPacket)
pushed p (ok ps) = ok (p ∷ ps)
pushed p (err e) = err e

module _ (c : Primitives) where
  -- `for chunk_idx in 0..total_chunks`, with `rounds` to go
  unfoldable pub fragments : ℕ → ℕ → List ℕ → ℕ → ℕ → ℕ → List ℕ → Result (List MeshPacket)
  fragments zero chunk_idx sender_key swarm_tag msg_id total_chunks raw_bytes = ok []
  fragments (suc rounds) chunk_idx sender_key swarm_tag msg_id total_chunks raw_bytes =
      let rest =
        fragments rounds (chunk_idx + 1) sender_key swarm_tag msg_id total_chunks raw_bytes in
      elim (encrypt_chunk c sender_key msg_id chunk_idx msg_id (chunk_data raw_bytes chunk_idx)) [
        | err e ↦ err e
        | ok ciphertext ↦
            pushed (chunk_packet swarm_tag msg_id chunk_idx total_chunks ciphertext) rest
      ]

  -- `written` is whether the state file of the nonce manager can be written.
  unfoldable pub fragment_and_encrypt :
      List ℕ → ℕ → ℕ → List ℕ → Bool → NonceManager → World → World × Result (List MeshPacket)
  fragment_and_encrypt raw_bytes swarm_tag local_node_id swarm_master_key written nonce_mgr w =
      let num = num_chunks raw_bytes in
      let total_chunks = num % 256 in
      let (w', allocated) = allocate_msg written nonce_mgr w in
      let sender_key = derive_sender_subkey c swarm_master_key local_node_id in
      if length raw_bytes == 0
      then (w, ok [])
      else (if ltb max_total_chunks num then (w, err payload_too_large) else elim allocated [
        | none ↦ (w', err invalid_nonce)
        | some (epoch_secs, counter) ↦ (
          w',
          fragments total_chunks 0 sender_key swarm_tag (message_id local_node_id counter)
              total_chunks raw_bytes,
        )
      ])

unfoldable pub cache_outbound : ℕ → List MeshPacket → ChunkEngine → ChunkEngine
cache_outbound now [] e = e
cache_outbound now (first ∷ packets) e = record e {
  outbox_cache = put same_id first.header.msg_id (first ∷ packets, now) e.outbox_cache;
}
