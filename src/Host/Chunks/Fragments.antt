-- ===== src/Host/Chunks/Fragments.antt =====
-- What `fragment_and_encrypt` sends: one packet for each chunk of the text.
use gibberish.Prelude.{
  ℕ, zero, suc, ◌+◌, ◌*◌, ◌%◌, ◌≤◌, ◌<◌, ◌≡◌, ◌≢◌, refl, ap, Bool, some, List, [], ◌∷◌, length,
  arith, length-take, take, drop, subst, ◌∙◌, replicate,
}
use gibberish.Prelude.Bytes.{slice, overwrite, write_at}
use gibberish.Protocol.Consts.{plaintext_chunk_len, flag_clipboard}
use gibberish.Protocol.Packet.{MeshPacket}
use gibberish.Crypto.{
  Primitives, IsPrimitives, ok, derive_sender_subkey, encrypt_chunk, decrypt_chunk,
}
use gibberish.Crypto.RoundTrip.{padded, decrypt_chunk-encrypt_chunk}
use gibberish.Host.Nonce.{NonceManager, World, allocate_msg}
use gibberish.Host.Chunks.Send.{
  message_id, num_chunks, chunk_data, chunk_packet, pushed, fragments, fragment_and_encrypt,
}

-- A packet that carries its part of a text. A relay may have changed its time to live and hops.
pub record IsFragment (c : Primitives) (key : List ℕ) (msg_id : ℕ) (text : List ℕ) (p : MeshPacket)
    : Type 0 where
  pub same_message : p.header.msg_id ≡ msg_id
  pub same_total : p.header.total_chunks ≡ num_chunks text
  pub in_range : p.header.chunk_idx < num_chunks text
  pub decrypts :
      decrypt_chunk c key msg_id p.header.chunk_idx msg_id p.payload
      ≡ ok (padded (chunk_data text p.header.chunk_idx))

-- The packets are the fragments `i`, `i + 1`, ... of a text.
abbrev pub AreFragments : Primitives → List ℕ → ℕ → List ℕ → ℕ → List MeshPacket → Type 0
AreFragments c key msg_id text i [] = Unit
AreFragments c key msg_id text i (p ∷ ps) =
    (p.header.chunk_idx ≡ i)
    × IsFragment c key msg_id text p
    × AreFragments c key msg_id text (suc i) ps

-- A list with zeros behind it, up to a length.
unfoldable pub zero_filled : ℕ → List ℕ → List ℕ
zero_filled zero bytes = []
zero_filled (suc n) [] = 0 ∷ zero_filled n []
zero_filled (suc n) (b ∷ bytes) = b ∷ zero_filled n bytes

overwrite-zeros : (n : ℕ) (bytes : List ℕ) → overwrite bytes (replicate n 0) ≡ zero_filled n bytes
unfolding zero_filled
overwrite-zeros zero [] = refl
overwrite-zeros zero (b ∷ bytes) = refl
overwrite-zeros (suc n) [] = ap (λ r. 0 ∷ r) (overwrite-zeros n [])
overwrite-zeros (suc n) (b ∷ bytes) = ap (λ r. b ∷ r) (overwrite-zeros n bytes)

padded-zero_filled : (bytes : List ℕ) → padded bytes ≡ zero_filled 80 bytes
unfolding padded write_at
padded-zero_filled bytes = overwrite-zeros 80 bytes

-- A packet as it leaves the sender, with the `i`-th 80 bytes of a text in `n` chunks.
pub record IsChunk (c : Primitives) (key : List ℕ) (swarm_tag msg_id n : ℕ) (text : List ℕ) (i : ℕ)
    (p : MeshPacket) : Type 0 where
  pub header_is : p.header ≡ record {
    network_tag = swarm_tag;
    msg_id = msg_id;
    chunk_idx = i;
    total_chunks = n;
    ttl = 7;
    hop_count = 0;
    flags = flag_clipboard;
  }
  pub carries :
      decrypt_chunk c key msg_id i msg_id p.payload
      ≡ ok (zero_filled 80 (take 80 (drop (i * 80) text)))

-- The packets of the chunks `i`, `i + 1`, ... of a text.
abbrev pub AreChunks : Primitives → List ℕ → ℕ → ℕ → ℕ → List ℕ → ℕ → List MeshPacket → Type 0
AreChunks c key swarm_tag msg_id n text i [] = Unit
AreChunks c key swarm_tag msg_id n text i (p ∷ ps) =
    IsChunk c key swarm_tag msg_id n text i p × AreChunks c key swarm_tag msg_id n text (suc i) ps

length-chunk_data : (text : List ℕ) (i : ℕ) → length (chunk_data text i) ≤ plaintext_chunk_len
unfolding chunk_data slice
length-chunk_data text i =
    let n = length-take plaintext_chunk_len (drop (i * plaintext_chunk_len) text) in
    omega (arith, n)

module _ (c : Primitives) (v : IsPrimitives c) (key : List ℕ) (swarm_tag msg_id : ℕ)
    (text : List ℕ) where
  chunk_packet-IsFragment :
      (i : ℕ)
      → i < num_chunks text
      → (ct : List ℕ) × (encrypt_chunk c key msg_id i msg_id (chunk_data text i) ≡ ok ct)
        × IsFragment c key msg_id text (chunk_packet swarm_tag msg_id i (num_chunks text) ct)
  unfolding chunk_packet
  chunk_packet-IsFragment i h =
      let (ct, e, n, d) =
        decrypt_chunk-encrypt_chunk c v key msg_id i msg_id (chunk_data text i)
          (length-chunk_data text i) in
      (ct, e, record { same_message = refl; same_total = refl; in_range = h; decrypts = d })

  chunk_packet-IsChunk :
      (i : ℕ) (ct : List ℕ)
      → decrypt_chunk c key msg_id i msg_id ct ≡ ok (padded (chunk_data text i))
      → IsChunk c key swarm_tag msg_id
          (num_chunks text)
          text
          i
          (chunk_packet swarm_tag msg_id i (num_chunks text) ct)
  unfolding chunk_packet chunk_data slice
  chunk_packet-IsChunk i ct d = record {
    header_is = refl;
    carries = d ∙ ap ok (padded-zero_filled (take 80 (drop (i * 80) text)));
  }

  fragments-AreFragments :
      (n i : ℕ)
      → i + n ≤ num_chunks text
      → (ps : List MeshPacket) × (fragments c n i key swarm_tag msg_id (num_chunks text) text
          ≡ ok ps)
        × (length ps ≡ n)
        × AreFragments c key msg_id text i ps
        × AreChunks c key swarm_tag msg_id (num_chunks text) text i ps
  unfolding fragments pushed chunk_packet
  fragments-AreFragments zero i h = ([], refl, refl, tt, tt)
  fragments-AreFragments (suc n) i h =
      let (ct, e, f) = chunk_packet-IsFragment i (omega arith) in
      let (ps, r, l, fs, cs) = fragments-AreFragments n (i + 1) (omega arith) in
      let p = chunk_packet swarm_tag msg_id i (num_chunks text) ct in
      let at : i + 1 ≡ suc i = omega arith in
      (
        p ∷ ps,
        ground (arith, e, r),
        ap suc l,
        (refl, f, subst (λ k. AreFragments c key msg_id text k ps) at fs),
        (
          chunk_packet-IsChunk i ct f.decrypts,
          subst (λ k. AreChunks c key swarm_tag msg_id (num_chunks text) text k ps) at cs,
        ),
      )

-- What a text of 1 to 255 chunks, for which a counter is issued, is sent as.
fragment_and_encrypt_lem :
    (c : Primitives) (v : IsPrimitives c) (text : List ℕ) (swarm_tag node_id : ℕ) (master : List ℕ)
    → (written : Bool) (mgr : NonceManager) (w : World) (epoch counter : ℕ) → length text ≢ 0
    → num_chunks text < 256
    → (allocate_msg written mgr w).1 ≡ some (epoch, counter)
    → (ps : List MeshPacket) × ((fragment_and_encrypt c text swarm_tag node_id master written mgr
          w).1
        ≡ ok ps)
      × (length ps ≡ num_chunks text)
      × AreFragments c
          (derive_sender_subkey c master node_id)
          (message_id node_id counter)
          text
          0
          ps
      × AreChunks c
          (derive_sender_subkey c master node_id)
          swarm_tag
          (message_id node_id counter)
          (num_chunks text)
          text
          0
          ps
unfolding fragment_and_encrypt
fragment_and_encrypt_lem c v text swarm_tag node_id master written mgr w epoch counter h n a =
    let key = derive_sender_subkey c master node_id in
    let (ps, r, l, fs, cs) =
      fragments-AreFragments c v key swarm_tag (message_id node_id counter) text (num_chunks text) 0
        (omega arith) in
    let whole : num_chunks text % 256 ≡ num_chunks text = omega arith in
    (ps, ground (arith, r, whole), l, fs, cs)

-- The number of chunks is the length by 80, rounded up.
num_chunks-bounds :
    (text : List ℕ)
    → length text ≢ 0
    → (80 * num_chunks text < length text + 80) × (length text ≤ 80 * num_chunks text)
unfolding num_chunks
num_chunks-bounds text h = (omega arith, omega arith)

num_chunks-small : (text : List ℕ) → length text ≤ 20_400 → num_chunks text < 256
unfolding num_chunks
num_chunks-small text h = omega arith

-- The packets of such a text, as the receiver looks at them.
pub fragment_and_encrypt-AreFragments :
    (c : Primitives) (v : IsPrimitives c) (text : List ℕ) (swarm_tag node_id : ℕ) (master : List ℕ)
    → (written : Bool) (mgr : NonceManager) (w : World) (epoch counter : ℕ) → length text ≢ 0
    → num_chunks text < 256
    → (allocate_msg written mgr w).1 ≡ some (epoch, counter)
    → (ps : List MeshPacket) × ((fragment_and_encrypt c text swarm_tag node_id master written mgr
          w).1
        ≡ ok ps)
      × (length ps ≡ num_chunks text)
      × AreFragments c
          (derive_sender_subkey c master node_id)
          (message_id node_id counter)
          text
          0
          ps
fragment_and_encrypt-AreFragments c v text swarm_tag node_id master written mgr w epoch counter h n
      a =
    let (ps, r, l, fs, cs) =
      fragment_and_encrypt_lem c v text swarm_tag node_id master written mgr w epoch counter h n
        a in
    (ps, r, l, fs)

-- A text of 1 to 20,400 bytes, for which a counter is issued, is sent as `n` packets, its length by 80
-- rounded up: packet `i` has the swarm's tag, the message id, the index `i`, the total `n`, a time to
-- live of 7, no hops and the clipboard flag, and the sender's subkey decrypts it to the bytes from
-- `80 * i` on, 80 of them, or those up to the text's end and zeros behind.
pub fragment_and_encrypt-AreChunks :
    (c : Primitives) (v : IsPrimitives c) (text : List ℕ) (swarm_tag node_id : ℕ) (master : List ℕ)
    → (written : Bool) (mgr : NonceManager) (w : World) (epoch counter : ℕ) → length text ≢ 0
    → length text ≤ 20_400
    → (allocate_msg written mgr w).1 ≡ some (epoch, counter)
    → (n : ℕ) × ((80 * n < length text + 80) × (length text ≤ 80 * n))
      × ((ps : List MeshPacket) × ((fragment_and_encrypt c text swarm_tag node_id master written mgr
              w).1
            ≡ ok ps)
          × (length ps ≡ n)
          × AreChunks c
              (derive_sender_subkey c master node_id)
              swarm_tag
              (message_id node_id counter)
              n
              text
              0
              ps)
fragment_and_encrypt-AreChunks c v text swarm_tag node_id master written mgr w epoch counter h n a =
    let (ps, r, l, fs, cs) =
      fragment_and_encrypt_lem c v text swarm_tag node_id master written mgr w epoch counter h
        (num_chunks-small text n) a in
    (num_chunks text, num_chunks-bounds text h, (ps, r, l, cs))
