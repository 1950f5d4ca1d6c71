-- ===== src/Tests/Chunks.antt =====
-- A text of two chunks on its way, under a cipher that leaves a text as it is and checks its tag only.
use gibberish.Prelude.{
  ℕ, ◌*◌, ◌≤◌, zero, suc, ◌<◌, ◌≡◌, ◌≢◌, refl, ap, ◌∙◌, Bool, true, false, Option, none, some, List,
  [], ◌∷◌, length, All, arith, replicate, if◌then◌else◌, map, subst,
}
use gibberish.Prelude.Bytes.{bytes_eq}
use gibberish.Prelude.HashMap.{get}
use gibberish.Protocol.Consts.{default_network_tag, auth_tag_len, ciphertext_len}
use gibberish.Protocol.Packet.{MeshPacket}
use gibberish.Crypto.{
  Primitives, IsPrimitives, ok, new_chain, derive_sender_subkey, encrypt_chunk, decrypt_chunk,
}
use gibberish.Crypto.RoundTrip.{padded, decrypt_chunk-encrypt_chunk}
use gibberish.Crypto.Chain.{message_keys, keys_from, message_keys-new_chain}
use gibberish.Host.Nonce.{NonceManager, World, allocate_msg}
use gibberish.Host.Chunks.Engine.{Key, new_engine}
use gibberish.Host.Chunks.Send.{message_id, num_chunks, fragment_and_encrypt}
use gibberish.Host.Chunks.Receive.{trim_nulls}
use gibberish.Host.Chunks.Fragments.{
  AreFragments, fragment_and_encrypt-AreFragments, AreChunks, fragment_and_encrypt-AreChunks,
}
use gibberish.Host.Chunks.Reassembly.{Prompt}
use gibberish.Host.Chunks.Arrival.{reference, IsNew, receive_all, index, receive_all-reference}
use gibberish.Host.Chunks.Delivered.{
  deliveries, occurs, arrivals, IsTurn, place, arrivals-IsArrival, delivered_once,
}

abbrev pub toy_tag : List ℕ
toy_tag = replicate 16 7

abbrev pub toy : Primitives
toy = record {
  keyed_hash = λ key message. replicate 32 (length message);
  encrypt = λ key nonce buf. some (buf, toy_tag);
  decrypt = λ key nonce body tag. if bytes_eq tag toy_tag then some body else none;
  x25519_public = λ secret. secret;
  x25519_shared = λ secret public. secret;
}

-- What a result of `encrypt` says of it.
toy_result :
    (P : List ℕ × List ℕ → Type 0) (buf : List ℕ) (r : List ℕ × List ℕ)
    → some (buf, toy_tag) ≡ some r
    → P (buf, toy_tag)
    → P r
toy_result P buf r e p = subst P (ap (λ o. value o) e) p
  where
    value : Option (List ℕ × List ℕ) → List ℕ × List ℕ
    value none = (buf, toy_tag)
    value (some x) = x

pub toy-IsPrimitives : IsPrimitives toy
toy-IsPrimitives = record {
  encrypts = λ key nonce buf n. ((buf, toy_tag), refl);
  encrypt_len = λ key nonce buf r e.
      toy_result (λ x. (length x.0 ≡ length buf) × (length x.1 ≡ auth_tag_len)) buf r e
        (refl, refl);
  decrypts = λ key nonce buf r e.
      toy_result (λ x. toy.decrypt key nonce x.0 x.1 ≡ some buf) buf r e (toy_opens buf);
}
  where
    toy_opens : (buf : List ℕ) → toy.decrypt [] [] buf toy_tag ≡ some buf
    toy_opens buf = unfold bytes_eq in refl

abbrev pub key : List ℕ
key = replicate 32 1

decrypt_chunk-encrypt_chunk_example :
    (ct : List ℕ) × (encrypt_chunk toy key 9 0 9 (72 ∷ 105 ∷ []) ≡ ok ct)
    × (length ct ≡ ciphertext_len)
    × (decrypt_chunk toy key 9 0 9 ct ≡ ok (padded (72 ∷ 105 ∷ [])))
decrypt_chunk-encrypt_chunk_example =
    decrypt_chunk-encrypt_chunk toy toy-IsPrimitives key 9 0 9 (72 ∷ 105 ∷ []) (omega arith)

message_keys-new_chain_example : message_keys toy 3 (new_chain key) ≡ keys_from toy key 0 3
message_keys-new_chain_example = message_keys-new_chain toy 3 key (omega arith)

-- A hundred letters, sent by node 7.
abbrev text : List ℕ
text = replicate 100 65

abbrev pub any_text : List ℕ → Bool
any_text bytes = true

abbrev manager : NonceManager
manager = record { current_epoch = 2_000; current_counter = 5; block_limit = 1_000 }

abbrev world : World
world = record { disk = none; running = some manager }

allocated : (allocate_msg true manager world).1 ≡ some (2_000, 5)
unfolding allocate_msg
allocated = refl

two_chunks : num_chunks text ≡ 2
unfolding num_chunks
two_chunks = refl

not_empty : length text ≢ 0
not_empty = omega arith

few_chunks : num_chunks text < 256
few_chunks = omega (arith, two_chunks)

no_nulls : trim_nulls text ≡ text
unfolding trim_nulls
no_nulls = refl

fragment_and_encrypt-AreChunks_example :
    (n : ℕ) × ((80 * n < 180) × (100 ≤ 80 * n))
    × ((ps : List MeshPacket) × ((fragment_and_encrypt toy text default_network_tag 7 key true
            manager world).1
          ≡ ok ps)
        × (length ps ≡ n)
        × AreChunks toy
            (derive_sender_subkey toy key 7)
            default_network_tag
            (message_id 7 5)
            n
            text
            0
            ps)
fragment_and_encrypt-AreChunks_example =
    fragment_and_encrypt-AreChunks toy toy-IsPrimitives text default_network_tag 7 key true manager
      world 2_000 5 not_empty (omega arith) allocated

-- The packets that node 7 sends.
sent_packets :
    (ps : List MeshPacket) × ((fragment_and_encrypt toy text default_network_tag 7 key true manager
        world).1
      ≡ ok ps)
    × (length ps ≡ 2)
    × AreFragments toy (derive_sender_subkey toy key 7) (message_id 7 5) text 0 ps
sent_packets =
    let (ps, e, n, fs) =
      fragment_and_encrypt-AreFragments toy toy-IsPrimitives text default_network_tag 7 key true
        manager world 2_000 5 not_empty few_chunks allocated in
    (ps, e, n ∙ two_chunks, fs)

-- The second chunk arrives first, and the first one twice.
abbrev order : List (ℕ × ℕ)
order = (1_000, 1) ∷ (1_200, 0) ∷ (1_300, 0) ∷ []

order-IsTurn : (count : ℕ) → count ≡ 2 → All (IsTurn 1_000 count) order
unfolding IsTurn Prompt
order-IsTurn count e = (
  ((omega arith, omega arith), omega (arith, e)),
  (
    ((omega arith, omega arith), omega (arith, e)),
    (((omega arith, omega arith), omega (arith, e)), tt),
  ),
)

order-covers : (i : ℕ) → i < 2 → occurs i (map place order) ≡ true
unfolding occurs
order-covers zero h = refl
order-covers (suc zero) h = refl
order-covers (suc (suc i)) h = absurd (omega arith)

new_engine-IsNew : (k : Key) → IsNew k new_engine
unfolding IsNew new_engine get
new_engine-IsNew k = (refl, refl)

delivered_once_example :
    deliveries (receive_all toy any_text key 7 (arrivals sent_packets.0 order) new_engine)
    ≡ text ∷ []
delivered_once_example =
    delivered_once toy toy-IsPrimitives any_text text default_network_tag 7 1_000 2_000 5 key true
      manager world sent_packets.0 order new_engine not_empty few_chunks refl no_nulls allocated
      sent_packets.1 (order-IsTurn (length sent_packets.0) sent_packets.2)
      (λ i h. order-covers i (omega (arith, h, sent_packets.2)))
      (new_engine-IsNew (7, message_id 7 5))

abbrev arrived : List (ℕ × MeshPacket)
arrived = arrivals sent_packets.0 order

receive_all-reference_example :
    receive_all toy any_text key 7 arrived new_engine
    ≡ reference text (replicate (num_chunks text) false) (map index arrived)
receive_all-reference_example =
    receive_all-reference toy any_text key 7 (message_id 7 5) 1_000 text arrived new_engine refl
      no_nulls few_chunks
      (arrivals-IsArrival toy any_text key 7 (message_id 7 5) 1_000 text sent_packets.0 order
        sent_packets.3 (order-IsTurn (length sent_packets.0) sent_packets.2)).0
      (new_engine-IsNew (7, message_id 7 5))
