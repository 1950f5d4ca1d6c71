-- ===== src/Crypto.antt =====
-- crates/gibberish-crypto/src/ratchet.rs: chunk encryption under an implicit nonce, the sender-key
-- chain and key agreement. BLAKE3, ChaCha20-Poly1305 and X25519 are parameters. A `Secret` is the
-- value that it wraps; that it is wiped when it is dropped and hidden from printing is not modelled.
pub mod RoundTrip
pub mod Chain
use gibberish.Prelude.{
  ℕ, zero, suc, ◌+◌, ◌≡◌, ◌≤◌, ◌^◌, ◌-◌, Bool, Option, none, some, List, [], ◌∷◌, ◌++◌, length,
  replicate, ltb, if◌then◌else◌, saturating_add,
}
use gibberish.Prelude.Bytes.{write_at, slice, to_be_bytes, from_be_bytes}
use gibberish.Protocol.Consts.{plaintext_chunk_len, auth_tag_len, ciphertext_len}

-- What the crate calls. `keyed_hash key message` is `Hasher::new_keyed`, the updates joined, and
-- `finalize`; `encrypt` and `decrypt` are the detached in-place calls with no associated data, on
-- key, nonce and buffer, with the buffer and the tag afterwards.
pub record Primitives : Type 0 where
  pub keyed_hash : List ℕ → List ℕ → List ℕ
  pub encrypt : List ℕ → List ℕ → List ℕ → Option (List ℕ × List ℕ)
  pub decrypt : List ℕ → List ℕ → List ℕ → List ℕ → Option (List ℕ)
  pub x25519_public : List ℕ → List ℕ
  pub x25519_shared : List ℕ → List ℕ → List ℕ

-- What their documentation promises of the cipher: a short buffer is encrypted in place under a tag of
-- 16 bytes, and the same key, nonce and tag decrypt it.
pub record IsPrimitives (c : Primitives) : Type 0 where
  pub encrypts :
      (key nonce buf : List ℕ)
      → length buf ≡ plaintext_chunk_len
      → (r : List ℕ × List ℕ) × (c.encrypt key nonce buf ≡ some r)
  pub encrypt_len :
      (key nonce buf : List ℕ) (r : List ℕ × List ℕ)
      → c.encrypt key nonce buf ≡ some r
      → (length r.0 ≡ length buf) × (length r.1 ≡ auth_tag_len)
  pub decrypts :
      (key nonce buf : List ℕ) (r : List ℕ × List ℕ)
      → c.encrypt key nonce buf ≡ some r
      → c.decrypt key nonce r.0 r.1 ≡ some buf

pub data CryptoError : Type 0 where
  authentication_failed invalid_key_length invalid_nonce payload_too_large : CryptoError

pub data Result {ℓ} (A : Type ℓ) : Type ℓ where
  ok : A → Result A
  err : CryptoError → Result A

-- "GIBBERISH-NONCE-V1"
abbrev pub nonce_label : List ℕ
nonce_label =
    b'G' ∷ b'I' ∷ b'B' ∷ b'B' ∷ b'E' ∷ b'R' ∷ b'I' ∷ b'S' ∷ b'H' ∷ b'-' ∷ b'N' ∷ b'O' ∷ b'N' ∷ b'C'
    ∷ b'E' ∷ b'-' ∷ b'V' ∷ b'1' ∷ []

-- "GIBBERISH-NETWORK-ADMISSION-TAG-V1"
abbrev pub network_tag_label : List ℕ
network_tag_label =
    b'G' ∷ b'I' ∷ b'B' ∷ b'B' ∷ b'E' ∷ b'R' ∷ b'I' ∷ b'S' ∷ b'H' ∷ b'-' ∷ b'N' ∷ b'E' ∷ b'T' ∷ b'W'
    ∷ b'O' ∷ b'R' ∷ b'K' ∷ b'-' ∷ b'A' ∷ b'D' ∷ b'M' ∷ b'I' ∷ b'S' ∷ b'S' ∷ b'I' ∷ b'O' ∷ b'N'
    ∷ b'-' ∷ b'T' ∷ b'A' ∷ b'G' ∷ b'-' ∷ b'V' ∷ b'1' ∷ []

-- "GIBBERISH-SENDER-SUBKEY-V1"
abbrev pub sender_subkey_label : List ℕ
sender_subkey_label =
    b'G' ∷ b'I' ∷ b'B' ∷ b'B' ∷ b'E' ∷ b'R' ∷ b'I' ∷ b'S' ∷ b'H' ∷ b'-' ∷ b'S' ∷ b'E' ∷ b'N' ∷ b'D'
    ∷ b'E' ∷ b'R' ∷ b'-' ∷ b'S' ∷ b'U' ∷ b'B' ∷ b'K' ∷ b'E' ∷ b'Y' ∷ b'-' ∷ b'V' ∷ b'1' ∷ []

-- "SENDER-KEY-MSG" and "SENDER-KEY-NEXT"
abbrev pub sender_key_label : List ℕ
sender_key_label = b'S' ∷ b'E' ∷ b'N' ∷ b'D' ∷ b'E' ∷ b'R' ∷ b'-' ∷ b'K' ∷ b'E' ∷ b'Y' ∷ b'-' ∷ []

abbrev pub msg_label : List ℕ
msg_label = sender_key_label ++ (b'M' ∷ b'S' ∷ b'G' ∷ [])

abbrev pub next_label : List ℕ
next_label = sender_key_label ++ (b'N' ∷ b'E' ∷ b'X' ∷ b'T' ∷ [])

-- What the nonce hash reads: the label, the message id, the chunk index and the counter.
unfoldable pub nonce_input : ℕ → ℕ → ℕ → List ℕ
nonce_input msg_id chunk_idx ratchet_counter =
    nonce_label ++ (to_be_bytes 4 msg_id ++ (chunk_idx ∷ to_be_bytes 8 ratchet_counter))

pub record SenderKeyChain : Type 0 where
  pub chain_key : List ℕ
  pub counter : ℕ

unfoldable pub new_chain : List ℕ → SenderKeyChain
new_chain initial_seed = record { chain_key = initial_seed; counter = 0 }

pub record KeyPair : Type 0 where
  pub private_key : List ℕ
  pub public_key : List ℕ

module _ (c : Primitives) where
  unfoldable pub derive_implicit_nonce : List ℕ → ℕ → ℕ → ℕ → List ℕ
  unfolding nonce_input
  derive_implicit_nonce session_key msg_id chunk_idx ratchet_counter =
      write_at 0
        (slice 0 12 (c.keyed_hash session_key (nonce_input msg_id chunk_idx ratchet_counter)))
        (replicate 12 0)

  unfoldable pub derive_network_tag : List ℕ → ℕ
  derive_network_tag swarm_key =
      from_be_bytes (slice 0 8 (c.keyed_hash swarm_key network_tag_label))

  unfoldable pub derive_sender_subkey : List ℕ → ℕ → List ℕ
  derive_sender_subkey swarm_key node_id =
      c.keyed_hash swarm_key (sender_subkey_label ++ to_be_bytes 4 node_id)

  unfoldable pub encrypt_chunk : List ℕ → ℕ → ℕ → ℕ → List ℕ → Result (List ℕ)
  encrypt_chunk session_key msg_id chunk_idx ratchet_counter plaintext =
      let nonce = derive_implicit_nonce session_key msg_id chunk_idx ratchet_counter in
      let buffer = write_at 0 plaintext (replicate plaintext_chunk_len 0) in
      if ltb plaintext_chunk_len (length plaintext)
      then err payload_too_large
      else elim (c.encrypt session_key nonce buffer) [
        | none ↦ err authentication_failed
        | some (body, tag) ↦
            ok (write_at plaintext_chunk_len tag (write_at 0 body (replicate ciphertext_len 0)))
      ]

  unfoldable pub decrypt_chunk : List ℕ → ℕ → ℕ → ℕ → List ℕ → Result (List ℕ)
  decrypt_chunk session_key msg_id chunk_idx ratchet_counter ciphertext =
      let nonce = derive_implicit_nonce session_key msg_id chunk_idx ratchet_counter in
      let buffer =
        write_at 0 (slice 0 plaintext_chunk_len ciphertext) (replicate plaintext_chunk_len 0) in
      let tag = slice plaintext_chunk_len auth_tag_len ciphertext in
      elim (c.decrypt session_key nonce buffer tag) [
        | none ↦ err authentication_failed
        | some buffer' ↦ ok buffer'
      ]

  -- The chain afterwards, and the message key with its counter.
  unfoldable pub step : SenderKeyChain → SenderKeyChain × (List ℕ × ℕ)
  step chain = (
    record {
      chain_key = c.keyed_hash chain.chain_key next_label;
      counter = saturating_add (2 ^ 64 - 1) chain.counter 1;
    },
    (c.keyed_hash chain.chain_key (msg_label ++ to_be_bytes 8 chain.counter), chain.counter),
  )

  unfoldable pub from_secret_bytes : List ℕ → KeyPair
  from_secret_bytes bytes = record { private_key = bytes; public_key = c.x25519_public bytes }

  unfoldable pub diffie_hellman : KeyPair → List ℕ → List ℕ
  diffie_hellman pair peer_public = c.x25519_shared pair.private_key peer_public
