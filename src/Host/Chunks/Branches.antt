-- ===== src/Host/Chunks/Branches.antt =====
-- The ways through `ingest_packet`.
use gibberish.Prelude.{
  ℕ, ◌≡◌, ◌⊎◌, inl, inr, refl, true, false, Bool, Bool-cases, none, List, ltb, leb, ◌==◌, ◌||◌,
}
use gibberish.Prelude.HashMap.{contains_key}
use gibberish.Protocol.Packet.{MeshPacket}
use gibberish.Crypto.{
  Primitives, ok, err, CryptoError, payload_too_large, derive_sender_subkey, decrypt_chunk,
}
use gibberish.Host.Chunks.Engine.{ChunkEngine, Key, same_key, purge_expired, max_total_chunks}
use gibberish.Host.Chunks.Receive.{returned, admitted, admit, ingest_packet}

-- No chunks, too many of them, or an index outside.
unfoldable pub misnumbered : MeshPacket → Bool
misnumbered p =
    p.header.total_chunks == 0
    || (ltb 800 p.header.total_chunks || leb p.header.total_chunks p.header.chunk_idx)

module _ (c : Primitives) (is_utf8 : List ℕ → Bool) (now src : ℕ) (p : MeshPacket)
    (master : List ℕ) where
  -- After the purge, a packet is refused, ignored or admitted.
  pub ingest_packet-cases :
      (e : ChunkEngine)
      → ((misnumbered p ≡ true)
          × (ingest_packet c is_utf8 now src p master e
              ≡ (purge_expired now e, returned (err payload_too_large))))
        ⊎ (((misnumbered p ≡ false)
              × (contains_key same_key (src, p.header.msg_id) (purge_expired now e).completed_cache
                  ≡ true)
              × (ingest_packet c is_utf8 now src p master e
                  ≡ (purge_expired now e, returned (ok none))))
            ⊎ ((misnumbered p ≡ false)
                × (contains_key same_key
                      (src, p.header.msg_id)
                      (purge_expired now e).completed_cache
                    ≡ false)
                × (ingest_packet c is_utf8 now src p master e
                    ≡ admit c is_utf8 now src p master (purge_expired now e))))
  unfolding ingest_packet misnumbered
  ingest_packet-cases e =
      let total = p.header.total_chunks in
      let key : Key = (src, p.header.msg_id) in
      elim (Bool-cases (total == 0)) [
        | inl a ↦ inl (rw a refl, rw a refl)
        | inr a ↦ elim (Bool-cases (ltb max_total_chunks total)) [
          | inl m ↦ inl (rw (a, m) refl, rw (a, m) refl)
          | inr m ↦ elim (Bool-cases (leb total p.header.chunk_idx)) [
            | inl b ↦ inl (rw (a, m, b) refl, rw (a, m, b) refl)
            | inr b ↦
                elim (Bool-cases
                  (contains_key same_key key (purge_expired now e).completed_cache)) [
                    | inl g ↦ inr (inl (rw (a, m, b) refl, g, rw (a, m, b, g) refl))
                    | inr g ↦ inr (inr (rw (a, m, b) refl, g, rw (a, m, b, g) refl))
                  ]
          ]
        ]
      ]

  pub admit-refused :
      (e : ChunkEngine) (x : CryptoError)
      → decrypt_chunk c
          (derive_sender_subkey c master src)
          p.header.msg_id
          p.header.chunk_idx
          p.header.msg_id
          p.payload
        ≡ err x
      → admit c is_utf8 now src p master e
        ≡ (admitted src (src, p.header.msg_id) e, returned (err x))
  unfolding admit
  admit-refused e x d = rw (admit, d) refl
