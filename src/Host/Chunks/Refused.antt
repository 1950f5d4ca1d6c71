-- ===== src/Host/Chunks/Refused.antt =====
-- Packets that do not decrypt.
use gibberish.Prelude.{
  ℕ, ◌≡◌, ◌⊎◌, inl, inr, refl, ◌∙◌, Bool, true, false, none, List, ltb, ◌-◌, ap,
}
use gibberish.Prelude.HashMap.{contains_key, retain}
use gibberish.Protocol.Packet.{MeshPacket}
use gibberish.Crypto.{
  Primitives, ok, err, CryptoError, payload_too_large, derive_sender_subkey, decrypt_chunk,
}
use gibberish.Host.Chunks.Engine.{ChunkEngine, Key, same_key, purge_expired, within}
use gibberish.Host.Chunks.Branches.{misnumbered, ingest_packet-cases, admit-refused}
use gibberish.Host.Chunks.Eviction.{Admitted, admitted-Admitted, admitted-caches}
use gibberish.Host.Chunks.Receive.{Outcome, returned, ingest_packet}

-- What a packet that does not decrypt leaves and answers. The purge drops messages without a new chunk
-- for 10 s, and completed and sent ones after 60 s. A packet with wrong numbers and one of a completed
-- message change nothing else; another one has room made for it.
pub record IsRefusal (now src : ℕ) (p : MeshPacket) (e : ChunkEngine) (x : CryptoError)
    (r : ChunkEngine × Outcome) : Type 0 where
  pub completed : r.0.completed_cache ≡ retain (λ m. ltb (now - m.1) 60_000) e.completed_cache
  pub outbox : r.0.outbox_cache ≡ retain (λ m. ltb (now - m.1.1) 60_000) e.outbox_cache
  pub outcome :
      ((misnumbered p ≡ true)
        × (r.0.in_flight ≡ retain (λ m. ltb (now - m.1.last_received) 10_000) e.in_flight)
        × (r.1 ≡ returned (err payload_too_large)))
      ⊎ (((misnumbered p ≡ false)
            × (contains_key same_key (src, p.header.msg_id) r.0.completed_cache ≡ true)
            × (r.0.in_flight ≡ retain (λ m. ltb (now - m.1.last_received) 10_000) e.in_flight)
            × (r.1 ≡ returned (ok none)))
          ⊎ ((misnumbered p ≡ false)
              × (contains_key same_key (src, p.header.msg_id) r.0.completed_cache ≡ false)
              × Admitted src
                  (src, p.header.msg_id)
                  (retain (λ m. ltb (now - m.1.last_received) 10_000) e.in_flight)
                  r.0.in_flight
              × (r.1 ≡ returned (err x))))

module _ (c : Primitives) (is_utf8 : List ℕ → Bool) where
  -- A packet that does not decrypt under its sender's subkey, forged or damaged, stores no chunk, starts
  -- no message and completes none. Messages in flight are dropped only by age (10 s) and, if the packet's
  -- numbers are right and its message is neither completed nor in flight, to make room: the sender's
  -- oldest if it has two, and then the oldest of all if there are sixteen. The answer is that the payload
  -- is too large for wrong numbers, nothing for a message that was completed in the last 60 s, and the
  -- error of the decryption otherwise.
  pub ingest_packet-forged :
      (now src : ℕ) (p : MeshPacket) (master : List ℕ) (e : ChunkEngine) (x : CryptoError)
      → decrypt_chunk c
          (derive_sender_subkey c master src)
          p.header.msg_id
          p.header.chunk_idx
          p.header.msg_id
          p.payload
        ≡ err x
      → IsRefusal now src p e x (ingest_packet c is_utf8 now src p master e)
  unfolding purge_expired within
  ingest_packet-forged now src p master e x d =
      let key : Key = (src, p.header.msg_id) in
      let e' = purge_expired now e in
      elim (ingest_packet-cases c is_utf8 now src p master e) [
        | inl (m, a) ↦
            rw a (record { completed = refl; outbox = refl; outcome = inl (m, refl, refl) })
        | inr (inl (m, g, a)) ↦
            rw a
              (record { completed = refl; outbox = refl; outcome = inr (inl (m, g, refl, refl)) })
        | inr (inr (m, g, a)) ↦
            let caches = admitted-caches src key e' in
            rw (a ∙ admit-refused c is_utf8 now src p master e' x d) (record {
              completed = caches.0;
              outbox = caches.1;
              outcome = inr (
                  inr (
                    m,
                    ap (contains_key same_key key) caches.0 ∙ g,
                    admitted-Admitted src key e',
                    refl,
                  ));
            })
      ]
