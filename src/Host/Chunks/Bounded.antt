-- ===== src/Host/Chunks/Bounded.antt =====
-- The anti-DoS limits: at most 16 messages in flight, at most 2 of them from one sender.
use gibberish.Prelude.{
  ℕ, ◌≡◌, ◌⊎◌, inl, inr, Bool, true, List, is_some, all, get_elem?, arith, Bool-cases, Option-cases,
}
use gibberish.Prelude.HashMap.{HashMap, contains_key, remove, put}
use gibberish.Protocol.Packet.{MeshPacket}
use gibberish.Crypto.{Primitives, Result, ok, err, derive_sender_subkey, decrypt_chunk}
use gibberish.Host.Chunks.Engine.{
  ChunkEngine, InFlightMessage, Key, same_key, purge_expired, max_global_in_flight, within,
  reassembly_timeout,
}
use gibberish.Host.Chunks.Branches.{ingest_packet-cases}
use gibberish.Host.Chunks.Receive.{
  Outcome, returned, finish, store, entry, fill, admitted, admit, ingest_packet,
}
use gibberish.Host.Chunks.Counting.{
  Within, limit, room, retain-Within, make_room-Within, put-Within, put_known-Within,
}

-- What the engine may hold for messages in flight.
unfoldable pub IsBounded : ChunkEngine → Type 0
unfolding Within
IsBounded e = Within max_global_in_flight limit e.in_flight

-- There is room for the message: it is there already, or one more fits.
unfoldable pub HasRoom : ℕ → ℕ → HashMap Key InFlightMessage → Type 0
HasRoom src id m =
    ((contains_key same_key (src, id) m ≡ true) × Within max_global_in_flight limit m)
    ⊎ Within 15 (room src) m

put-HasRoom :
    (src id : ℕ) (v : InFlightMessage) (m : HashMap Key InFlightMessage)
    → HasRoom src id m
    → Within max_global_in_flight limit (put same_key (src, id) v m)
unfolding HasRoom
put-HasRoom src id v m (inl (c, h)) = put_known-Within (src, id) v m c h
put-HasRoom src id v m (inr h) = put-Within src id v m h

HasRoom-Within :
    (src id : ℕ) (m : HashMap Key InFlightMessage)
    → HasRoom src id m
    → Within max_global_in_flight limit m
unfolding HasRoom Within
HasRoom-Within src id m (inl (c, h)) = h
HasRoom-Within src id m (inr (t, s)) = (omega (arith, t), λ x. ground (arith, s x))

admitted-HasRoom :
    (src id : ℕ) (e : ChunkEngine)
    → IsBounded e
    → HasRoom src id (admitted src (src, id) e).in_flight
unfolding IsBounded HasRoom admitted
admitted-HasRoom src id e h = elim (Bool-cases (contains_key same_key (src, id) e.in_flight)) [
  | inl k ↦ rw k (inl (k, h))
  | inr k ↦ rw k (inr (make_room-Within src e.in_flight h))
]

module _ (c : Primitives) (is_utf8 : List ℕ → Bool) where
  finish-IsBounded :
      (now src id : ℕ) (m : InFlightMessage) (e : ChunkEngine)
      → HasRoom src id e.in_flight
      → IsBounded (finish c is_utf8 now (src, id) m e).0
  unfolding finish IsBounded remove
  finish-IsBounded now src id m e h =
      let held = put-HasRoom src id m e.in_flight h in
      elim (Bool-cases (all is_some m.received_chunks)) [
        | inl a ↦
            rw a (
              retain-Within max_global_in_flight limit _ (put same_key (src, id) m e.in_flight)
                held)
        | inr a ↦ rw a held
      ]

  store-IsBounded :
      (now src id total i : ℕ) (chunk : List ℕ) (e : ChunkEngine)
      → HasRoom src id e.in_flight
      → IsBounded (store c is_utf8 now (src, id) total i chunk e).0
  unfolding store IsBounded
  store-IsBounded now src id total i chunk e h =
      let m = entry now (src, id) total e in
      elim (Option-cases (get_elem? m.received_chunks i)) [
        | inl n ↦ rw (store, n) (put-HasRoom src id m e.in_flight h)
        | inr (slot, s) ↦ rw (store, s) (finish-IsBounded now src id (fill now i chunk slot m) e h)
      ]

  settle-IsBounded :
      (now src : ℕ) (p : MeshPacket) (r : Result (List ℕ)) (e : ChunkEngine)
      → HasRoom src p.header.msg_id e.in_flight
      → IsBounded
          (elim r as (λ _. ChunkEngine × Outcome) [
            | err x ↦ (e, returned (err x))
            | ok chunk ↦
                store c is_utf8 now
                  (src, p.header.msg_id)
                  p.header.total_chunks
                  p.header.chunk_idx
                  chunk
                  e
          ]).0
  unfolding IsBounded
  settle-IsBounded now src p (err x) e h = HasRoom-Within src p.header.msg_id e.in_flight h
  settle-IsBounded now src p (ok chunk) e h =
      store-IsBounded now src p.header.msg_id p.header.total_chunks p.header.chunk_idx chunk e h

  admit-IsBounded :
      (now src : ℕ) (p : MeshPacket) (master : List ℕ) (e : ChunkEngine)
      → IsBounded e
      → IsBounded (admit c is_utf8 now src p master e).0
  unfolding admit
  admit-IsBounded now src p master e h =
      let id = p.header.msg_id in
      settle-IsBounded now src p
        (decrypt_chunk c (derive_sender_subkey c master src) id p.header.chunk_idx id p.payload)
        (admitted src (src, id) e) (admitted-HasRoom src id e h)

  -- Whatever packet arrives, from whatever sender and at whatever time, also one that is refused, fails
  -- to decrypt or makes the engine panic: at most 16 messages stay in flight, and at most 2 of each
  -- sender.
  pub ingest_packet-IsBounded :
      (now src : ℕ) (p : MeshPacket) (master : List ℕ) (e : ChunkEngine)
      → IsBounded e
      → IsBounded (ingest_packet c is_utf8 now src p master e).0
  unfolding IsBounded purge_expired
  ingest_packet-IsBounded now src p master e h =
      let kept =
        retain-Within max_global_in_flight limit
          (λ m. within reassembly_timeout now m.1.last_received) e.in_flight h in
      let admitted = admit-IsBounded now src p master (purge_expired now e) kept in
      elim (ingest_packet-cases c is_utf8 now src p master e) [
        | inl (_, a) ↦ rw a kept
        | inr (inl (_, _, a)) ↦ rw a kept
        | inr (inr (_, _, a)) ↦ rw a admitted
      ]
