-- ===== src/Host/Chunks/Reassembly.antt =====
-- Packets of one message arrive, in any order and any number of times, at an engine that may hold
-- other messages: `ingest_packet` against a receiver that only notes which chunks have arrived.
use gibberish.Prelude.{
  ℕ, ◌+◌, ◌-◌, ◌≤◌, ◌<◌, ◌≡◌, inl, inr, refl, ap₂, ◌∙◌, sym, Bool, true, false, none, List, [], ◌∷◌,
  length, set, arith, if◌then◌else◌, ltb, leb, subst,
}
use gibberish.Prelude.HashMap.{HashMap, get, contains_key, remove, get-retain-some, get-retain-none}
use gibberish.Protocol.Packet.{MeshPacket}
use gibberish.Crypto.{Primitives, ok, derive_sender_subkey, decrypt_chunk}
use gibberish.Crypto.RoundTrip.{padded}
use gibberish.Host.Chunks.Engine.{
  ChunkEngine, InFlightMessage, Key, same_key, same_key_refl, within, purge_expired,
  reassembly_timeout, cache_timeout, max_per_sender_in_flight, max_global_in_flight,
}
use gibberish.Host.Chunks.Send.{chunk_data, num_chunks}
use gibberish.Host.Chunks.Receive.{
  returned, store, trim_nulls, make_room, from_sender, evict_oldest, admitted, admit, ingest_packet,
}
use gibberish.Host.Chunks.Fragments.{IsFragment}
use gibberish.Host.Chunks.Store.{
  Collecting, Completed, Holds, Next, answer, store-Next, Collecting-count,
}

-- Between the start and the first timeout after it.
unfoldable pub Prompt : ℕ → ℕ → Type 0
Prompt start now = (start ≤ now) × (now < start + reassembly_timeout)

Prompt-start : (start now : ℕ) → Prompt start now → start ≤ now
unfolding Prompt
Prompt-start start now w = w.0

purge_expired-Collecting :
    (key : Key) (text : List ℕ) (start now : ℕ) (seen : List Bool) (e : ChunkEngine)
    → Prompt start now
    → Collecting key text start seen e
    → Collecting key text start seen (purge_expired now e)
unfolding Collecting purge_expired Prompt Holds within
purge_expired-Collecting key text start now seen e p (c, n, inl (g, s)) = (
  get-retain-none same_key same_key_refl (λ m. ltb (now - m.1) cache_timeout) key e.completed_cache
      c,
  n,
  inl (
    get-retain-none same_key same_key_refl (λ m. ltb (now - m.1.last_received) reassembly_timeout)
        key e.in_flight g,
    s,
  ),
)
purge_expired-Collecting key text start now seen e p (c, n, inr (m, g, (r, l))) = (
  get-retain-none same_key same_key_refl (λ x. ltb (now - x.1) cache_timeout) key e.completed_cache
      c,
  n,
  inr (
    m,
    get-retain-some same_key same_key_refl (λ x. ltb (now - x.1.last_received) reassembly_timeout)
        key m e.in_flight (λ k s. ground arith) g,
    (r, l),
  ),
)

purge_expired-Completed :
    (key : Key) (start now : ℕ) (e : ChunkEngine)
    → Prompt start now
    → Completed key start e
    → Completed key start (purge_expired now e)
unfolding Completed purge_expired Prompt within
purge_expired-Completed key start now e p (t, g, l) = (
  t,
  get-retain-some same_key same_key_refl (λ x. ltb (now - x.1) cache_timeout) key t
      e.completed_cache (λ k s. ground arith) g,
  l,
)

evict_oldest-none :
    (key : Key) (candidates m : HashMap Key InFlightMessage)
    → get same_key key m ≡ none
    → get same_key key (evict_oldest candidates m) ≡ none
unfolding evict_oldest remove
evict_oldest-none key [] m g = g
evict_oldest-none key (e ∷ candidates) m g = get-retain-none same_key same_key_refl _ key m g

if_evicted-none :
    (b : Bool) (key : Key) (candidates m : HashMap Key InFlightMessage)
    → get same_key key m ≡ none
    → get same_key key (if b then evict_oldest candidates m else m) ≡ none
if_evicted-none true key candidates m g = evict_oldest-none key candidates m g
if_evicted-none false key candidates m g = g

pub make_room-none :
    (src : ℕ) (key : Key) (m : HashMap Key InFlightMessage)
    → get same_key key m ≡ none
    → get same_key key (make_room src m) ≡ none
unfolding make_room
make_room-none src key m g =
    let own = from_sender src m in
    let m' = if leb max_per_sender_in_flight (length own) then evict_oldest own m else m in
    if_evicted-none (leb max_global_in_flight (length m')) key m' m'
      (if_evicted-none (leb max_per_sender_in_flight (length own)) key own m g)

-- A message in flight stays when room is made.
admitted-Collecting :
    (src : ℕ) (key : Key) (text : List ℕ) (start : ℕ) (seen : List Bool) (e : ChunkEngine)
    → Collecting key text start seen e
    → Collecting key text start seen (admitted src key e)
unfolding Collecting admitted contains_key
admitted-Collecting src key text start seen e (c, n, inl (g, s)) =
    rw g (c, n, inl (make_room-none src key e.in_flight g, s))
admitted-Collecting src key text start seen e (c, n, inr (m, g, h)) = rw g (c, n, inr (m, g, h))

module _ (c : Primitives) (is_utf8 : List ℕ → Bool) (master : List ℕ) (src : ℕ) where
  -- A packet that passes the checks and decrypts is stored.
  pub ingest_packet-store :
      (now : ℕ) (p : MeshPacket) (chunk : List ℕ) (e : ChunkEngine)
      → p.header.chunk_idx < p.header.total_chunks
      → p.header.total_chunks < 256
      → get same_key (src, p.header.msg_id) (purge_expired now e).completed_cache ≡ none
      → decrypt_chunk c
          (derive_sender_subkey c master src)
          p.header.msg_id
          p.header.chunk_idx
          p.header.msg_id
          p.payload
        ≡ ok chunk
      → ingest_packet c is_utf8 now src p master e
        ≡ store c is_utf8 now
            (src, p.header.msg_id)
            p.header.total_chunks
            p.header.chunk_idx
            chunk
            (admitted src (src, p.header.msg_id) (purge_expired now e))
  unfolding ingest_packet admit admitted contains_key
  ingest_packet-store now p chunk e i t g d = ground arith

  dropped_lem :
      (now start : ℕ) (p : MeshPacket) (e : ChunkEngine)
      → p.header.chunk_idx < p.header.total_chunks
      → p.header.total_chunks < 256
      → Completed (src, p.header.msg_id) start (purge_expired now e)
      → ingest_packet c is_utf8 now src p master e ≡ (purge_expired now e, returned (ok none))
  unfolding ingest_packet Completed contains_key
  dropped_lem now start p e i t (at, g, l) = ground arith

  -- One packet of the message: the answer, and what the engine holds afterwards.
  pub ingest_packet-Next :
      (msg_id now start : ℕ) (text : List ℕ) (seen : List Bool) (p : MeshPacket) (e : ChunkEngine)
      → is_utf8 text ≡ true
      → trim_nulls text ≡ text
      → num_chunks text < 256
      → Prompt start now
      → IsFragment c (derive_sender_subkey c master src) msg_id text p
      → Collecting (src, msg_id) text start seen e
      → ((ingest_packet c is_utf8 now src p master e).1
          ≡ answer is_utf8 text (set seen p.header.chunk_idx true))
        × Next
            (src, msg_id)
            text
            start
            (set seen p.header.chunk_idx true)
            (ingest_packet c is_utf8 now src p master e).0
  ingest_packet-Next msg_id now start text seen p e u t n w f k =
      let id = p.header.msg_id in
      let i = p.header.chunk_idx in
      let key : Key = (src, msg_id) in
      let k' = purge_expired-Collecting key text start now seen e w k in
      let e' = admitted src key (purge_expired now e) in
      let stored : ingest_packet c is_utf8 now src p master e
          ≡ store c is_utf8 now key (num_chunks text) i (padded (chunk_data text i)) e' =
        ingest_packet-store now p (padded (chunk_data text i)) e
          (omega (arith, f.in_range, f.same_total)) (omega (arith, n, f.same_total))
          (subst (λ m. get same_key (src, m) (purge_expired now e).completed_cache ≡ none)
            (sym f.same_message) (Collecting-count key text start seen (purge_expired now e) k').0)
          (subst
            (λ m.
              decrypt_chunk c (derive_sender_subkey c master src) m i m p.payload
              ≡ ok (padded (chunk_data text i)))
            (sym f.same_message) f.decrypts)
        ∙ ap₂
            (λ m s.
              store c is_utf8 now (src, m) s i (padded (chunk_data text i))
                (admitted src (src, m) (purge_expired now e)))
            f.same_message f.same_total in
      subst
        (λ r.
          (r.1 ≡ answer is_utf8 text (set seen i true)) × Next key text start (set seen i true) r.0)
        (sym stored)
        (store-Next c is_utf8 key text start now i seen e' u t (Prompt-start start now w) f.in_range
          (admitted-Collecting src key text start seen (purge_expired now e) k'))

  -- A packet of a message that is complete is dropped.
  pub ingest_packet-Completed :
      (msg_id now start : ℕ) (text : List ℕ) (p : MeshPacket) (e : ChunkEngine)
      → num_chunks text < 256
      → Prompt start now
      → IsFragment c (derive_sender_subkey c master src) msg_id text p
      → Completed (src, msg_id) start e
      → ((ingest_packet c is_utf8 now src p master e).1 ≡ returned (ok none))
        × Completed (src, msg_id) start (ingest_packet c is_utf8 now src p master e).0
  ingest_packet-Completed msg_id now start text p e n w f k =
      let k' = purge_expired-Completed (src, msg_id) start now e w k in
      let dropped =
        dropped_lem now start p e (omega (arith, f.in_range, f.same_total))
          (omega (arith, n, f.same_total))
          (subst (λ m. Completed (src, m) start (purge_expired now e)) (sym f.same_message) k') in
      subst (λ r. (r.1 ≡ returned (ok none)) × Completed (src, msg_id) start r.0) (sym dropped)
        (refl, k')
