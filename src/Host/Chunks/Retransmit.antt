-- ===== src/Host/Chunks/Retransmit.antt =====
-- A SACK asks for the missing chunks, and its answer is exactly their packets.
use gibberish.Prelude.{
  ℕ, zero, suc, ◌+◌, ◌-◌, ◌*◌, ◌/◌, ◌%◌, ◌≤◌, ◌<◌, ◌≡◌, refl, ap, ◌∙◌, false, Option, some, List,
  [], length, get_elem?, get_elem?, get_or, replicate, arith, length-replicate, ◌^◌, All,
}
use gibberish.Prelude.HashMap.{get}
use gibberish.Prelude.Bits.{test_bit-zero}
use gibberish.Prelude.Bytes.{IsByte}
use gibberish.Protocol.Consts.{ciphertext_len}
use gibberish.Protocol.Packet.{MeshPacket}
use gibberish.Protocol.Sack.{
  SackPayload, IsSack, sack_bitmask_bytes, new_sack, is_missing, for_each_missing,
}
use gibberish.Protocol.Sack.RoundTrip.{sack_roundtrip}
use gibberish.Protocol.Sack.Visits.{select, visits, for_each_missing_lem}
use gibberish.Protocol.Sack.Closures.{each, for_each_missing-visits}
use gibberish.Host.Chunks.Engine.{ChunkEngine, InFlightMessage, Key, same_id}
use gibberish.Host.Chunks.Sacks.{push_cached, handle_sack, mark_slots, sack_packet}
use gibberish.Host.Chunks.Marked.{
  lost, empty_at, push_cached-lost, mark_slots-IsSack, base_chunk-mark_slots, is_missing-mark_slots,
}

replicate-IsByte : (n : ℕ) → All IsByte (replicate n 0)
replicate-IsByte zero = tt
replicate-IsByte (suc n) = (omega arith, replicate-IsByte n)

get_or-replicate : (n i : ℕ) → get_or {A = ℕ} (replicate n 0) i 0 ≡ 0
get_or-replicate zero i = refl
get_or-replicate (suc n) zero = refl
get_or-replicate (suc n) (suc i) = get_or-replicate n i

new_sack-IsSack :
    (receiver sender : ℕ)
    → receiver < 2 ^ 32
    → sender < 2 ^ 32
    → IsSack (new_sack receiver sender 0)
unfolding new_sack
new_sack-IsSack receiver sender r s = record {
  receiver_fits = r;
  sender_fits = s;
  base_fits = omega arith;
  bitmask_len = length-replicate {A = ℕ} sack_bitmask_bytes 0;
  bitmask_bytes = replicate-IsByte sack_bitmask_bytes;
}

is_missing-new_sack : (receiver sender j : ℕ) → is_missing (new_sack receiver sender 0) j ≡ false
unfolding is_missing new_sack
is_missing-new_sack receiver sender j = ground (
  arith,
  get_or-replicate sack_bitmask_bytes ((j - 0) / 8),
  test_bit-zero ((j - 0) % 8) (omega arith),
)

-- The SACK of a message in flight.
module _ (receiver sender : ℕ) (r : receiver < 2 ^ 32) (q : sender < 2 ^ 32)
    (chunks : List (Option (List ℕ))) where
  abbrev marked : SackPayload
  marked = mark_slots 0 chunks (new_sack receiver sender 0)

  marked-IsSack : IsSack marked
  marked-IsSack =
      mark_slots-IsSack 0 chunks (new_sack receiver sender 0) (new_sack-IsSack receiver sender r q)

  base_chunk-marked : marked.base_chunk ≡ 0
  unfolding new_sack
  base_chunk-marked = base_chunk-mark_slots 0 chunks (new_sack receiver sender 0)

  is_missing-marked :
      (j : ℕ) → length chunks ≤ sack_bitmask_bytes * 8 → is_missing marked j ≡ empty_at chunks j
  unfolding new_sack
  is_missing-marked j l =
      let step =
        is_missing-mark_slots 0 j chunks (new_sack receiver sender 0)
          (new_sack-IsSack receiver sender r q) refl (omega arith) in
      ground (arith, step, is_missing-new_sack receiver sender j)

  visits-marked :
      length chunks ≤ sack_bitmask_bytes * 8 → visits marked ≡ select (is_missing marked) 512 0
  visits-marked l =
      for_each_missing_lem marked marked-IsSack
      ∙ ap (select (is_missing marked) 512) base_chunk-marked

  for_each_missing-marked :
      (cached : List MeshPacket)
      → length chunks ≤ sack_bitmask_bytes * 8
      → for_each_missing marked (push_cached cached) [] ≡ lost chunks cached
  for_each_missing-marked cached l =
      for_each_missing-visits (push_cached cached) [] marked
      ∙ ap (each (push_cached cached) []) (visits-marked l)
      ∙ push_cached-lost (is_missing marked) 512 0 chunks cached cached [] (omega arith)
          (λ j. ap (is_missing marked) (plus j) ∙ is_missing-marked j l)
          (λ j. ap (get_elem? cached) (plus j))
    where
      plus : (j : ℕ) → 0 + j ≡ j
      plus j = omega arith

-- The SACK that a receiver sends for a message in flight of at most 512 chunks, answered by a node that
-- has the message's packets cached: exactly the packets of the chunks that the receiver does not have,
-- in their order, and no other.
pub handle_sack-sack_packet :
    (local_node_id swarm_tag time : ℕ) (key : Key) (m : InFlightMessage) (e : ChunkEngine)
    → (cached : List MeshPacket) → local_node_id < 2 ^ 32
    → key.0 < 2 ^ 32
    → length m.received_chunks ≤ 512
    → get same_id key.1 e.outbox_cache ≡ some (cached, time)
    → handle_sack (sack_packet local_node_id swarm_tag key m) e ≡ lost m.received_chunks cached
unfolding handle_sack sack_packet
handle_sack-sack_packet local_node_id swarm_tag time key m e cached r q l g =
    let back =
      sack_roundtrip (mark_slots 0 m.received_chunks (new_sack local_node_id key.0 0))
        (replicate ciphertext_len 0) (marked-IsSack local_node_id key.0 r q m.received_chunks)
        (length-replicate {A = ℕ} ciphertext_len 0) in
    rw (handle_sack, g)
      (ap (λ s. for_each_missing s (push_cached cached) []) back
        ∙ for_each_missing-marked local_node_id key.0 r q m.received_chunks cached l)
