-- ===== src/Protocol/Packet/Relay.antt =====
-- Relaying: what `decrement_ttl` does to a packet.
use gibberish.Prelude.{◌+◌, ◌-◌, ◌<◌, ◌≡◌, ◌↔◌, true, arith, min}
use gibberish.Prelude.{if◌then◌else◌}
use gibberish.Protocol.Packet.{MeshPacket, IsPacket, decrement_ttl}

-- The fields that a relay must not touch.
pub record SameMessage (p q : MeshPacket) : Type 0 where
  pub same_tag : q.header.network_tag ≡ p.header.network_tag
  pub same_msg : q.header.msg_id ≡ p.header.msg_id
  pub same_chunk : q.header.chunk_idx ≡ p.header.chunk_idx
  pub same_total : q.header.total_chunks ≡ p.header.total_chunks
  pub same_flags : q.header.flags ≡ p.header.flags
  pub same_payload : q.payload ≡ p.payload

pub decrement_ttl-SameMessage : (p : MeshPacket) → SameMessage p (decrement_ttl p).0
unfolding decrement_ttl
decrement_ttl-SameMessage p = ground arith

pub decrement_ttl-IsPacket : (p : MeshPacket) → IsPacket p → IsPacket (decrement_ttl p).0
unfolding decrement_ttl
decrement_ttl-IsPacket p v = ground arith

-- A relay is granted exactly while the time to live is positive; a refused packet is unchanged,
-- and a granted one has one hop less to live and one hop more on its (saturating) count.
pub decrement_ttl_lem :
    (p : MeshPacket)
    → ((decrement_ttl p).1 ≡ true ↔ (0 < p.header.ttl))
      × ((decrement_ttl p).0.header.ttl ≡ p.header.ttl - 1)
      × ((decrement_ttl p).0.header.hop_count
          ≡ (if (decrement_ttl p).1 then min (p.header.hop_count + 1) 255 else p.header.hop_count))
unfolding decrement_ttl
decrement_ttl_lem p = ground arith
