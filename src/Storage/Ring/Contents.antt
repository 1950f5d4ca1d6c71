-- ===== src/Storage/Ring/Contents.antt =====
-- The packets that a ring holds, oldest first, and the invariant of its indices.
use gibberish.Prelude.{◌+◌, ◌%◌, ◌≤◌, ◌<◌, ◌≡◌, some, List, map, length}
use gibberish.Prelude.Circular.{window}
use gibberish.Protocol.Packet.{MeshPacket}
use gibberish.Storage.Ring.{SramRingBuffer, sram_ring_capacity}

-- The ring holds the packets `q`: the indices are in range, the head is `count` slots past the
-- tail, and those slots are filled with `q`.
pub record Holds (r : SramRingBuffer) (q : List MeshPacket) : Type 0 where
  pub storage : length r.buffer ≡ sram_ring_capacity
  pub tail_in : r.tail < sram_ring_capacity
  pub count_in : r.count ≤ sram_ring_capacity
  pub head_at : r.head ≡ (r.tail + r.count) % sram_ring_capacity
  pub filled : window sram_ring_capacity r.buffer r.tail r.count ≡ map some q
  pub counted : r.count ≡ length q
