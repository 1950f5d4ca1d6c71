-- ===== src/Storage/Ring/Queue.antt =====
-- What the ring promises: a queue of at most 256 packets that drops its oldest packet to take a
-- new one.
use gibberish.Prelude.{◌==◌, Option, none, some, List, [], ◌∷◌, ◌++◌, length, if◌then◌else◌}
use gibberish.Protocol.Packet.{MeshPacket}
use gibberish.Storage.Ring.{SramRingBuffer, sram_ring_capacity, push, pop, peek, clear}

unfoldable pub front : List MeshPacket → Option MeshPacket
front [] = none
front (p ∷ q) = some p

unfoldable pub rest : List MeshPacket → List MeshPacket
rest [] = []
rest (p ∷ q) = q

-- The queue after a packet was added, and the packet that was dropped for it.
unfoldable pub queue_push : List MeshPacket → MeshPacket → List MeshPacket × Option MeshPacket
unfolding front rest
queue_push q p =
    if length q == sram_ring_capacity then (rest q ++ (p ∷ []), front q) else (q ++ (p ∷ []), none)

-- A call of the ring's client.
pub data Call : Type 0 where
  do_push : MeshPacket → Call
  do_pop do_peek do_clear : Call

unfoldable pub ring_step : SramRingBuffer → Call → SramRingBuffer × Option MeshPacket
ring_step r (do_push p) = push r p
ring_step r do_pop = pop r
ring_step r do_peek = (r, peek r)
ring_step r do_clear = (clear r, none)

unfoldable pub queue_step : List MeshPacket → Call → List MeshPacket × Option MeshPacket
unfolding queue_push
queue_step q (do_push p) = queue_push q p
queue_step q do_pop = (rest q, front q)
queue_step q do_peek = (q, front q)
queue_step q do_clear = ([], none)

-- The results of a sequence of calls.
unfoldable pub ring_run : SramRingBuffer → List Call → List (Option MeshPacket)
unfolding ring_step
ring_run r [] = []
ring_run r (c ∷ calls) = let (r', out) = ring_step r c in out ∷ ring_run r' calls

unfoldable pub queue_run : List MeshPacket → List Call → List (Option MeshPacket)
unfolding queue_step
queue_run q [] = []
queue_run q (c ∷ calls) = let (q', out) = queue_step q c in out ∷ queue_run q' calls
