-- ===== src/Storage/Ring.antt =====
-- `SramRingBuffer` of crates/gibberish-storage/src/sram_ring.rs. The array is a list of 256 slots;
-- a method that changes the ring returns it beside its result.
pub mod Queue
pub mod Contents
pub mod Refine
use gibberish.Prelude.{
  ℕ, zero, suc, ◌+◌, ◌-◌, ◌%◌, Bool, true, false, Option, none, some, List, [], ◌∷◌, get_or, set,
  replicate, ◌==◌, if◌then◌else◌, saturating_add,
}
use gibberish.Protocol.Packet.{MeshPacket}

abbrev pub sram_ring_capacity : ℕ
sram_ring_capacity = 256

pub record SramRingBuffer : Type 0 where
  pub buffer : List (Option MeshPacket)
  pub head : ℕ
  pub tail : ℕ
  pub count : ℕ
  pub dropped_overflow : ℕ

unfoldable pub new_ring : SramRingBuffer
new_ring = record {
  buffer = replicate sram_ring_capacity none;
  head = 0;
  tail = 0;
  count = 0;
  dropped_overflow = 0;
}

unfoldable pub len : SramRingBuffer → ℕ
len r = r.count

unfoldable pub is_empty : SramRingBuffer → Bool
is_empty r = r.count == 0

unfoldable pub is_full : SramRingBuffer → Bool
is_full r = r.count == sram_ring_capacity

unfoldable pub dropped_count : SramRingBuffer → ℕ
dropped_count r = r.dropped_overflow

-- `self.buffer[self.tail].take()`, and the tail and the count moved on. The count is positive
-- wherever this runs.
abbrev pub take_tail : SramRingBuffer → SramRingBuffer × Option MeshPacket
take_tail r = (
  record r {
    buffer = set r.buffer r.tail none;
    tail = (r.tail + 1) % sram_ring_capacity;
    count = r.count - 1;
  },
  get_or r.buffer r.tail none,
)

-- The eviction of `push`; `dropped_overflow` is a `u32`.
abbrev pub make_room : SramRingBuffer → SramRingBuffer × Option MeshPacket
make_room r =
    if r.count == sram_ring_capacity
    then (let (r', evicted) = take_tail r in
        (record r' { dropped_overflow = saturating_add 4294967295 r'.dropped_overflow 1 }, evicted))
    else (r, none)

unfoldable pub push : SramRingBuffer → MeshPacket → SramRingBuffer × Option MeshPacket
push r packet =
    let (r', evicted) = make_room r in
    (
      record r' {
        buffer = set r'.buffer r'.head (some packet);
        head = (r'.head + 1) % sram_ring_capacity;
        count = r'.count + 1;
      },
      evicted,
    )

unfoldable pub pop : SramRingBuffer → SramRingBuffer × Option MeshPacket
pop r = if r.count == 0 then (r, none) else take_tail r

unfoldable pub peek : SramRingBuffer → Option MeshPacket
peek r = if r.count == 0 then none else get_or r.buffer r.tail none

-- `for slot in self.buffer.iter_mut() { *slot = None }`
clear_slots : List (Option MeshPacket) → List (Option MeshPacket)
clear_slots [] = []
clear_slots (slot ∷ slots) = none ∷ clear_slots slots

unfoldable pub clear : SramRingBuffer → SramRingBuffer
unfolding clear_slots
clear r = record r { buffer = clear_slots r.buffer; head = 0; tail = 0; count = 0 }
