-- ===== src/Storage/Ring/Refine.antt =====
-- The ring implements the bounded queue of `Queue`.
use gibberish.Prelude.{
  suc, ◌+◌, ◌-◌, ◌%◌, ◌<◌, ◌≡◌, ◌≢◌, refl, ap, ap₂, ◌∙◌, sym, Option, none, some, List, [], ◌∷◌,
  ◌++◌, map, length, get_or, set, arith, length-set, length-append, length-replicate, ◌==◌,
  Bool-cases, inl, inr, ==→eq, eq→==, subst, saturating_add,
}
use mathlib.Core.List.{map-append}
use gibberish.Protocol.Packet.{MeshPacket}
use gibberish.Storage.Ring.{
  SramRingBuffer, sram_ring_capacity, new_ring, push, pop, peek, clear, clear_slots, take_tail,
}
use gibberish.Storage.Ring.Contents.{Holds}
use gibberish.Prelude.Circular.{window, window-set_end, window-clear_front}
use gibberish.Storage.Ring.Queue.{
  front, rest, queue_push, Call, do_push, do_pop, do_peek, do_clear, ring_step, queue_step,
  ring_run, queue_run,
}

pub new_ring-Holds : Holds new_ring []
unfolding new_ring
new_ring-Holds = record {
  storage = length-replicate {A = Option MeshPacket} sram_ring_capacity none;
  tail_in = omega arith;
  count_in = omega arith;
  head_at = refl;
  filled = refl;
  counted = refl;
}

-- The queue holds a packet whenever the count is positive.
split_queue :
    (r : SramRingBuffer) (q : List MeshPacket)
    → Holds r q
    → r.count ≢ 0
    → (get_or r.buffer r.tail none ≡ front q)
      × (window sram_ring_capacity r.buffer ((r.tail + 1) % sram_ring_capacity) (r.count - 1)
          ≡ map some (rest q))
      × (r.count ≡ suc (length (rest q)))
unfolding front rest
split_queue r [] v ne = absurd (omega arith)
split_queue r (p ∷ q) v ne =
    let n : r.count ≡ suc (r.count - 1) = omega arith in
    let w = sym (ap (window sram_ring_capacity r.buffer r.tail) n) ∙ v.filled in ground arith

-- Taking the oldest packet out, of a ring that is not empty.
take_tail-Holds :
    (r : SramRingBuffer) (q : List MeshPacket)
    → Holds r q
    → r.count ≢ 0
    → Holds (take_tail r).0 (rest q) × ((take_tail r).1 ≡ front q)
take_tail-Holds r q v ne =
    let s = split_queue r q v ne in
    (
      record {
        storage = length-set r.buffer r.tail none ∙ v.storage;
        tail_in = omega arith;
        count_in = omega (arith, v.count_in);
        head_at = omega (arith, v.head_at);
        filled =
            window-clear_front sram_ring_capacity r.buffer r.tail (r.count - 1) none v.tail_in
              (omega (arith, v.count_in))
            ∙ s.1;
        counted = omega (arith, s.2);
      },
      s.0,
    )

-- Storing a packet at the head, where there is room.
abbrev put_head : SramRingBuffer → MeshPacket → SramRingBuffer
put_head r p = record r {
  buffer = set r.buffer r.head (some p);
  head = (r.head + 1) % sram_ring_capacity;
  count = r.count + 1;
}

put_head-Holds :
    (r : SramRingBuffer) (q : List MeshPacket) (p : MeshPacket)
    → Holds r q
    → r.count < sram_ring_capacity
    → Holds (put_head r p) (q ++ (p ∷ []))
put_head-Holds r q p v room =
    let next : r.count + 1 ≡ suc r.count = omega arith in
    record {
      storage = length-set r.buffer r.head (some p) ∙ v.storage;
      tail_in = v.tail_in;
      count_in = omega arith;
      head_at = omega (arith, v.head_at);
      filled =
          ap₂ (λ h n. window sram_ring_capacity (set r.buffer h (some p)) r.tail n) v.head_at next
          ∙ window-set_end sram_ring_capacity r.buffer r.tail r.count (some p) v.storage v.tail_in
              room
          ∙ ap (λ w. w ++ (some p ∷ [])) v.filled
          ∙ sym (map-append some q (p ∷ []));
      counted = omega (arith, v.counted, length-append {0} q (p ∷ []));
    }

empty_queue : (q : List MeshPacket) → length q ≡ 0 → q ≡ []
empty_queue [] h = refl
empty_queue (p ∷ q) h = absurd (omega arith)

-- `pop` removes the oldest packet and returns it.
pub pop_refines :
    (r : SramRingBuffer) (q : List MeshPacket)
    → Holds r q
    → Holds (pop r).0 (rest q) × ((pop r).1 ≡ front q)
unfolding pop front rest
pop_refines r q v = elim (Bool-cases (r.count == 0)) [
  | inl e ↦
      let none_left = empty_queue q (sym v.counted ∙ ==→eq r.count 0 e) in
      rw (e, none_left) (subst (Holds r) none_left v, refl)
  | inr e ↦ rw e (take_tail-Holds r q v (λ z. cc (eq→== r.count 0 z)))
]

-- `peek` returns the oldest packet.
pub peek_refines : (r : SramRingBuffer) (q : List MeshPacket) → Holds r q → peek r ≡ front q
unfolding peek front
peek_refines r q v = elim (Bool-cases (r.count == 0)) [
  | inl e ↦ rw (e, empty_queue q (sym v.counted ∙ ==→eq r.count 0 e))
  | inr e ↦ rw e (split_queue r q v (λ z. cc (eq→== r.count 0 z))).0
]

-- `push` stores the packet behind the others; at 256 packets it drops and returns the oldest.
pub push_refines :
    (r : SramRingBuffer) (q : List MeshPacket) (p : MeshPacket)
    → Holds r q
    → Holds (push r p).0 (queue_push q p).0 × ((push r p).1 ≡ (queue_push q p).1)
unfolding push queue_push
push_refines r q p v = elim (Bool-cases (r.count == sram_ring_capacity)) [
  | inl e ↦
      let full = ==→eq r.count sram_ring_capacity e in
      let (held, oldest) = take_tail-Holds r q v (omega arith) in
      let dropped = record (take_tail r).0 {
        dropped_overflow = saturating_add 4294967295 r.dropped_overflow 1;
      } in
      let held' : Holds dropped (rest q) = record {
        storage = held.storage;
        tail_in = held.tail_in;
        count_in = held.count_in;
        head_at = held.head_at;
        filled = held.filled;
        counted = held.counted;
      } in
      rw (e, sym v.counted, e) (put_head-Holds dropped (rest q) p held' (omega arith), oldest)
  | inr e ↦
      let room : r.count ≢ sram_ring_capacity = λ z. cc (eq→== r.count sram_ring_capacity z) in
      rw (e, sym v.counted, e) (put_head-Holds r q p v (omega (arith, v.count_in)), refl)
]

length-clear_slots : (l : List (Option MeshPacket)) → length (clear_slots l) ≡ length l
unfolding clear_slots
length-clear_slots [] = refl
length-clear_slots (s ∷ l) = ap suc (length-clear_slots l)

clear_refines : (r : SramRingBuffer) (q : List MeshPacket) → Holds r q → Holds (clear r) []
unfolding clear
clear_refines r q v = record {
  storage = length-clear_slots r.buffer ∙ v.storage;
  tail_in = omega arith;
  count_in = omega arith;
  head_at = refl;
  filled = refl;
  counted = refl;
}

-- One call of any method: the ring's result is the queue's, and the ring goes on holding the queue.
-- With 256 packets held, `push` drops and returns the oldest and no other.
pub step_refines :
    (r : SramRingBuffer) (q : List MeshPacket) (c : Call)
    → Holds r q
    → Holds (ring_step r c).0 (queue_step q c).0 × ((ring_step r c).1 ≡ (queue_step q c).1)
unfolding ring_step queue_step
step_refines r q (do_push p) v = push_refines r q p v
step_refines r q do_pop v = pop_refines r q v
step_refines r q do_peek v = (v, peek_refines r q v)
step_refines r q do_clear v = (clear_refines r q v, refl)

run_refines_from :
    (r : SramRingBuffer) (q : List MeshPacket) (calls : List Call)
    → Holds r q
    → ring_run r calls ≡ queue_run q calls
unfolding ring_run queue_run
run_refines_from r q [] v = refl
run_refines_from r q (c ∷ calls) v =
    let (held, same) = step_refines r q c v in
    ap₂ ◌∷◌ same (run_refines_from (ring_step r c).0 (queue_step q c).0 calls held)

-- No sequence of calls on a new ring can be told from the same calls on the bounded queue.
pub run_refines : (calls : List Call) → ring_run new_ring calls ≡ queue_run [] calls
run_refines calls = run_refines_from new_ring [] calls new_ring-Holds
