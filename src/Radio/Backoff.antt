-- ===== src/Radio/Backoff.antt =====
-- `BackoffController` of apps/gibberish-firmware/src/radio/ieee802154.rs: the transmit queue of
-- eight slots, with overhearing cancellation. A cancelled packet leaves an empty slot behind.
pub mod Queue
pub mod Schedule
pub mod Cancel
pub mod Take
use Prim.Native.Nat.{bit_and}
use gibberish.Prelude.{
  ℕ, zero, suc, ◌+◌, ◌-◌, ◌%◌, min, max, Bool, true, false, not, ◌&&◌, Option, none, some, List, [],
  ◌∷◌, get_or, set, replicate, leb, ltb, ◌==◌, if◌then◌else◌,
}
use gibberish.Protocol.Consts.{flag_telemetry}
use gibberish.Protocol.Packet.{MeshPacket}

abbrev pub tx_queue_capacity : ℕ
tx_queue_capacity = 8

pub record BackoffController : Type 0 where
  pub queue : List (Option MeshPacket)
  pub head : ℕ
  pub tail : ℕ
  pub count : ℕ
  pub backoff_remaining_ms : ℕ

unfoldable pub new_backoff : BackoffController
new_backoff = record {
  queue = replicate tx_queue_capacity none;
  head = 0;
  tail = 0;
  count = 0;
  backoff_remaining_ms = 0;
}

-- `jitter_ms.clamp(15, 90)`
abbrev pub clamp_jitter : ℕ → ℕ
clamp_jitter jitter_ms = max 15 (min jitter_ms 90)

unfoldable pub schedule_tx : BackoffController → MeshPacket → ℕ → BackoffController
schedule_tx b packet jitter_ms =
    if ltb b.count tx_queue_capacity
    then record b {
      queue = set b.queue b.tail (some packet);
      tail = (b.tail + 1) % tx_queue_capacity;
      count = b.count + 1;
      backoff_remaining_ms =
          if b.count + 1 == 1 then clamp_jitter jitter_ms else b.backoff_remaining_ms;
    }
    else record b {
      queue = set (set b.queue b.head none) b.tail (some packet);
      head = (b.head + 1) % tx_queue_capacity;
      tail = (b.tail + 1) % tx_queue_capacity;
    }

unfoldable pub has_pending : BackoffController → Bool
has_pending b = ltb 0 b.count

-- `(p.header.flags & FLAG_TELEMETRY) != 0`
unfoldable pub is_telemetry : MeshPacket → Bool
is_telemetry p = not (bit_and p.header.flags flag_telemetry == 0)

unfoldable pub is_pending_telemetry : BackoffController → Bool
unfolding is_telemetry
is_pending_telemetry b =
    if ltb 0 b.count
    then elim (get_or b.queue b.head none) [ none ↦ false | some p ↦ is_telemetry p ]
    else false

-- `for i in 0..self.count`, with `rounds` to go: whether a user packet waits
user_waits : ℕ → ℕ → BackoffController → Bool
user_waits zero i b = false
user_waits (suc rounds) i b =
    let later = user_waits rounds (i + 1) b in
    elim (get_or b.queue ((b.head + i) % tx_queue_capacity) none) [
      | none ↦ later
      | some p ↦ if is_telemetry p then later else true
    ]

unfoldable pub schedule_telemetry : BackoffController → MeshPacket → ℕ → BackoffController × Bool
unfolding user_waits
schedule_telemetry b packet jitter_ms =
    if user_waits b.count 0 b then (b, false) else (schedule_tx b packet jitter_ms, true)

unfoldable pub tick : BackoffController → ℕ → BackoffController × Bool
tick b elapsed_ms =
    if b.count == 0
    then (b, false)
    else (if leb b.backoff_remaining_ms elapsed_ms
        then (record b { backoff_remaining_ms = 0 }, true)
        else (record b { backoff_remaining_ms = b.backoff_remaining_ms - elapsed_ms }, false))

unfoldable pub is_chunk : MeshPacket → ℕ → ℕ → Bool
is_chunk p msg_id chunk_idx = p.header.msg_id == msg_id && p.header.chunk_idx == chunk_idx

overhear_loop : ℕ → ℕ → ℕ → ℕ → BackoffController → BackoffController × Bool
overhear_loop zero i msg_id chunk_idx b = (b, false)
overhear_loop (suc rounds) i msg_id chunk_idx b =
    let idx = (b.head + i) % tx_queue_capacity in
    let later = overhear_loop rounds (i + 1) msg_id chunk_idx b in
    elim (get_or b.queue idx none) [
      | none ↦ later
      | some p ↦
          if is_chunk p msg_id chunk_idx
          then (record b { queue = set b.queue idx none }, true)
          else later
    ]

unfoldable pub on_overhear : BackoffController → ℕ → ℕ → BackoffController × Bool
unfolding overhear_loop
on_overhear b msg_id chunk_idx = overhear_loop b.count 0 msg_id chunk_idx b

-- One turn of the loop of `take_pending`: the slot at the head, and the queue behind it.
abbrev pub take_head : BackoffController → BackoffController × Option MeshPacket
take_head b = (
  record b {
    queue = set b.queue b.head none;
    head = (b.head + 1) % tx_queue_capacity;
    count = b.count - 1;
    backoff_remaining_ms = if ltb 0 (b.count - 1) then 20 else b.backoff_remaining_ms;
  },
  get_or b.queue b.head none,
)

-- `while self.count > 0`; each turn takes one off the count, so `count` turns are enough.
take_loop : ℕ → BackoffController → BackoffController × Option MeshPacket
take_loop zero b = (b, none)
take_loop (suc fuel) b =
    let (b', pkt) = take_head b in
    let later = take_loop fuel b' in
    if b.count == 0 then (b, none) else elim pkt [ some p ↦ (b', some p) | none ↦ later ]

unfoldable pub take_pending : BackoffController → BackoffController × Option MeshPacket
unfolding take_loop
take_pending b = take_loop b.count b
