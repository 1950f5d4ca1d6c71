-- ===== src/Radio/Backoff/Queue.antt =====
-- What the transmit queue promises: a list of waiting packets, the oldest first, `none` for one that
-- was cancelled.
use gibberish.Prelude.{
  ℕ, ◌+◌, ◌%◌, ◌<◌, ◌≤◌, ◌≡◌, Bool, true, false, Option, none, some, List, [], ◌∷◌, ◌++◌, length,
  ltb, ◌==◌, ◌&&◌, if◌then◌else◌,
}
use gibberish.Prelude.Circular.{window}
use gibberish.Protocol.Packet.{MeshPacket}
use gibberish.Radio.Backoff.{BackoffController, tx_queue_capacity, is_telemetry}

abbrev pub Waiting : Type 0
Waiting = List (Option MeshPacket)

-- The controller's slots from the head on are this list.
pub record Queued (b : BackoffController) (w : Waiting) : Type 0 where
  pub storage : length b.queue ≡ tx_queue_capacity
  pub head_in : b.head < tx_queue_capacity
  pub count_in : b.count ≤ tx_queue_capacity
  pub tail_at : b.tail ≡ (b.head + b.count) % tx_queue_capacity
  pub slots : window tx_queue_capacity b.queue b.head b.count ≡ w
  pub counted : b.count ≡ length w

unfoldable pub behind : Waiting → Waiting
behind [] = []
behind (o ∷ w) = w

-- A packet is appended; of eight the oldest goes.
unfoldable pub enqueue : Waiting → MeshPacket → Waiting
unfolding behind
enqueue w p =
    if ltb (length w) tx_queue_capacity then w ++ (some p ∷ []) else behind w ++ (some p ∷ [])

unfoldable pub has_user : Waiting → Bool
has_user [] = false
has_user (none ∷ w) = has_user w
has_user (some p ∷ w) = if is_telemetry p then has_user w else true

-- Whether a packet is the chunk of a message with these numbers.
unfoldable pub of_chunk : MeshPacket → ℕ → ℕ → Bool
of_chunk p msg_id chunk_idx = p.header.msg_id == msg_id && p.header.chunk_idx == chunk_idx

-- The first packet of this chunk is cancelled.
unfoldable pub cancel : ℕ → ℕ → Waiting → Waiting
cancel msg_id chunk_idx [] = []
cancel msg_id chunk_idx (none ∷ w) = none ∷ cancel msg_id chunk_idx w
cancel msg_id chunk_idx (some p ∷ w) =
    if of_chunk p msg_id chunk_idx then none ∷ w else some p ∷ cancel msg_id chunk_idx w

unfoldable pub waits : ℕ → ℕ → Waiting → Bool
waits msg_id chunk_idx [] = false
waits msg_id chunk_idx (none ∷ w) = waits msg_id chunk_idx w
waits msg_id chunk_idx (some p ∷ w) =
    if of_chunk p msg_id chunk_idx then true else waits msg_id chunk_idx w

-- The oldest packet that was not cancelled, and the list behind it.
unfoldable pub dequeue : Waiting → Waiting × Option MeshPacket
dequeue [] = ([], none)
dequeue (none ∷ w) = dequeue w
dequeue (some p ∷ w) = (w, some p)
