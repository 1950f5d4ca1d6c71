-- ===== src/Radio/Backoff/Schedule.antt =====
-- Scheduling a packet on the transmit queue, which implements `Queue`.
use gibberish.Prelude.{
  ℕ, suc, ◌+◌, ◌-◌, ◌%◌, ◌<◌, ◌≡◌, inl, inr, refl, ap, ap₂, ◌∙◌, sym, Option, none, some, [], ◌∷◌,
  ◌++◌, set, ltb, arith, Bool-cases, length-set, length-append, length-replicate, ltb→lt,
  ltb_false→le, subst,
}
use gibberish.Prelude.Circular.{window, window-set_end, window-clear_front}
use gibberish.Protocol.Packet.{MeshPacket}
use gibberish.Radio.Backoff.{
  BackoffController, tx_queue_capacity, new_backoff, schedule_tx, take_head,
}
use gibberish.Radio.Backoff.Queue.{Waiting, Queued, behind, enqueue}

pub new_backoff-Queued : Queued new_backoff []
unfolding new_backoff
new_backoff-Queued = record {
  storage = length-replicate {A = Option MeshPacket} tx_queue_capacity none;
  head_in = omega arith;
  count_in = omega arith;
  tail_at = refl;
  slots = refl;
  counted = refl;
}

-- The slot at the head is the first of the list.
pub take_head-Queued :
    (b : BackoffController) (o : Option MeshPacket) (w : Waiting)
    → Queued b (o ∷ w)
    → Queued (take_head b).0 w × ((take_head b).1 ≡ o)
take_head-Queued b o w v =
    let n : b.count ≡ suc (b.count - 1) = omega (arith, v.counted) in
    let s : window tx_queue_capacity b.queue b.head (suc (b.count - 1)) ≡ o ∷ w =
      sym (ap (window tx_queue_capacity b.queue b.head) n) ∙ v.slots in
    (
      record {
        storage = length-set b.queue b.head none ∙ v.storage;
        head_in = omega arith;
        count_in = omega (arith, v.count_in);
        tail_at = omega (arith, v.tail_at);
        slots =
            window-clear_front tx_queue_capacity b.queue b.head (b.count - 1) none v.head_in
              (omega (arith, v.count_in))
            ∙ ap behind_of s;
        counted = omega (arith, v.counted);
      },
      ap first_of_list s,
    )
  where
    behind_of : Waiting → Waiting
    behind_of [] = []
    behind_of (x ∷ xs) = xs

    first_of_list : Waiting → Option MeshPacket
    first_of_list [] = none
    first_of_list (x ∷ xs) = x

-- A packet stored at the tail, where there is room.
pub put_tail-Queued :
    (b : BackoffController) (w : Waiting) (p : MeshPacket) (ms : ℕ)
    → Queued b w
    → b.count < tx_queue_capacity
    → Queued
        (record b {
          queue = set b.queue b.tail (some p);
          tail = (b.tail + 1) % tx_queue_capacity;
          count = b.count + 1;
          backoff_remaining_ms = ms;
        })
        (w ++ (some p ∷ []))
put_tail-Queued b w p ms v room =
    let next : b.count + 1 ≡ suc b.count = omega arith in
    record {
      storage = length-set b.queue b.tail (some p) ∙ v.storage;
      head_in = v.head_in;
      count_in = omega arith;
      tail_at = omega (arith, v.tail_at);
      slots =
          ap₂ (λ t n. window tx_queue_capacity (set b.queue t (some p)) b.head n) v.tail_at next
          ∙ window-set_end tx_queue_capacity b.queue b.head b.count (some p) v.storage v.head_in
              room
          ∙ ap (λ s. s ++ (some p ∷ [])) v.slots;
      counted = omega (arith, v.counted, length-append {0} w (some p ∷ []));
    }

-- Scheduling a packet appends it; of eight waiting ones the oldest is given up.
pub schedule_tx_refines :
    (b : BackoffController) (w : Waiting) (p : MeshPacket) (jitter_ms : ℕ)
    → Queued b w
    → Queued (schedule_tx b p jitter_ms) (enqueue w p)
unfolding schedule_tx enqueue behind
schedule_tx_refines b w p jitter_ms v = elim (Bool-cases (ltb b.count tx_queue_capacity)) [
  | inl e ↦ rw (e, sym v.counted, e) (put_tail-Queued b w p _ v (ltb→lt b.count 8 e))
  | inr e ↦
      rw (e, sym v.counted, e) (full w v (omega (arith, ltb_false→le b.count 8 e, v.count_in)))
]
  where
    full :
        (w : Waiting)
        → Queued b w
        → b.count ≡ tx_queue_capacity
        → Queued
            (record b {
              queue = set (set b.queue b.head none) b.tail (some p);
              head = (b.head + 1) % tx_queue_capacity;
              tail = (b.tail + 1) % tx_queue_capacity;
            })
            (behind w ++ (some p ∷ []))
    full [] v e = absurd (omega (arith, v.counted))
    full (o ∷ w) v e =
        let taken = (take_head-Queued b o w v).0 in
        let again : b.count - 1 + 1 ≡ b.count = omega arith in
        let b1 = record (take_head b).0 { backoff_remaining_ms = b.backoff_remaining_ms } in
        let taken' : Queued b1 w = record {
          storage = taken.storage;
          head_in = taken.head_in;
          count_in = taken.count_in;
          tail_at = taken.tail_at;
          slots = taken.slots;
          counted = taken.counted;
        } in
        subst
          (λ c.
            Queued
              (record b {
                queue = set (set b.queue b.head none) b.tail (some p);
                head = (b.head + 1) % tx_queue_capacity;
                tail = (b.tail + 1) % tx_queue_capacity;
                count = c;
              })
              (w ++ (some p ∷ [])))
          again (put_tail-Queued b1 w p b.backoff_remaining_ms taken' (omega arith))
