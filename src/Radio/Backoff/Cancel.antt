-- ===== src/Radio/Backoff/Cancel.antt =====
-- Searching the transmit queue: for a user packet, and for the packet of an overheard chunk.
use gibberish.Prelude.{
  ℕ, suc, ◌+◌, ◌%◌, ◌≡◌, inl, inr, refl, ap, ◌∙◌, sym, Bool, true, false, not, Option, none, some,
  [], ◌∷◌, ◌++◌, length, get_or, set, if◌then◌else◌, arith, Bool-cases, length-set, length-append,
  subst, subst₂,
}
use gibberish.Prelude.Circular.{window-set, get_or-window}
use gibberish.Protocol.Packet.{MeshPacket}
use gibberish.Radio.Backoff.{
  BackoffController, tx_queue_capacity, schedule_tx, user_waits, schedule_telemetry, is_chunk,
  overhear_loop, on_overhear,
}
use gibberish.Radio.Backoff.Queue.{Waiting, Queued, has_user, of_chunk, cancel, waits}

get_or-middle :
    (pre suf : Waiting) (o : Option MeshPacket) → get_or (pre ++ (o ∷ suf)) (length pre) none ≡ o
get_or-middle [] suf o = refl
get_or-middle (x ∷ pre) suf o = get_or-middle pre suf o

set-middle :
    (pre suf : Waiting) (o x : Option MeshPacket)
    → set (pre ++ (o ∷ suf)) (length pre) x ≡ pre ++ (x ∷ suf)
set-middle [] suf o x = refl
set-middle (y ∷ pre) suf o x = ap (λ r. y ∷ r) (set-middle pre suf o x)

-- The slot that a loop over the queue reads in its turn `length pre`.
slot_read :
    (b : BackoffController) (pre suf : Waiting) (o : Option MeshPacket)
    → Queued b (pre ++ (o ∷ suf))
    → get_or b.queue ((b.head + length pre) % tx_queue_capacity) none ≡ o
slot_read b pre suf o v =
    sym (
      get_or-window tx_queue_capacity b.queue b.head b.count (length pre) v.head_in
        (omega (arith, v.counted, length-append {0} pre (o ∷ suf))))
    ∙ ap (λ s. get_or s (length pre) none) v.slots
    ∙ get_or-middle pre suf o

slot_cleared :
    (b : BackoffController) (pre suf : Waiting) (o : Option MeshPacket)
    → Queued b (pre ++ (o ∷ suf))
    → Queued
        (record b { queue = set b.queue ((b.head + length pre) % tx_queue_capacity) none })
        (pre ++ (none ∷ suf))
slot_cleared b pre suf o v = record {
  storage = length-set b.queue ((b.head + length pre) % tx_queue_capacity) none ∙ v.storage;
  head_in = v.head_in;
  count_in = v.count_in;
  tail_at = v.tail_at;
  slots =
      window-set tx_queue_capacity b.queue b.head b.count (length pre) none v.storage v.head_in
        (omega (arith, v.counted, length-append {0} pre (o ∷ suf))) v.count_in
      ∙ ap (λ s. set s (length pre) none) v.slots
      ∙ set-middle pre suf o none;
  counted =
      omega (arith, v.counted, length-append {0} pre (o ∷ suf), length-append {0} pre (none ∷ suf));
}

-- A turn goes on to the next slot.
move_on : (pre suf : Waiting) (o : Option MeshPacket) → (pre ++ (o ∷ [])) ++ suf ≡ pre ++ (o ∷ suf)
move_on [] suf o = refl
move_on (x ∷ pre) suf o = ap (λ r. x ∷ r) (move_on pre suf o)

length-snoc : (pre : Waiting) (o : Option MeshPacket) → length pre + 1 ≡ length (pre ++ (o ∷ []))
length-snoc pre o = omega (arith, length-append {0} pre (o ∷ []))

user_waits-has_user :
    (b : BackoffController) (pre suf : Waiting)
    → Queued b (pre ++ suf)
    → user_waits (length suf) (length pre) b ≡ has_user suf
unfolding user_waits has_user
user_waits-has_user b pre [] v = refl
user_waits-has_user b pre (none ∷ suf) v =
    let v' : Queued b ((pre ++ (none ∷ [])) ++ suf) = rw (move_on pre suf none) v in
    let ih = user_waits-has_user b (pre ++ (none ∷ [])) suf v' in
    ground (
      arith,
      slot_read b pre suf none v,
      ap (λ k. user_waits (length suf) k b) (length-snoc pre none),
      ih,
    )
user_waits-has_user b pre (some p ∷ suf) v =
    let v' : Queued b ((pre ++ (some p ∷ [])) ++ suf) = rw (move_on pre suf (some p)) v in
    let ih = user_waits-has_user b (pre ++ (some p ∷ [])) suf v' in
    ground (
      arith,
      slot_read b pre suf (some p) v,
      ap (λ k. user_waits (length suf) k b) (length-snoc pre (some p)),
      ih,
    )

-- Telemetry is scheduled exactly when no user packet waits; otherwise the queue is unchanged.
pub schedule_telemetry_refines :
    (b : BackoffController) (w : Waiting) (p : MeshPacket) (jitter_ms : ℕ)
    → Queued b w
    → ((schedule_telemetry b p jitter_ms).1 ≡ not (has_user w))
      × ((schedule_telemetry b p jitter_ms).0
          ≡ (if has_user w then b else schedule_tx b p jitter_ms))
unfolding schedule_telemetry
schedule_telemetry_refines b w p jitter_ms v =
    let e : user_waits b.count 0 b ≡ has_user w =
      ap (λ n. user_waits n 0 b) v.counted ∙ user_waits-has_user b [] w v in
    ground (arith, e)

-- One turn of the search: the slot is empty or holds another chunk, or it holds the chunk.
overhear_skip :
    (n i msg_id chunk_idx : ℕ) (b : BackoffController) (o : Option MeshPacket)
    → get_or b.queue ((b.head + i) % tx_queue_capacity) none ≡ o
    → waits msg_id chunk_idx (o ∷ []) ≡ false
    → overhear_loop (suc n) i msg_id chunk_idx b ≡ overhear_loop n (i + 1) msg_id chunk_idx b
unfolding overhear_loop waits is_chunk of_chunk
overhear_skip n i msg_id chunk_idx b none e w = ground arith
overhear_skip n i msg_id chunk_idx b (some p) e w = ground arith

overhear_hit :
    (n i msg_id chunk_idx : ℕ) (b : BackoffController) (p : MeshPacket)
    → get_or b.queue ((b.head + i) % tx_queue_capacity) none ≡ some p
    → of_chunk p msg_id chunk_idx ≡ true
    → overhear_loop (suc n) i msg_id chunk_idx b
      ≡ (record b { queue = set b.queue ((b.head + i) % tx_queue_capacity) none }, true)
unfolding overhear_loop is_chunk of_chunk
overhear_hit n i msg_id chunk_idx b p e w = ground arith

-- What the search leaves and returns, for the list `w` and the answer `found`.
abbrev Cancelled : BackoffController × Bool → Waiting → Bool → Type 0
Cancelled r w found = Queued r.0 w × (r.1 ≡ found)

overhear_loop-cancel :
    (b : BackoffController) (pre suf : Waiting) (msg_id chunk_idx : ℕ)
    → Queued b (pre ++ suf)
    → Cancelled
        (overhear_loop (length suf) (length pre) msg_id chunk_idx b)
        (pre ++ cancel msg_id chunk_idx suf)
        (waits msg_id chunk_idx suf)
unfolding overhear_loop cancel waits
overhear_loop-cancel b pre [] msg_id chunk_idx v = (v, refl)
overhear_loop-cancel b pre (none ∷ suf) msg_id chunk_idx v =
    let v' : Queued b ((pre ++ (none ∷ [])) ++ suf) = rw (move_on pre suf none) v in
    let ih = overhear_loop-cancel b (pre ++ (none ∷ [])) suf msg_id chunk_idx v' in
    let step =
      overhear_skip (length suf) (length pre) msg_id chunk_idx b none (slot_read b pre suf none v)
        refl
      ∙ ap (λ k. overhear_loop (length suf) k msg_id chunk_idx b) (length-snoc pre none) in
    subst₂ (λ r w. Cancelled r w (waits msg_id chunk_idx suf)) (sym step)
      (move_on pre (cancel msg_id chunk_idx suf) none) ih
overhear_loop-cancel b pre (some p ∷ suf) msg_id chunk_idx v =
    elim (Bool-cases (of_chunk p msg_id chunk_idx)) [
      | inl hit ↦
          let step =
            overhear_hit (length suf) (length pre) msg_id chunk_idx b p
              (slot_read b pre suf (some p) v) hit in
          rw hit (
            subst (λ r. Cancelled r (pre ++ (none ∷ suf)) true) (sym step)
              (slot_cleared b pre suf (some p) v, refl))
      | inr miss ↦
          let v' : Queued b ((pre ++ (some p ∷ [])) ++ suf) = rw (move_on pre suf (some p)) v in
          let ih = overhear_loop-cancel b (pre ++ (some p ∷ [])) suf msg_id chunk_idx v' in
          let step =
            overhear_skip (length suf) (length pre) msg_id chunk_idx b (some p)
              (slot_read b pre suf (some p) v) (rw miss)
            ∙ ap (λ k. overhear_loop (length suf) k msg_id chunk_idx b)
                (length-snoc pre (some p)) in
          rw miss (
            subst₂ (λ r w. Cancelled r w (waits msg_id chunk_idx suf)) (sym step)
              (move_on pre (cancel msg_id chunk_idx suf) (some p)) ih)
    ]

-- Overhearing a chunk cancels the first waiting packet of that chunk, if there is one, and nothing
-- else; the result says whether there was one.
pub on_overhear_refines :
    (b : BackoffController) (w : Waiting) (msg_id chunk_idx : ℕ)
    → Queued b w
    → Queued (on_overhear b msg_id chunk_idx).0 (cancel msg_id chunk_idx w)
      × ((on_overhear b msg_id chunk_idx).1 ≡ waits msg_id chunk_idx w)
unfolding on_overhear
on_overhear_refines b w msg_id chunk_idx v =
    subst
      (λ n.
        Cancelled (overhear_loop n 0 msg_id chunk_idx b) (cancel msg_id chunk_idx w)
          (waits msg_id chunk_idx w))
      (sym v.counted) (overhear_loop-cancel b [] w msg_id chunk_idx v)
