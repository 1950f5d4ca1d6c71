-- ===== src/Radio/Backoff/Take.antt =====
-- Taking the next packet from the transmit queue.
use gibberish.Prelude.{
  ℕ, zero, suc, ◌≤◌, ◌≡◌, ◌≢◌, refl, sym, Option, none, some, [], ◌∷◌, length, arith, subst,
}
use gibberish.Protocol.Packet.{MeshPacket}
use gibberish.Radio.Backoff.{BackoffController, take_head, take_loop, take_pending}
use gibberish.Radio.Backoff.Queue.{Waiting, Queued, dequeue}
use gibberish.Radio.Backoff.Schedule.{take_head-Queued}

take_empty : (n : ℕ) (b : BackoffController) → b.count ≡ 0 → take_loop n b ≡ (b, none)
unfolding take_loop
take_empty zero b e = refl
take_empty (suc n) b e = ground arith

take_skip :
    (n : ℕ) (b : BackoffController)
    → b.count ≢ 0
    → (take_head b).1 ≡ none
    → take_loop (suc n) b ≡ take_loop n (take_head b).0
unfolding take_loop
take_skip n b ne e = ground arith

take_found :
    (n : ℕ) (b : BackoffController) (p : MeshPacket)
    → b.count ≢ 0
    → (take_head b).1 ≡ some p
    → take_loop (suc n) b ≡ ((take_head b).0, some p)
unfolding take_loop
take_found n b p ne e = ground arith

-- What the loop leaves and returns.
abbrev Taken : BackoffController × Option MeshPacket → Waiting × Option MeshPacket → Type 0
Taken r s = Queued r.0 s.0 × (r.1 ≡ s.1)

take_loop-dequeue :
    (n : ℕ) (b : BackoffController) (w : Waiting)
    → length w ≤ n
    → Queued b w
    → Taken (take_loop n b) (dequeue w)
unfolding dequeue
take_loop-dequeue n b [] h v =
    subst (λ r. Taken r ([], none)) (sym (take_empty n b v.counted)) (v, refl)
take_loop-dequeue zero b (o ∷ w) h v = absurd (omega arith)
take_loop-dequeue (suc n) b (none ∷ w) h v =
    let (queued, read) = take_head-Queued b none w v in
    subst (λ r. Taken r (dequeue w)) (sym (take_skip n b (omega (arith, v.counted)) read))
      (take_loop-dequeue n (take_head b).0 w (omega arith) queued)
take_loop-dequeue (suc n) b (some p ∷ w) h v =
    let (queued, read) = take_head-Queued b (some p) w v in
    subst (λ r. Taken r (w, some p)) (sym (take_found n b p (omega (arith, v.counted)) read))
      (queued, refl)

-- `take_pending` returns the oldest waiting packet that was not cancelled, whenever there is one,
-- and removes it with the cancelled ones before it.
pub take_pending_refines :
    (b : BackoffController) (w : Waiting)
    → Queued b w
    → Queued (take_pending b).0 (dequeue w).0 × ((take_pending b).1 ≡ (dequeue w).1)
unfolding take_pending
take_pending_refines b w v = take_loop-dequeue b.count b w (omega (arith, v.counted)) v
