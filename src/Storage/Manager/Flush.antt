-- ===== src/Storage/Manager/Flush.antt =====
-- Flushing the ring to the card, on a device that may fail at any call: what leaves the ring has
-- been written, and what could not be written stays.
use gibberish.Prelude.{
  ℕ, zero, suc, ◌+◌, ◌<◌, ◌≤◌, ◌≡◌, inl, inr, refl, ap, ◌∙◌, ◌^◌, some, List, [], ◌∷◌, ◌++◌,
  replicate, ◌%◌, arith, ◌==◌, Bool-cases,
}
use gibberish.Protocol.Packet.{MeshPacket}
use gibberish.Protocol.Telemetry.{ram_only, micro_sd_active}
use gibberish.Storage.Error.{StorageError, ok, err}
use gibberish.Storage.Record.{sector_size, serialize_checkpoint}
use gibberish.Storage.Ring
use gibberish.Storage.Ring.{SramRingBuffer}
use gibberish.Storage.Ring.Contents.{Holds}
use gibberish.Storage.Ring.Queue.{front, rest}
use gibberish.Storage.Ring.Refine.{peek_refines, pop_refines}
use gibberish.Storage.Manager.{
  BlockDevice, Manager, first_lba, checkpoint_of, record_block, checkpoint_lba, flush_loop,
  flush_from_sram, write_checkpoint,
}
use gibberish.Storage.Manager.Log.{
  Write, logging, container, container-append, Stored, next_seq, next_lba,
}
use gibberish.Storage.Manager.Rounds.{
  round_empty, round_fails, round_succeeds, write_cases, before_container, nothing, failed,
  one_more, flush_from_sram-active,
}

module _ {D : Type 0} (crc32 : List ℕ → ℕ) (dev : BlockDevice D) where
  log_ok :
      (d d1 : D) (log : List Write) (lba : ℕ) (buf : List ℕ) (u : Unit {0})
      → dev.write_block d lba buf ≡ (d1, ok u)
      → (logging dev).write_block (d, log) lba buf ≡ ((d1, log ++ ((lba, buf) ∷ [])), ok u)
  unfolding logging
  log_ok d d1 log lba buf u e = rw e

  log_err :
      (d d1 : D) (log : List Write) (lba : ℕ) (buf : List ℕ) (c : StorageError)
      → dev.write_block d lba buf ≡ (d1, err c)
      → (logging dev).write_block (d, log) lba buf ≡ ((d1, log), err c)
  unfolding logging
  log_err d d1 log lba buf c e = rw e

  -- A checkpoint goes to block 1 or 2, before the container.
  checkpoint_log :
      (d : D) (log : List Write) (sequence lba : ℕ)
      → (d' : D) × (log' : List Write) × (write_checkpoint crc32 (logging dev) (d, log) sequence lba
          ≡ (d', log'))
        × (container log' ≡ container log)
  unfolding write_checkpoint container
  checkpoint_log d log sequence lba = elim (Bool-cases (sequence % 16 == 0)) [
    | inr e ↦ (d, log, rw e, refl)
    | inl e ↦
        let at = checkpoint_lba sequence in
        let buf =
          serialize_checkpoint crc32 (checkpoint_of sequence lba) (replicate sector_size 0) in
        elim (write_cases (dev.write_block d at buf)) [
          | inl (d1, u, w) ↦ (
            d1,
            log ++ ((at, buf) ∷ []),
            rw e (ap (λ x. x.0) (log_ok d d1 log at buf u w)),
            container-append log ((at, buf) ∷ []) ∙ before_container sequence buf (container log),
          )
          | inr (d1, c, w) ↦ (d1, log, rw e (ap (λ x. x.0) (log_err d d1 log at buf c w)), refl)
        ]
  ]

  loop-Stored :
      (rounds : ℕ) (m : Manager (D × List Write)) (d : D) (log : List Write) (r : SramRingBuffer)
      (q : List MeshPacket)
      → Holds r q
      → first_lba ≤ m.current_lba
      → m.current_sequence + rounds < 2 ^ 64
      → m.current_lba + rounds < 2 ^ 32
      → (k : ℕ) × (k ≤ rounds)
        × Stored crc32 dev rounds m log q k (flush_loop crc32 (logging dev) rounds m (d, log) r)
  loop-Stored zero m d log r q v lo hs hl =
      (0, omega arith, unfold flush_loop in nothing crc32 dev m d log r q 0 v (omega arith))
  loop-Stored (suc n) m d log r [] v lo hs hl = (
    0,
    omega arith,
    rw
        (round_empty crc32 (logging dev) n m (d, log) r
          (peek_refines r [] v ∙ (unfold front in refl)))
        (nothing crc32 dev m d log r [] (suc n) v (omega arith)),
  )
  loop-Stored (suc n) m d log r (p ∷ q) v lo hs hl =
      let e : Ring.peek r ≡ some p = peek_refines r (p ∷ q) v ∙ (unfold front in refl) in
      let buf = record_block crc32 (next_seq m) p in
      elim (write_cases (dev.write_block d m.current_lba buf)) [
        | inr (d1, c, w) ↦ (
          0,
          omega arith,
          rw
              (round_fails crc32 (logging dev) n m (d, log) r p e (d1, log) c
                (log_err d d1 log m.current_lba buf c w))
              (failed crc32 dev m d1 log r p q n d c v (omega arith) w),
        )
        | inl (d1, u, w) ↦
            let log' = log ++ ((m.current_lba, buf) ∷ []) in
            let (d2, log2, written, kept) = checkpoint_log d1 log' (next_seq m) (next_lba m) in
            let m' = record m { current_sequence = next_seq m; current_lba = next_lba m } in
            let popped : Holds (Ring.pop r).0 q = unfold rest in (pop_refines r (p ∷ q) v).0 in
            let (k, le, later) =
              loop-Stored n m' d2 log2 (Ring.pop r).0 q popped (omega arith) (omega arith)
                (omega arith) in
            (
              suc k,
              omega arith,
              rw
                  (
                    round_succeeds crc32 (logging dev) n m (d, log) r p e (d1, log') u
                        (log_ok d d1 log m.current_lba buf u w),
                    written,
                  )
                  (one_more crc32 dev m log log2 p q n k _ lo (omega arith) (omega arith) kept
                    later),
            )
      ]

  -- A flush of a manager in SD mode stores the first `k` packets of the ring, one to a block of the
  -- container, in order and numbered on from the last, and removes those and no others from the
  -- ring. Either the mode is unchanged and `k` is 2, or the number of packets held if that is less,
  -- or `k` is smaller, the mode is RAM-only, and the device, left in its last state, answered the write
  -- of the next packet's block with an error. This holds whatever the device does at each call; the
  -- counters are taken to be short of their limits.
  pub flush_from_sram-Stored :
      (m : Manager (D × List Write)) (d : D) (log : List Write) (r : SramRingBuffer)
      (q : List MeshPacket)
      → Holds r q
      → m.mode ≡ micro_sd_active
      → m.device ≡ some (d, log)
      → first_lba ≤ m.current_lba
      → m.current_sequence + 2 < 2 ^ 64
      → m.current_lba + 2 < 2 ^ 32
      → (k : ℕ) × (k ≤ 2) × Stored crc32 dev 2 m log q k (flush_from_sram crc32 (logging dev) m r)
  flush_from_sram-Stored m d log r q v active present lo hs hl =
      rw (flush_from_sram-active crc32 (logging dev) m (d, log) r active present)
        (loop-Stored 2 m d log r q v lo hs hl)

-- In RAM-only mode a flush touches neither the card nor the ring.
pub flush_from_sram-ram_only :
    {D : Type 0} (crc32 : List ℕ → ℕ) (dev : BlockDevice D) (m : Manager D) (r : SramRingBuffer)
    → m.mode ≡ ram_only
    → flush_from_sram crc32 dev m r ≡ (m, r)
unfolding flush_from_sram
flush_from_sram-ram_only crc32 dev m r e = ground arith
