-- ===== src/Storage/Manager/Rounds.antt =====
-- One round of the flush loop, and what it adds to the rounds that follow.
use gibberish.Prelude.{
  ℕ, suc, ◌+◌, ◌<◌, ◌≤◌, ◌≡◌, ◌⊎◌, inl, inr, refl, ap, ap₂, subst₂, ◌∙◌, sym, ◌^◌, none, some, List,
  [], ◌∷◌, ◌++◌, length, min, take, arith, append-nil, append_assoc,
}
use gibberish.Protocol.Packet.{MeshPacket}
use gibberish.Protocol.Telemetry.{ram_only, micro_sd_active}
use gibberish.Storage.Error.{Result, StorageError, ok, err}
use gibberish.Storage.Ring
use gibberish.Storage.Ring.{SramRingBuffer}
use gibberish.Storage.Ring.Contents.{Holds}
use gibberish.Storage.Manager.{
  BlockDevice, Manager, first_lba, record_block, checkpoint_lba, flush_loop, flush_from_sram,
  write_checkpoint,
}
use gibberish.Storage.Manager.Log.{
  Write, container, stored, container-append, Refused, Stored, next_seq, next_lba,
}

-- One round of the loop: the ring is empty, the write fails, or the write succeeds.
module _ {D : Type 0} (crc32 : List ℕ → ℕ) (dev : BlockDevice D) (n : ℕ) (m : Manager D) (d : D)
    (r : SramRingBuffer) where
  pub round_empty :
      Ring.peek r ≡ none → flush_loop crc32 dev (suc n) m d r ≡ (record m { device = some d }, r)
  unfolding flush_loop
  round_empty e = rw (e, flush_loop)

  module _ (p : MeshPacket) (e : Ring.peek r ≡ some p) (d1 : D) where
    pub round_fails :
        (c : StorageError)
        → dev.write_block d m.current_lba (record_block crc32 (next_seq m) p) ≡ (d1, err c)
        → flush_loop crc32 dev (suc n) m d r ≡ (record m { device = some d1; mode = ram_only }, r)
    unfolding flush_loop
    round_fails c w = ground arith

    pub round_succeeds :
        (u : Unit {0})
        → dev.write_block d m.current_lba (record_block crc32 (next_seq m) p) ≡ (d1, ok u)
        → flush_loop crc32 dev (suc n) m d r
          ≡ flush_loop crc32 dev n
              (record m { current_sequence = next_seq m; current_lba = next_lba m })
              (write_checkpoint crc32 dev d1 (next_seq m) (next_lba m))
              (Ring.pop r).0
    unfolding flush_loop
    round_succeeds u w = ground arith

pub write_cases :
    {D : Type 0} (x : D × Result (Unit {0}))
    → ((d : D) × (u : Unit {0}) × (x ≡ (d, ok u)))
      ⊎ ((d : D) × (c : StorageError) × (x ≡ (d, err c)))
write_cases (d, ok u) = inl (d, u, refl)
write_cases (d, err c) = inr (d, c, refl)

pub before_container :
    (sequence : ℕ) (buf : List ℕ) (log : List Write)
    → log ++ container ((checkpoint_lba sequence, buf) ∷ []) ≡ log
unfolding container
before_container sequence buf log = ground (arith, append-nil log)

pub in_container :
    (lba : ℕ) (buf : List ℕ) → first_lba ≤ lba → container ((lba, buf) ∷ []) ≡ (lba, buf) ∷ []
unfolding container
in_container lba buf h = ground arith

pub nothing :
    {D : Type 0} (crc32 : List ℕ → ℕ) (dev : BlockDevice D) (m : Manager (D × List Write)) (d : D)
    (log : List Write) (r : SramRingBuffer) (q : List MeshPacket) (rounds : ℕ)
    → Holds r q
    → min rounds (length q) ≡ 0
    → Stored crc32 dev rounds m log q 0 (record m { device = some (d, log) }, r)
unfolding stored
nothing crc32 dev m d log r q rounds v e = record {
  sequence = omega arith;
  lba = omega arith;
  ring = v;
  device = d;
  log_after = log;
  device_is = refl;
  written = sym (append-nil (container log));
  stopped = inl (refl, sym e);
}

pub failed :
    {D : Type 0} (crc32 : List ℕ → ℕ) (dev : BlockDevice D) (m : Manager (D × List Write)) (d : D)
    (log : List Write) (r : SramRingBuffer) (p : MeshPacket) (q : List MeshPacket) (rounds : ℕ)
    (before : D) (c : StorageError)
    → Holds r (p ∷ q)
    → m.current_sequence + 1 < 2 ^ 64
    → dev.write_block before m.current_lba (record_block crc32 (next_seq m) p) ≡ (d, err c)
    → Stored crc32 dev
        (suc rounds)
        m
        log
        (p ∷ q)
        0
        (record m { device = some (d, log); mode = ram_only }, r)
unfolding stored
failed crc32 dev m d log r p q rounds before c v s w = record {
  sequence = omega arith;
  lba = omega arith;
  ring = v;
  device = d;
  log_after = log;
  device_is = refl;
  written = sym (append-nil (container log));
  stopped = inr (
    refl,
    omega arith,
    (
      p,
      refl,
      record {
        device_before = before;
        error = c;
        refusal =
            subst₂ (λ a b. dev.write_block before b (record_block crc32 a p) ≡ (d, err c))
              (let e : next_seq m ≡ m.current_sequence + 0 + 1 = omega arith in e)
              (let e : m.current_lba ≡ m.current_lba + 0 = omega arith in e) w;
      },
    ),
  );
}

Refused-next :
    {D : Type 0} (crc32 : List ℕ → ℕ) (dev : BlockDevice D) (sequence sequence' lba lba' : ℕ)
    (p : MeshPacket) (device : D)
    → sequence ≡ sequence'
    → lba ≡ lba'
    → Refused crc32 dev sequence lba p device
    → Refused crc32 dev sequence' lba' p device
Refused-next crc32 dev sequence sequence' lba lba' p device a b v =
    subst₂ (λ s l. Refused crc32 dev s l p device) a b v

-- A packet that was stored, and then `k` more.
pub one_more :
    {D : Type 0} (crc32 : List ℕ → ℕ) (dev : BlockDevice D) (m : Manager (D × List Write))
    (log log2 : List Write) (p : MeshPacket) (q : List MeshPacket) (rounds k : ℕ)
    (out : Manager (D × List Write) × SramRingBuffer)
    → first_lba ≤ m.current_lba
    → m.current_sequence + 1 < 2 ^ 64
    → m.current_lba + 1 < 2 ^ 32
    → container log2 ≡ container (log ++ ((m.current_lba, record_block crc32 (next_seq m) p) ∷ []))
    → Stored crc32 dev rounds
        (record m { current_sequence = next_seq m; current_lba = next_lba m })
        log2
        q
        k
        out
    → Stored crc32 dev (suc rounds) m log (p ∷ q) (suc k) out
unfolding stored container
one_more crc32 dev m log log2 p q rounds k out lo hs hl kept later =
    let s : next_seq m ≡ m.current_sequence + 1 = omega arith in
    let l : next_lba m ≡ m.current_lba + 1 = omega arith in
    let block : List Write = (m.current_lba, record_block crc32 (next_seq m) p) ∷ [] in
    record {
      sequence = omega (arith, later.sequence);
      lba = omega (arith, later.lba);
      ring = later.ring;
      device = later.device;
      log_after = later.log_after;
      device_is = later.device_is;
      written =
          later.written
          ∙ ap (λ c. c ++ stored crc32 (next_seq m) (next_lba m) (take k q))
              (kept
                ∙ container-append log block
                ∙ ap (λ c. container log ++ c) (in_container m.current_lba _ lo))
          ∙ append_assoc (container log) block (stored crc32 (next_seq m) (next_lba m) (take k q))
          ∙ ap₂
              (λ a b.
                container log
                ++ ((m.current_lba, record_block crc32 a p) ∷ stored crc32 a b (take k q)))
              s l;
      stopped = elim later.stopped [
        | inl (same, all) ↦ inl (same, omega (arith, all))
        | inr (mode, fewer, (next, at, refused)) ↦ inr (
          mode,
          omega (arith, fewer),
          (
            next,
            at,
            Refused-next crc32 dev _ _ _ _ next later.device
                (let e : next_seq m + k ≡ m.current_sequence + suc k = omega arith in e)
                (let e : next_lba m + k ≡ m.current_lba + suc k = omega arith in e) refused,
          ),
        )
      ];
    }

pub flush_from_sram-active :
    {D : Type 0} (crc32 : List ℕ → ℕ) (dev : BlockDevice D) (m : Manager D) (d : D)
    (r : SramRingBuffer)
    → m.mode ≡ micro_sd_active
    → m.device ≡ some d
    → flush_from_sram crc32 dev m r ≡ flush_loop crc32 dev 2 m d r
unfolding flush_from_sram
flush_from_sram-active crc32 dev m d r active present = ground arith
