-- ===== src/Storage/Manager/Recovery.antt =====
-- Starting from a card: which checkpoint is taken, and that a checkpoint that was written is found
-- again after a restart, also when the other checkpoint block is torn or old.
use gibberish.Prelude.{
  ℕ, ◌%◌, ◌<◌, ◌≤◌, ◌^◌, ◌≡◌, ◌≢◌, inl, inr, refl, ap, ◌∙◌, Option, none, some, List, replicate,
  length-replicate, arith, ◌==◌, if◌then◌else◌, Bool-cases, max, eq→==,
}
use gibberish.Protocol.Telemetry.{micro_sd_active}
use gibberish.Storage.Error.{ok, to_option}
use gibberish.Storage.Record.{
  CheckpointSector, sector_size, serialize_checkpoint, deserialize_checkpoint,
}
use gibberish.Storage.Record.RoundTrip.{deserialize_checkpoint-serialize_checkpoint}
use gibberish.Storage.Manager.{
  BlockDevice, first_lba, lba_of, choose_checkpoint, new_with_device, checkpoint_of,
  write_checkpoint,
}

-- A card that works: a read returns what the block holds, and a write changes that block alone.
pub record Works {D : Type 0} (dev : BlockDevice D) : Type 0 where
  pub block : D → ℕ → List ℕ
  pub reads : (d : D) (lba : ℕ) (buf : List ℕ) → dev.read_block d lba buf ≡ (d, block d lba, ok tt)
  pub writes : (d : D) (lba : ℕ) (buf : List ℕ) → (dev.write_block d lba buf).1 ≡ ok tt
  pub written : (d : D) (lba : ℕ) (buf : List ℕ) → block (dev.write_block d lba buf).0 lba ≡ buf
  pub kept :
      (d : D) (lba other : ℕ) (buf : List ℕ)
      → other ≢ lba
      → block (dev.write_block d lba buf).0 other ≡ block d other

-- The checkpoint of a block is missing, unreadable, or older than this sequence number.
abbrev pub IsOlder : ℕ → Option CheckpointSector → Type 0
IsOlder sequence none = Unit {0}
IsOlder sequence (some c) = c.sequence < sequence

-- The two checkpoint blocks are used in turn.
abbrev pub other_lba : ℕ → ℕ
other_lba sequence = if sequence % 32 == 0 then 2 else 1

choose-first :
    (c : CheckpointSector) (o : Option CheckpointSector)
    → IsOlder c.sequence o
    → ((choose_checkpoint (some c) o).0 ≡ c.sequence)
      × ((choose_checkpoint (some c) o).1 ≡ lba_of c)
unfolding choose_checkpoint
choose-first c none h = (refl, refl)
choose-first c (some c') h = ground arith

choose-second :
    (c : CheckpointSector) (o : Option CheckpointSector)
    → IsOlder c.sequence o
    → ((choose_checkpoint o (some c)).0 ≡ c.sequence)
      × ((choose_checkpoint o (some c)).1 ≡ lba_of c)
unfolding choose_checkpoint
choose-second c none h = (refl, refl)
choose-second c (some c') h = ground arith

module _ {D : Type 0} (crc32 : List ℕ → ℕ) (crc32_fits : (bytes : List ℕ) → crc32 bytes < 2 ^ 32)
    (dev : BlockDevice D) (card : Works dev) where
  abbrev checkpoint_at : D → ℕ → Option CheckpointSector
  checkpoint_at d lba = to_option (deserialize_checkpoint crc32 (card.block d lba))

  start :
      (d : D)
      → let (seq, lba, torn) = choose_checkpoint (checkpoint_at d 1) (checkpoint_at d 2) in
        new_with_device crc32 dev d ≡ record {
          device = some d;
          mode = micro_sd_active;
          current_sequence = seq;
          current_lba = max lba first_lba;
          torn_writes_recovered = torn;
        }
  unfolding new_with_device
  start d = rw (card.reads, card.reads)

  abbrev checkpoint_bytes : ℕ → ℕ → List ℕ
  checkpoint_bytes sequence lba =
      serialize_checkpoint crc32 (checkpoint_of sequence lba) (replicate sector_size 0)

  checkpoint_bytes-valid :
      (sequence lba : ℕ)
      → sequence < 2 ^ 64
      → lba < 2 ^ 32
      → deserialize_checkpoint crc32 (checkpoint_bytes sequence lba)
        ≡ ok (checkpoint_of sequence lba)
  checkpoint_bytes-valid sequence lba hs hl =
      deserialize_checkpoint-serialize_checkpoint crc32 crc32_fits (checkpoint_of sequence lba)
        (replicate sector_size 0)
        (record {
          sequence_fits = hs;
          head_fits = omega arith;
          tail_fits = omega arith;
          total_fits = hs;
        })
        (length-replicate {A = ℕ} sector_size 0)

  written_at :
      (d : D) (at sequence lba : ℕ)
      → sequence < 2 ^ 64
      → lba < 2 ^ 32
      → checkpoint_at (dev.write_block d at (checkpoint_bytes sequence lba)).0 at
        ≡ some (checkpoint_of sequence lba)
  written_at d at sequence lba hs hl =
      ap (λ b. to_option (deserialize_checkpoint crc32 b))
        (card.written d at (checkpoint_bytes sequence lba))
      ∙ ap to_option (checkpoint_bytes-valid sequence lba hs hl)

  kept_at :
      (d : D) (at other : ℕ) (buf : List ℕ)
      → other ≢ at
      → checkpoint_at (dev.write_block d at buf).0 other ≡ checkpoint_at d other
  kept_at d at other buf ne =
      ap (λ b. to_option (deserialize_checkpoint crc32 b)) (card.kept d at other buf ne)

  -- What a restart finds, from the choice that it makes.
  restart :
      (d : D) (sequence lba : ℕ)
      → lba < 2 ^ 32
      → first_lba ≤ lba
      → ((choose_checkpoint (checkpoint_at d 1) (checkpoint_at d 2)).0 ≡ sequence)
        × ((choose_checkpoint (checkpoint_at d 1) (checkpoint_at d 2)).1
            ≡ lba_of (checkpoint_of sequence lba))
      → let m = new_with_device crc32 dev d in
        (m.current_sequence ≡ sequence) × (m.current_lba ≡ lba) × (m.mode ≡ micro_sd_active)
  restart d sequence lba hl lo (s, l) = rw (start d) (s, omega (arith, l), refl)

  -- After a checkpoint was written, a restart from the card goes on from exactly its sequence number
  -- and its block, in SD mode, whether the other checkpoint block is older, torn or blank.
  pub checkpoint_recovered :
      (d : D) (sequence lba : ℕ)
      → sequence % 16 ≡ 0
      → sequence < 2 ^ 64
      → lba < 2 ^ 32
      → first_lba ≤ lba
      → IsOlder sequence (checkpoint_at d (other_lba sequence))
      → let m = new_with_device crc32 dev (write_checkpoint crc32 dev d sequence lba) in
        (m.current_sequence ≡ sequence) × (m.current_lba ≡ lba) × (m.mode ≡ micro_sd_active)
  unfolding write_checkpoint
  checkpoint_recovered d sequence lba due hs hl lo older = elim (Bool-cases (sequence % 32 == 0)) [
    | inl e ↦
        let d' = (dev.write_block d 1 (checkpoint_bytes sequence lba)).0 in
        let o = checkpoint_at d 2 in
        rw (eq→== (sequence % 16) 0 due, e)
          (restart d' sequence lba hl lo (
            rw
              (
                written_at d 1 sequence lba hs hl,
                kept_at d 1 2 (checkpoint_bytes sequence lba) (omega arith),
              )
              (choose-first (checkpoint_of sequence lba) o (rw e at older))))
    | inr e ↦
        let d' = (dev.write_block d 2 (checkpoint_bytes sequence lba)).0 in
        let o = checkpoint_at d 1 in
        rw (eq→== (sequence % 16) 0 due, e)
          (restart d' sequence lba hl lo (
            rw
              (
                written_at d 2 sequence lba hs hl,
                kept_at d 2 1 (checkpoint_bytes sequence lba) (omega arith),
              )
              (choose-second (checkpoint_of sequence lba) o (rw e at older))))
  ]
