-- ===== src/Tests/Storage.antt =====
-- The ring, the record format and the manager on a card that works.
use gibberish.Prelude.{
  ℕ, ◌+◌, ◌%◌, ◌<◌, ◌≤◌, ◌^◌, ◌≡◌, ◌≢◌, refl, some, List, [], ◌∷◌, replicate, length-replicate,
  arith, ◌==◌, if◌then◌else◌, eq→==, ne→==_false, ap,
}
use gibberish.Prelude.Bytes.{byte_at, slice}
use gibberish.Protocol.Consts.{ciphertext_len}
use gibberish.Protocol.Telemetry.{micro_sd_active}
use gibberish.Storage.Error.{ok, to_option}
use gibberish.Storage.Ring.{new_ring}
use gibberish.Storage.Ring.Queue.{
  Call, do_push, do_pop, do_peek, do_clear, ring_step, queue_step, ring_run, queue_run,
}
use gibberish.Storage.Ring.Refine.{new_ring-Holds, step_refines, run_refines}
use gibberish.Storage.Record.{
  ChunkRecord, IsRecord, record_size, sector_size, serialize_record, deserialize_record,
  deserialize_checkpoint,
}
use gibberish.Storage.Record.RoundTrip.{deserialize_record-serialize_record}
use gibberish.Storage.Record.Torn.{torn, torn_write_rejected}
use gibberish.Storage.Manager.{
  BlockDevice, Manager, first_lba, new_with_device, write_checkpoint, flush_from_sram,
}
use gibberish.Storage.Manager.Log.{Write, logging, Stored}
use gibberish.Storage.Manager.Flush.{flush_from_sram-Stored}
use gibberish.Storage.Manager.Recovery.{Works, IsOlder, other_lba, checkpoint_recovered}
use gibberish.Tests.Data.{message, hello, replicate-IsByte}

-- A checksum to test with.
abbrev sum : List ℕ → ℕ
sum [] = 0
sum (b ∷ bytes) = (b + sum bytes) % 2 ^ 32

sum_fits : (bytes : List ℕ) → sum bytes < 2 ^ 32
sum_fits [] = omega arith
sum_fits (b ∷ bytes) = omega arith

abbrev calls : List Call
calls = do_push (message 1) ∷ do_push (message 2) ∷ do_pop ∷ do_peek ∷ do_clear ∷ do_pop ∷ []

run_refines_example : ring_run new_ring calls ≡ queue_run [] calls
run_refines_example = run_refines calls

abbrev chunk : ChunkRecord
chunk = record { sequence = 17; ciphertext = replicate ciphertext_len 9 }

chunk-IsRecord : IsRecord chunk
chunk-IsRecord = record {
  sequence_fits = omega arith;
  ciphertext_fits = length-replicate {A = ℕ} ciphertext_len 9;
}

deserialize_record-serialize_record_example :
    deserialize_record sum (serialize_record sum chunk (replicate record_size 0)) ≡ ok chunk
deserialize_record-serialize_record_example =
    deserialize_record-serialize_record sum sum_fits chunk (replicate record_size 0) chunk-IsRecord
      (length-replicate {A = ℕ} record_size 0)

blank_end : byte_at 115 (replicate record_size 0) ≢ 0x55
unfolding byte_at
blank_end h = absurd (omega arith)

torn_write_rejected_example :
    deserialize_record sum (torn 60 (replicate record_size 3) (replicate record_size 0)) ≢ ok chunk
torn_write_rejected_example =
    torn_write_rejected sum 60 (replicate record_size 3) (replicate record_size 0) chunk
      (omega arith) (length-replicate {A = ℕ} record_size 3)
      (length-replicate {A = ℕ} record_size 0) (replicate-IsByte record_size 3 (omega arith))
      (replicate-IsByte record_size 0 (omega arith)) blank_end

-- A card of blocks that can be read and written.
abbrev Card : Type 0
Card = ℕ → List ℕ

abbrev card : BlockDevice Card
card = record {
  read_block = λ d lba buf. (d, d lba, ok tt);
  write_block = λ d lba buf. ((λ i. if i == lba then buf else d i), ok tt);
}

card-Works : Works card
card-Works = record {
  block = λ d lba. d lba;
  reads = λ d lba buf. refl;
  writes = λ d lba buf. refl;
  written = λ d lba buf. ap (λ b. if b then buf else d lba) (eq→== lba lba refl);
  kept = λ d lba other buf ne. ap (λ b. if b then buf else d other) (ne→==_false other lba ne);
}

abbrev blank : Card
blank lba = replicate sector_size 0

blank-IsOlder :
    IsOlder 32 (to_option (deserialize_checkpoint sum (card-Works.block blank (other_lba 32))))
unfolding deserialize_checkpoint slice card-Works
blank-IsOlder = tt

checkpoint_recovered_example :
    let m = new_with_device sum card (write_checkpoint sum card blank 32 500) in
    (m.current_sequence ≡ 32) × (m.current_lba ≡ 500) × (m.mode ≡ micro_sd_active)
checkpoint_recovered_example =
    checkpoint_recovered sum sum_fits card card-Works blank 32 500 refl (omega arith) (omega arith)
      (omega arith) blank-IsOlder

abbrev ready : Manager (Card × List Write)
ready = record {
  device = some (blank, []);
  mode = micro_sd_active;
  current_sequence = 15;
  current_lba = first_lba;
  torn_writes_recovered = 0;
}

flush_from_sram-Stored_example :
    (k : ℕ) × (k ≤ 2)
    × Stored sum card 2 ready []
        (queue_step [] (do_push hello)).0
        k
        (flush_from_sram sum (logging card) ready (ring_step new_ring (do_push hello)).0)
flush_from_sram-Stored_example =
    flush_from_sram-Stored sum card ready blank [] (ring_step new_ring (do_push hello)).0
      (queue_step [] (do_push hello)).0 (step_refines new_ring [] (do_push hello) new_ring-Holds).0
      refl refl (omega arith) (omega arith) (omega arith)
