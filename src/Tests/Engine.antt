-- ===== src/Tests/Engine.antt =====
-- The engine with a message of three chunks in flight.
use gibberish.Prelude.{
  ℕ, ◌+◌, ◌≤◌, ◌≡◌, refl, true, false, none, some, List, [], ◌∷◌, length, All, arith, replicate,
}
use gibberish.Prelude.Bytes.{bytes_eq, slice, write_at}
use gibberish.Prelude.HashMap.{get, contains_key, retain}
use gibberish.Protocol.Consts.{default_network_tag, flag_clipboard, ciphertext_len}
use gibberish.Protocol.Packet.{MeshPacket}
use gibberish.Crypto.{err, authentication_failed, derive_sender_subkey, decrypt_chunk}
use gibberish.Host.Chunks.Engine.{
  new_engine, ChunkEngine, InFlightMessage, purge_expired, within, same_key, same_id,
}
use gibberish.Host.Chunks.Receive.{ingest_packet, admit, store, admitted, entry, from_sender}
use gibberish.Host.Chunks.Sacks.{sack_packet, handle_sack}
use gibberish.Host.Chunks.Counting.{Within}
use gibberish.Host.Chunks.Bounded.{IsBounded, ingest_packet-IsBounded}
use gibberish.Host.Chunks.Refused.{IsRefusal, ingest_packet-forged}
use gibberish.Host.Chunks.Panics.{is_panicked, outcomes, outcomes-returned}
use gibberish.Host.Chunks.Marked.{lost}
use gibberish.Host.Chunks.Retransmit.{handle_sack-sack_packet}
use gibberish.Host.Chunks.RateLimit.{Spaced, sent_times, sent_times-Spaced}
use gibberish.Tests.Data.{message}
use gibberish.Tests.Chunks.{toy, any_text, key}

abbrev some_chunk : List ℕ
some_chunk = replicate 80 65

-- The middle chunk has arrived.
abbrev partial : InFlightMessage
partial = record {
  total_chunks = 3;
  received_chunks = none ∷ some some_chunk ∷ none ∷ [];
  first_received = 1_000;
  last_received = 1_000;
  last_sack_sent = none;
  sack_count = 0;
}

abbrev cached : List MeshPacket
cached = message 1 ∷ message 2 ∷ message 3 ∷ []

abbrev engine : ChunkEngine
engine = record {
  in_flight = ((7, 42), partial) ∷ [];
  completed_cache = [];
  outbox_cache = (42, (cached, 900)) ∷ [];
}

engine-IsBounded : IsBounded engine
unfolding IsBounded Within from_sender retain
engine-IsBounded = (omega arith, λ src. ground arith)

-- A packet of the message, with the index 1 of 2 unless it says otherwise.
abbrev packet : ℕ → ℕ → ℕ → MeshPacket
packet chunk_idx total_chunks filler = record {
  header = record {
    network_tag = default_network_tag;
    msg_id = 42;
    chunk_idx = chunk_idx;
    total_chunks = total_chunks;
    ttl = 3;
    hop_count = 0;
    flags = flag_clipboard;
  };
  payload = replicate ciphertext_len filler;
}

ingest_packet-IsBounded_example :
    IsBounded (ingest_packet toy any_text 1_100 7 (packet 1 2 9) key engine).0
ingest_packet-IsBounded_example =
    ingest_packet-IsBounded toy any_text 1_100 7 (packet 1 2 9) key engine engine-IsBounded

forged :
    decrypt_chunk toy (derive_sender_subkey toy key 7) 42 1 42 (packet 1 2 9).payload
    ≡ err authentication_failed
unfolding decrypt_chunk slice bytes_eq
forged = refl

ingest_packet-forged_example :
    IsRefusal 1_100 7
      (packet 1 2 9)
      engine
      authentication_failed
      (ingest_packet toy any_text 1_100 7 (packet 1 2 9) key engine)
ingest_packet-forged_example =
    ingest_packet-forged toy any_text 1_100 7 (packet 1 2 9) key engine authentication_failed forged

-- A chunk that decrypts, of a message that claims five chunks where three are in flight: the engine
-- panics.
raised_total_panics :
    is_panicked (ingest_packet toy any_text 1_100 7 (packet 4 5 7) key engine).1 ≡ true
unfolding ingest_packet admit store admitted entry is_panicked contains_key get purge_expired retain
    within same_key decrypt_chunk slice bytes_eq write_at
raised_total_panics = refl

-- A genuine packet, a forged one and one with a wrong index.
abbrev arrivals : List (ℕ × (ℕ × MeshPacket))
arrivals = (1_100, (7, packet 1 3 7)) ∷ (1_200, (7, packet 0 3 9)) ∷ (1_300, (7, packet 5 3 7)) ∷ []

outcomes-returned_example :
    All (λ o. is_panicked o ≡ false) (outcomes toy any_text key arrivals new_engine)
outcomes-returned_example =
    outcomes-returned toy any_text (λ k. 3) key arrivals (refl, (refl, (refl, tt)))

in_outbox : get same_id 42 engine.outbox_cache ≡ some (cached, 900)
unfolding get same_id
in_outbox = refl

handle_sack-sack_packet_example :
    handle_sack (sack_packet 9 default_network_tag (7, 42) partial) engine
    ≡ lost partial.received_chunks cached
handle_sack-sack_packet_example =
    handle_sack-sack_packet 9 default_network_tag 900 (7, 42) partial engine cached (omega arith)
      (omega arith) (omega arith) in_outbox

abbrev times : List ℕ
times = 1_100 ∷ 1_400 ∷ 1_700 ∷ 2_000 ∷ 2_300 ∷ 2_600 ∷ 3_000 ∷ []

sent_times-Spaced_example :
    Spaced none (sent_times 9 default_network_tag (7, 42) times partial)
    × All (λ t. 1_000 + 300 ≤ t) (sent_times 9 default_network_tag (7, 42) times partial)
    × (length (sent_times 9 default_network_tag (7, 42) times partial) ≤ 3)
sent_times-Spaced_example = sent_times-Spaced 9 default_network_tag (7, 42) times partial
