-- ===== src/Host/Chunks/Engine.antt =====
-- The state of the engine, its limits, and what a timer purges.
use gibberish.Prelude.{
  ℕ, ◌-◌, ◌*◌, ◌≡◌, Bool, ◌&&◌, Option, none, List, [], ltb, ◌==◌, replicate, arith,
}
use gibberish.Prelude.HashMap.{HashMap, retain}
use gibberish.Protocol.Packet.{MeshPacket}

abbrev pub max_total_chunks : ℕ
max_total_chunks = 800

abbrev pub max_global_in_flight : ℕ
max_global_in_flight = 16

abbrev pub max_per_sender_in_flight : ℕ
max_per_sender_in_flight = 2

abbrev pub reassembly_timeout : ℕ
reassembly_timeout = 10 * 1000

abbrev pub sack_initial_delay : ℕ
sack_initial_delay = 300

abbrev pub sack_retry_interval : ℕ
sack_retry_interval = 500

abbrev pub max_sack_retries : ℕ
max_sack_retries = 3

abbrev pub cache_timeout : ℕ
cache_timeout = 60 * 1000

pub record InFlightMessage : Type 0 where
  pub total_chunks : ℕ
  pub received_chunks : List (Option (List ℕ))
  pub first_received : ℕ
  pub last_received : ℕ
  pub last_sack_sent : Option ℕ
  pub sack_count : ℕ

-- The source's node and the message id.
abbrev pub Key : Type 0
Key = ℕ × ℕ

unfoldable pub same_key : Key → Key → Bool
same_key (a, b) (c, d) = a == c && b == d

unfoldable pub same_id : ℕ → ℕ → Bool
same_id a b = a == b

pub record ChunkEngine : Type 0 where
  pub in_flight : HashMap Key InFlightMessage
  pub completed_cache : HashMap Key ℕ
  pub outbox_cache : HashMap ℕ (List MeshPacket × ℕ)

unfoldable pub new_engine : ChunkEngine
new_engine = record { in_flight = []; completed_cache = []; outbox_cache = [] }

-- `now.duration_since(earlier)`, which stops at zero, against a limit
unfoldable pub within : ℕ → ℕ → ℕ → Bool
within limit now earlier = ltb (now - earlier) limit

unfoldable pub purge_expired : ℕ → ChunkEngine → ChunkEngine
purge_expired now e = record {
  in_flight = retain (λ m. within reassembly_timeout now m.1.last_received) e.in_flight;
  completed_cache = retain (λ m. within cache_timeout now m.1) e.completed_cache;
  outbox_cache = retain (λ m. within cache_timeout now m.1.1) e.outbox_cache;
}

-- `or_insert_with`
unfoldable pub new_in_flight : ℕ → ℕ → InFlightMessage
new_in_flight now total = record {
  total_chunks = total;
  received_chunks = replicate total none;
  first_received = now;
  last_received = now;
  last_sack_sent = none;
  sack_count = 0;
}

pub same_key_refl : (k : Key) → same_key k k ≡ Bool.true
unfolding same_key
same_key_refl k = ground arith
