-- ===== src/Host/Chunks/Sacks.antt =====
-- The SACKs that the engine sends, suppresses and answers.
use Prim.Native.Nat.{bit_and}
use gibberish.Prelude.{
  ℕ, ◌+◌, ◌%◌, Bool, true, not, ◌&&◌, Option, none, some, List, [], ◌∷◌, ◌++◌, get_elem?, replicate,
  all, map, is_some, is_none, leb, ◌==◌, if◌then◌else◌,
}
use gibberish.Prelude.HashMap.{HashMap, get}
use gibberish.Protocol.Consts.{ciphertext_len, flag_sack}
use gibberish.Protocol.Packet.{MeshPacket}
use gibberish.Protocol.Sack.{
  SackPayload, new_sack, mark_missing, for_each_missing, serialize, deserialize,
}
use gibberish.Host.Chunks.Engine.{
  ChunkEngine, InFlightMessage, Key, same_id, within, sack_initial_delay, sack_retry_interval,
  max_sack_retries,
}

-- The closure: the cached packet of the index, if there is one.
unfoldable pub push_cached : List MeshPacket → List MeshPacket → ℕ → List MeshPacket
push_cached cached retransmit missing_idx = elim (get_elem? cached missing_idx) [
  | none ↦ retransmit
  | some pkt ↦ retransmit ++ (pkt ∷ [])
]

unfoldable pub handle_sack : MeshPacket → ChunkEngine → List MeshPacket
handle_sack sack_packet e =
    if bit_and sack_packet.header.flags flag_sack == 0
    then []
    else elim (get same_id sack_packet.header.msg_id e.outbox_cache) [
      | none ↦ []
      | some (cached, cached_at) ↦
          for_each_missing (deserialize sack_packet.payload) (push_cached cached) []
    ]

-- The four `continue`s of the loop: whether a SACK is due.
unfoldable pub sack_due : ℕ → InFlightMessage → Bool
sack_due now m =
    let waited : Bool = elim m.last_sack_sent [
      | none ↦ true
      | some t ↦ not (within sack_retry_interval now t)
    ] in
    not (all is_some m.received_chunks)
    && (not (within sack_initial_delay now m.last_received)
        && (not (leb max_sack_retries m.sack_count) && waited))

-- `for (idx, chunk) in received_chunks.iter().enumerate()`
unfoldable pub mark_slots : ℕ → List (Option (List ℕ)) → SackPayload → SackPayload
mark_slots idx [] s = s
mark_slots idx (chunk ∷ chunks) s =
    mark_slots (idx + 1) chunks (if is_none chunk then mark_missing s idx else s)

unfoldable pub sack_packet : ℕ → ℕ → Key → InFlightMessage → MeshPacket
sack_packet local_node_id swarm_tag key m = record {
  header = record {
    network_tag = swarm_tag;
    msg_id = key.1;
    chunk_idx = 0;
    total_chunks = m.total_chunks % 256;
    ttl = 5;
    hop_count = 0;
    flags = flag_sack;
  };
  payload =
      serialize (mark_slots 0 m.received_chunks (new_sack local_node_id key.0 0))
        (replicate ciphertext_len 0);
}

-- One message: what becomes of it, and the SACK that is sent.
unfoldable pub check_message :
    ℕ → ℕ → ℕ → Key → InFlightMessage → InFlightMessage × Option MeshPacket
check_message now local_node_id swarm_tag key m =
    if sack_due now m
    then (
      record m { last_sack_sent = some now; sack_count = m.sack_count + 1 },
      some (sack_packet local_node_id swarm_tag key m),
    )
    else (m, none)

unfoldable pub add_packet : Option MeshPacket → List MeshPacket → List MeshPacket
add_packet none ps = ps
add_packet (some p) ps = p ∷ ps

unfoldable pub check_messages :
    ℕ → ℕ → ℕ → HashMap Key InFlightMessage → HashMap Key InFlightMessage × List MeshPacket
check_messages now local_node_id swarm_tag [] = ([], [])
check_messages now local_node_id swarm_tag ((key, m) ∷ rest) =
    let checked = check_message now local_node_id swarm_tag key m in
    let later = check_messages now local_node_id swarm_tag rest in
    ((key, checked.0) ∷ later.0, add_packet checked.1 later.1)

unfoldable pub check_pending_sacks : ℕ → ℕ → ℕ → ChunkEngine → ChunkEngine × List MeshPacket
check_pending_sacks now local_node_id swarm_tag e =
    let checked = check_messages now local_node_id swarm_tag e.in_flight in
    (record e { in_flight = checked.0 }, checked.1)

unfoldable pub suppress : ℕ → ℕ → Key × InFlightMessage → Key × InFlightMessage
suppress now msg_id (key, m) =
    (key, if key.1 == msg_id then record m { last_sack_sent = some now } else m)

unfoldable pub suppress_sack : ℕ → ℕ → ChunkEngine → ChunkEngine
suppress_sack now msg_id e = record e { in_flight = map (suppress now msg_id) e.in_flight }
