-- ===== src/Host/Chunks/Receive.antt =====
-- `ingest_packet`. Indexing past the end of `received_chunks` panics.
use gibberish.Prelude.{
  ℕ, Bool, ◌||◌, Option, none, some, List, [], ◌∷◌, ◌++◌, length, get_elem?, set, all, is_some, ltb,
  leb, ◌==◌, if◌then◌else◌,
}
use gibberish.Prelude.HashMap.{HashMap, retain, get, contains_key, put, remove}
use gibberish.Protocol.Packet.{MeshPacket}
use gibberish.Crypto.{
  Primitives, Result, ok, err, payload_too_large, derive_sender_subkey, decrypt_chunk,
}
use gibberish.Host.Chunks.Engine.{
  ChunkEngine, InFlightMessage, Key, same_key, max_total_chunks, max_global_in_flight,
  max_per_sender_in_flight, purge_expired, new_in_flight,
}

pub data Outcome : Type 0 where
  panicked : Outcome
  returned : Result (Option (List ℕ)) → Outcome

-- `self.in_flight.keys().filter(|(src, _)| *src == src_node_id)`, with the values
unfoldable pub from_sender : ℕ → HashMap Key InFlightMessage → HashMap Key InFlightMessage
from_sender src_node_id m = retain (λ e. e.0.0 == src_node_id) m

-- `min_by_key(first_received)`: the first of the smallest
unfoldable pub oldest : Key × InFlightMessage → HashMap Key InFlightMessage → Key × InFlightMessage
oldest best [] = best
oldest best (e ∷ m) = oldest (if ltb e.1.first_received best.1.first_received then e else best) m

-- The oldest of the candidates is removed, if there is one.
unfoldable pub evict_oldest :
    HashMap Key InFlightMessage → HashMap Key InFlightMessage → HashMap Key InFlightMessage
evict_oldest [] m = m
evict_oldest (e ∷ candidates) m = remove same_key (oldest e candidates).0 m

unfoldable pub make_room : ℕ → HashMap Key InFlightMessage → HashMap Key InFlightMessage
make_room src_node_id m =
    let own = from_sender src_node_id m in
    let m' = if leb max_per_sender_in_flight (length own) then evict_oldest own m else m in
    if leb max_global_in_flight (length m') then evict_oldest m' m' else m'

-- `while assembled_bytes.last() == Some(&0) { assembled_bytes.pop() }`
unfoldable pub trim_nulls : List ℕ → List ℕ
trim_nulls [] = []
trim_nulls (b ∷ bytes) = elim (trim_nulls bytes) [
  | [] ↦ if b == 0 then [] else b ∷ []
  | x ∷ xs ↦ b ∷ (x ∷ xs)
]

-- `for chunk in received_chunks.iter().flatten()`
unfoldable pub assembled : List (Option (List ℕ)) → List ℕ
assembled [] = []
assembled (none ∷ chunks) = assembled chunks
assembled (some chunk ∷ chunks) = chunk ++ assembled chunks

-- The chunk is stored if its place is empty.
unfoldable pub fill : ℕ → ℕ → List ℕ → Option (List ℕ) → InFlightMessage → InFlightMessage
fill now chunk_idx decrypted (some chunk) m = m
fill now chunk_idx decrypted none m = record m {
  received_chunks = set m.received_chunks chunk_idx (some decrypted);
  last_received = now;
}

-- The entry of a key, or a new one.
unfoldable pub entry : ℕ → Key → ℕ → ChunkEngine → InFlightMessage
entry now key total e = elim (get same_key key e.in_flight) [
  | some m ↦ m
  | none ↦ new_in_flight now total
]

-- Room is made only for a message that is new.
unfoldable pub admitted : ℕ → Key → ChunkEngine → ChunkEngine
admitted src_node_id key e =
    if contains_key same_key key e.in_flight
    then e
    else record e { in_flight = make_room src_node_id e.in_flight }

module _ (c : Primitives) (is_utf8 : List ℕ → Bool) where
  unfoldable pub finish : ℕ → Key → InFlightMessage → ChunkEngine → ChunkEngine × Outcome
  finish now key m e =
      let held = put same_key key m e.in_flight in
      let text = trim_nulls (assembled m.received_chunks) in
      if all is_some m.received_chunks
      then (
        record e {
          in_flight = remove same_key key held;
          completed_cache = put same_key key now e.completed_cache;
        },
        returned (ok (if is_utf8 text then some text else none)),
      )
      else (record e { in_flight = held }, returned (ok none))

  -- From `let now = Instant::now()` on.
  unfoldable pub store : ℕ → Key → ℕ → ℕ → List ℕ → ChunkEngine → ChunkEngine × Outcome
  unfolding finish
  store now key total chunk_idx decrypted e =
      let m = entry now key total e in
      elim (get_elem? m.received_chunks chunk_idx) [
        | none ↦ (record e { in_flight = put same_key key m e.in_flight }, panicked)
        | some slot ↦ finish now key (fill now chunk_idx decrypted slot m) e
      ]

  -- Behind the checks: room is made, then the packet is authenticated.
  unfoldable pub admit : ℕ → ℕ → MeshPacket → List ℕ → ChunkEngine → ChunkEngine × Outcome
  admit now src_node_id packet swarm_master_key e =
      let msg_id = packet.header.msg_id in
      let key : Key = (src_node_id, msg_id) in
      let e' = admitted src_node_id key e in
      let peer_key = derive_sender_subkey c swarm_master_key src_node_id in
      elim (decrypt_chunk c peer_key msg_id packet.header.chunk_idx msg_id packet.payload) [
        | err x ↦ (e', returned (err x))
        | ok decrypted ↦
            store now key packet.header.total_chunks packet.header.chunk_idx decrypted e'
      ]

  unfoldable pub ingest_packet : ℕ → ℕ → MeshPacket → List ℕ → ChunkEngine → ChunkEngine × Outcome
  ingest_packet now src_node_id packet swarm_master_key engine =
      let e = purge_expired now engine in
      let total = packet.header.total_chunks in
      if total == 0 || ltb max_total_chunks total
      then (e, returned (err payload_too_large))
      else (if leb total packet.header.chunk_idx
          then (e, returned (err payload_too_large))
          else (if contains_key same_key (src_node_id, packet.header.msg_id) e.completed_cache
              then (e, returned (ok none))
              else admit now src_node_id packet swarm_master_key e))
