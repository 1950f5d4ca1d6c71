-- ===== src/Protocol/Peers/Slots.antt =====
-- The peer table against its specification: a list of at most four peers, the most recent last.
use gibberish.Prelude.{
  ℕ, ◌-◌, ◌≤◌, ◌≡◌, Option, none, some, List, [], ◌∷◌, ◌++◌, map, length, replicate, drop, ◌==◌,
  if◌then◌else◌, arith, saturating_add,
}
use gibberish.Prelude.Int.{ℤ}
use gibberish.Protocol.Peers.{PeerMetric, new_metric, PeerTable, record_peer, peer_table_capacity}

-- The table that holds the peers of a list, packed at the front.
abbrev pub table_of : List PeerMetric → PeerTable
table_of l = record { peers = map some l ++ replicate (peer_table_capacity - length l) none }

unfoldable pub find : ℕ → List PeerMetric → Option PeerMetric
find node_id [] = none
find node_id (p ∷ l) = if p.node_id == node_id then some p else find node_id l

unfoldable pub without : ℕ → List PeerMetric → List PeerMetric
without node_id [] = []
without node_id (p ∷ l) = if p.node_id == node_id then l else p ∷ without node_id l

-- The metric of a peer after it was heard once more, or for the first time.
unfoldable pub heard : ℕ → ℤ → ℕ → Option PeerMetric → PeerMetric
unfolding new_metric
heard node_id rssi lqi none = new_metric node_id rssi lqi
heard node_id rssi lqi (some p) = record p {
  last_rssi = rssi;
  last_lqi = lqi;
  packet_count = saturating_add 4294967295 p.packet_count 1;
}

-- A known peer moves to the end; a new one is appended, and where four are known already the
-- least recent one goes.
unfoldable pub touch : ℕ → ℤ → ℕ → List PeerMetric → List PeerMetric
unfolding find without heard
touch node_id rssi lqi l = elim (find node_id l) [
  | some p ↦ without node_id l ++ (heard node_id rssi lqi (some p) ∷ [])
  | none ↦
      (if length l == peer_table_capacity then drop 1 l else l)
      ++ (heard node_id rssi lqi none ∷ [])
]

-- `record_peer` on a packed table of at most four peers does what `touch` does to their list; the
-- reserved node id 0 changes nothing.
pub record_peer-table_of :
    (l : List PeerMetric) (node_id : ℕ) (rssi : ℤ) (lqi : ℕ)
    → length l ≤ peer_table_capacity
    → record_peer (table_of l) node_id rssi lqi
      ≡ table_of (if node_id == 0 then l else touch node_id rssi lqi l)
unfolding record_peer touch
record_peer-table_of [] node_id rssi lqi h = ground arith
record_peer-table_of (a ∷ []) node_id rssi lqi h = ground arith
record_peer-table_of (a ∷ b ∷ []) node_id rssi lqi h = ground arith
record_peer-table_of (a ∷ b ∷ c ∷ []) node_id rssi lqi h = ground arith
record_peer-table_of (a ∷ b ∷ c ∷ d ∷ []) node_id rssi lqi h = ground arith
record_peer-table_of (a ∷ b ∷ c ∷ d ∷ e ∷ l) node_id rssi lqi h = absurd (omega arith)
