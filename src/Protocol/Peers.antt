-- ===== src/Protocol/Peers.antt =====
-- `PeerMetric` and `PeerTable` of frame.rs: the four peers heard last, least recent first. The
-- array is a list of four slots; each loop over its indices is a function.
pub mod Slots
pub mod Recency
pub mod Queries
use gibberish.Prelude.{
  ℕ, zero, suc, ◌+◌, ◌-◌, Bool, true, false, Option, none, some, List, [], ◌∷◌, get_or, set,
  is_some, replicate, ◌==◌, if◌then◌else◌, saturating_add, is_none,
}
use mathlib.Core.List.{reverse}
use gibberish.Prelude.Int.{ℤ}

pub record PeerMetric : Type 0 where
  pub node_id : ℕ
  pub last_rssi : ℤ
  pub last_lqi : ℕ
  pub packet_count : ℕ

unfoldable pub new_metric : ℕ → ℤ → ℕ → PeerMetric
new_metric node_id last_rssi last_lqi = record {
  node_id = node_id;
  last_rssi = last_rssi;
  last_lqi = last_lqi;
  packet_count = 1;
}

abbrev pub peer_table_capacity : ℕ
peer_table_capacity = 4

abbrev pub Slots : Type 0
Slots = List (Option PeerMetric)

pub record PeerTable : Type 0 where
  pub peers : Slots

unfoldable pub new_table : PeerTable
new_table = record { peers = replicate peer_table_capacity none }

count_some : ℕ → Slots → ℕ
count_some count [] = count
count_some count (p ∷ rest) = count_some (if is_some p then count + 1 else count) rest

unfoldable pub len : PeerTable → ℕ
unfolding count_some
len t = count_some 0 t.peers

unfoldable pub is_empty : PeerTable → Bool
unfolding len
is_empty t = len t == 0

find_peer : ℕ → Slots → Option PeerMetric
find_peer node_id [] = none
find_peer node_id (none ∷ rest) = find_peer node_id rest
find_peer node_id (some peer ∷ rest) =
    let found = find_peer node_id rest in if peer.node_id == node_id then some peer else found

unfoldable pub get_peer : PeerTable → ℕ → Option PeerMetric
unfolding find_peer
get_peer t node_id = if node_id == 0 then none else find_peer node_id t.peers

-- `saturating_add` on a `u32`
bump : PeerMetric → ℤ → ℕ → PeerMetric
bump peer rssi lqi = record peer {
  last_rssi = rssi;
  last_lqi = lqi;
  packet_count = saturating_add 4294967295 peer.packet_count 1;
}

-- `for j in (i + 1)..CAPACITY`: the last active slot, `rounds` of them from `j` on
last_active : ℕ → ℕ → ℕ → Slots → ℕ
last_active zero j last_idx peers = last_idx
last_active (suc rounds) j last_idx peers =
    last_active rounds (j + 1) (if is_some (get_or peers j none) then j else last_idx) peers

-- `for j in i..last_idx { peers[j] = peers[j + 1] }`
shift_down : ℕ → ℕ → Slots → Slots
shift_down zero j peers = peers
shift_down (suc rounds) j peers =
    shift_down rounds (j + 1) (set peers j (get_or peers (j + 1) none))

promote : ℕ → PeerMetric → Slots → Slots
unfolding last_active shift_down
promote i peer peers =
    let last_idx = last_active (peer_table_capacity - (i + 1)) (i + 1) i peers in
    set (shift_down (last_idx - i) i peers) last_idx (some peer)

-- The first loop of `record_peer`, from slot `i` on: the new slots if the peer is known.
update_known : ℕ → ℕ → ℕ → ℤ → ℕ → Slots → Option Slots
unfolding bump promote
update_known zero i node_id rssi lqi peers = none
update_known (suc rounds) i node_id rssi lqi peers =
    let rest = update_known rounds (i + 1) node_id rssi lqi peers in
    elim (get_or peers i none) [
      | none ↦ rest
      | some peer ↦
          if peer.node_id == node_id then some (promote i (bump peer rssi lqi) peers) else rest
    ]

-- The second loop: the first empty slot takes the new peer.
fill_empty : ℕ → ℕ → PeerMetric → Slots → Option Slots
fill_empty zero i metric peers = none
fill_empty (suc rounds) i metric peers =
    let rest = fill_empty rounds (i + 1) metric peers in
    if is_none (get_or peers i none) then some (set peers i (some metric)) else rest

-- The third part: evict slot 0, shift left, and insert at the end.
evict : PeerMetric → Slots → Slots
unfolding shift_down
evict metric peers =
    set (shift_down (peer_table_capacity - 1) 0 peers) (peer_table_capacity - 1) (some metric)

unfoldable pub record_peer : PeerTable → ℕ → ℤ → ℕ → PeerTable
unfolding update_known fill_empty evict new_metric
record_peer t node_id rssi lqi =
    if node_id == 0
    then t
    else (elim (update_known peer_table_capacity 0 node_id rssi lqi t.peers) [
      | some peers ↦ record { peers = peers }
      | none ↦ elim (fill_empty peer_table_capacity 0 (new_metric node_id rssi lqi) t.peers) [
        | some peers ↦ record { peers = peers }
        | none ↦ record { peers = evict (new_metric node_id rssi lqi) t.peers }
      ]
    ])

first_some : Slots → Option PeerMetric
first_some [] = none
first_some (none ∷ rest) = first_some rest
first_some (some peer ∷ rest) = some peer

unfoldable pub primary_peer : PeerTable → Option PeerMetric
unfolding first_some
primary_peer t = first_some (reverse t.peers)

second_some : ℕ → Slots → Option PeerMetric
second_some count [] = none
second_some count (none ∷ rest) = second_some count rest
second_some count (some peer ∷ rest) =
    let found = second_some (count + 1) rest in if count == 1 then some peer else found

unfoldable pub secondary_peer : PeerTable → Option PeerMetric
unfolding second_some
secondary_peer t = second_some 0 (reverse t.peers)
