-- ===== src/Firmware/Invariant.antt =====
-- The invariant of the whole firmware, and that frames of the radio keep it.
use gibberish.Prelude.{
  ℕ, zero, suc, inl, inr, Bool, true, false, not, ◌&&◌, List, length, Bool-cases, Option-cases,
  if◌then◌else◌, leb, ◌==◌,
}
use gibberish.Prelude.Int.{ℤ}
use gibberish.Protocol.Consts.{is_valid_network_tag, min_relay_lqi}
use gibberish.Protocol.Packet.{decrement_ttl}
use gibberish.Protocol.Peers.{PeerMetric, PeerTable, record_peer}
use gibberish.Protocol.Peers.Recency.{IsTable, record_peer-IsTable}
use gibberish.Radio.Dedup
use gibberish.Radio.Dedup.Memory.{insert-IsFilter}
use gibberish.Radio.Backoff.{BackoffController, is_telemetry}
use gibberish.Radio.BleGate.Gate.{Reach}
use gibberish.Radio.Coex.{IsArbiter}
use gibberish.Radio.Phy.{ReceivedMeshPacket, poll_rx}
use gibberish.Usb.Delivery.{IsParser}
use gibberish.Firmware.Node.{Node}
use gibberish.Firmware.Receive.{
  effective_src_node, relay, note_frame, count_frame, consume_telemetry, accept_packet,
  drop_duplicate, on_frame, receive_loop,
}
use gibberish.Firmware.Shared.{
  HasQueue, IsShared, schedule_tx-HasQueue, on_overhear-HasQueue, push-HasRing,
}

unfoldable pub HasPeers : PeerTable → Type 0
HasPeers t = (l : List PeerMetric) × IsTable t l

-- The queue, the ring and the peer table hold what their specifications say; the filter's arrays have
-- their sizes and the next place is inside; the parser is inside its buffer; the gate is in a state that it can reach; and the arbiter
-- is in its cycle.
pub record IsNode (n : Node) : Type 0 where
  pub shared : IsShared n.usb
  pub parser : IsParser n.usb
  pub peers : HasPeers n.peer_table
  pub gate : Reach n.ble_gate
  pub arbiter : IsArbiter n.tdm_arbiter

record_peer-HasPeers :
    (t : PeerTable) (node_id : ℕ) (rssi : ℤ) (lqi : ℕ)
    → HasPeers t
    → HasPeers (record_peer t node_id rssi lqi)
unfolding HasPeers
record_peer-HasPeers t node_id rssi lqi (l, v) = (_, record_peer-IsTable t l node_id rssi lqi v)

relay-HasQueue :
    (random : ℕ) (rx : ReceivedMeshPacket) (b : BackoffController)
    → HasQueue b
    → HasQueue (relay random rx b)
unfolding relay
relay-HasQueue random rx b v =
    elim (Bool-cases (leb min_relay_lqi rx.lqi && (decrement_ttl rx.packet).1)) [
      | inl t ↦ rw t (schedule_tx-HasQueue b (decrement_ttl rx.packet).0 _ v)
      | inr t ↦ rw t v
    ]

note_frame-IsNode : (rx : ReceivedMeshPacket) (n : Node) → IsNode n → IsNode (note_frame rx n)
unfolding note_frame
note_frame-IsNode rx n v = record {
  shared = record { queue = v.shared.queue; ring = v.shared.ring; filter = v.shared.filter };
  parser = record { buffer_len = v.parser.buffer_len; idx_in = v.parser.idx_in };
  peers =
      known (not (effective_src_node rx == 0) && not (effective_src_node rx == n.local_node_id));
  gate = v.gate;
  arbiter = v.arbiter;
}
  where
    known :
        (b : Bool)
        → HasPeers (
            if b
            then record_peer n.peer_table (effective_src_node rx) rx.rssi rx.lqi
            else n.peer_table)
    known true = record_peer-HasPeers n.peer_table (effective_src_node rx) rx.rssi rx.lqi v.peers
    known false = v.peers

accept_packet-IsNode :
    (random : ℕ) (rx : ReceivedMeshPacket) (n : Node)
    → IsNode n
    → IsNode (accept_packet random rx n)
unfolding accept_packet count_frame
accept_packet-IsNode random rx n v =
    let heard =
      on_overhear-HasQueue n.usb.backoff rx.packet.header.msg_id rx.packet.header.chunk_idx
        v.shared.queue in
    record {
      shared = record {
        queue = relay-HasQueue random rx _ heard;
        ring = push-HasRing n.usb.sram_ring rx.packet v.shared.ring;
        filter =
            insert-IsFilter n.usb.bloom_filter (rx.packet.header.msg_id, rx.packet.header.chunk_idx)
              v.shared.filter;
      };
      parser = record { buffer_len = v.parser.buffer_len; idx_in = v.parser.idx_in };
      peers = v.peers;
      gate = v.gate;
      arbiter = v.arbiter;
    }

drop_duplicate-IsNode :
    (rx : ReceivedMeshPacket) (n : Node) → IsNode n → IsNode (drop_duplicate rx n)
unfolding drop_duplicate
drop_duplicate-IsNode rx n v = record {
  shared = record {
    queue =
        on_overhear-HasQueue n.usb.backoff rx.packet.header.msg_id rx.packet.header.chunk_idx
          v.shared.queue;
    ring = v.shared.ring;
    filter = v.shared.filter;
  };
  parser = record { buffer_len = v.parser.buffer_len; idx_in = v.parser.idx_in };
  peers = v.peers;
  gate = v.gate;
  arbiter = v.arbiter;
}

-- The parts that the invariant reads are those of another node.
counted-IsNode : (rx : ReceivedMeshPacket) (n : Node) → IsNode n → IsNode (consume_telemetry rx n)
unfolding consume_telemetry count_frame
counted-IsNode rx n v = record {
  shared = v.shared;
  parser = v.parser;
  peers = v.peers;
  gate = v.gate;
  arbiter = v.arbiter;
}

on_frame-IsNode :
    (random : ℕ) (rx : ReceivedMeshPacket) (n : Node) → IsNode n → IsNode (on_frame random rx n).0
unfolding on_frame
on_frame-IsNode random rx n v =
    let n' = note_frame rx n in
    let v' = note_frame-IsNode rx n v in
    let key : ℕ × ℕ = (rx.packet.header.msg_id, rx.packet.header.chunk_idx) in
    elim (Bool-cases (is_valid_network_tag rx.packet.header.network_tag)) [
      | inr t ↦ rw t (record {
        shared = v.shared;
        parser = v.parser;
        peers = v.peers;
        gate = v.gate;
        arbiter = v.arbiter;
      })
      | inl t ↦ rw t (elim (Bool-cases (is_telemetry rx.packet)) [
        | inl m ↦ rw m (counted-IsNode rx n' v')
        | inr m ↦ rw m (elim (Bool-cases (Dedup.contains n'.usb.bloom_filter key)) [
          | inl k ↦ rw k (drop_duplicate-IsNode rx n' v')
          | inr k ↦ rw k (accept_packet-IsNode random rx n' v')
        ])
      ])
    ]

pub receive_loop-IsNode :
    (fuel : ℕ) (random : ℕ → ℕ) (frames : List (List ℕ)) (n : Node)
    → IsNode n
    → IsNode (receive_loop fuel random frames n).0
unfolding receive_loop
receive_loop-IsNode zero random frames n v = v
receive_loop-IsNode (suc fuel) random frames n v = elim (Option-cases (poll_rx n.radio frames).0) [
  | inl e ↦ rw (receive_loop, e) v
  | inr (rx, e) ↦
      let left = (poll_rx n.radio frames).1 in
      let handled = on_frame (random (length left)) rx n in
      rw (receive_loop, e)
        (receive_loop-IsNode fuel random left handled.0
          (on_frame-IsNode (random (length left)) rx n v))
]
