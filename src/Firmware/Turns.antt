-- ===== src/Firmware/Turns.antt =====
-- The invariant through whole turns of the loop, so that no index leaves its array.
use gibberish.Prelude.{
  ℕ, ◌+◌, ◌-◌, ◌%◌, inl, inr, Bool, not, ◌&&◌, List, [], ◌∷◌, length, arith, Bool-cases,
  Option-cases, if◌then◌else◌, leb, ◌==◌, saturating_add, ◌^◌,
}
use gibberish.Protocol.Telemetry.{StorageModeStatus}
use gibberish.Storage.Manager.{BlockDevice, Manager, flush_from_sram}
use gibberish.Storage.Manager.Intact.{flush_from_sram-HasRing}
use gibberish.Radio.Dedup.Memory.{insert-IsFilter}
use gibberish.Radio.Backoff
use gibberish.Radio.Backoff.{
  BackoffController, schedule_tx, on_overhear, take_pending, is_telemetry,
}
use gibberish.Radio.BleGate
use gibberish.Radio.BleGate.{on_button_press}
use gibberish.Radio.BleGate.Gate.{Reach, next, button, pass, gate_step}
use gibberish.Radio.Coex.{
  IsArbiter, TdmArbiter, advance, RadioSlot, ieee802154_mesh, guard_band, ble_companion,
}
use gibberish.Usb.{receive}
use gibberish.Usb.Delivery.{receive-IsParser}
use gibberish.Firmware.Invariant.{IsNode, receive_loop-IsNode}
use gibberish.Firmware.Node.{Node}
use gibberish.Firmware.Receive.{receive_frames}
use gibberish.Firmware.Loop.{
  Inputs, on_press, service_button, send_next, service_backoff, emit_telemetry, service_mesh,
  service_slot, heartbeat, turn, turns, delta_ms,
}
use gibberish.Firmware.Shared.{
  HasQueue, schedule_tx-HasQueue, take_pending-HasQueue, schedule_telemetry-HasQueue, tick-HasQueue,
  receive-IsShared,
}

-- Another transmit queue, whatever else changes outside the invariant.
queued_IsNode :
    (n : Node) (b : BackoffController)
    → IsNode n
    → HasQueue b
    → IsNode (record n { usb = record n.usb { backoff = b } })
queued_IsNode n b v q = record {
  shared = record { queue = q; ring = v.shared.ring; filter = v.shared.filter };
  parser = record { buffer_len = v.parser.buffer_len; idx_in = v.parser.idx_in };
  peers = v.peers;
  gate = v.gate;
  arbiter = v.arbiter;
}

on_press-IsNode : (n : Node) → IsNode n → IsNode (on_press n)
unfolding on_press
on_press-IsNode n v = record {
  shared = record {
    queue = schedule_tx-HasQueue n.usb.backoff _ 15 v.shared.queue;
    ring = v.shared.ring;
    filter = insert-IsFilter n.usb.bloom_filter _ v.shared.filter;
  };
  parser = record { buffer_len = v.parser.buffer_len; idx_in = v.parser.idx_in };
  peers = v.peers;
  gate = pressed;
  arbiter = v.arbiter;
}
  where
    pressed : Reach (on_button_press n.ble_gate).0
    pressed = unfold gate_step in next v.gate button

service_button-IsNode : (b : Bool) (n : Node) → IsNode n → IsNode (service_button b n)
unfolding service_button
service_button-IsNode b n v =
    ticked (if b && not n.btn_was_pressed then on_press n else n)
      (elim (Bool-cases (b && not n.btn_was_pressed)) [
        | inl t ↦ rw t (on_press-IsNode n v)
        | inr t ↦ rw t v
      ])
  where
    ticked :
        (n' : Node)
        → IsNode n'
        → IsNode (record n' {
          btn_was_pressed = b;
          btn_flash_ticks = n'.btn_flash_ticks - 1;
          telem_flash_ticks = n'.telem_flash_ticks - 1;
          rx_flash_ticks = n'.rx_flash_ticks - 1;
          ble_gate = BleGate.tick n'.ble_gate delta_ms;
        })
    ticked n' w = record {
      shared = w.shared;
      parser = w.parser;
      peers = w.peers;
      gate = unfold gate_step in next w.gate (pass delta_ms);
      arbiter = w.arbiter;
    }

-- A transmission: the radio and the counters are outside the invariant.
sent_IsNode :
    (transmit_raw : List ℕ → Bool) (n : Node) → IsNode n → IsNode (send_next transmit_raw n)
unfolding send_next
sent_IsNode transmit_raw n v =
    let queued =
      queued_IsNode n (take_pending n.usb.backoff).0 v
        (take_pending-HasQueue n.usb.backoff v.shared.queue) in
    elim (Option-cases (take_pending n.usb.backoff).1) [
      | inl e ↦ rw (send_next, e) queued
      | inr (packet, e) ↦
          rw (send_next, e)
            (record {
              shared = queued.shared;
              parser = queued.parser;
              peers = v.peers;
              gate = v.gate;
              arbiter = v.arbiter;
            })
    ]

service_backoff-IsNode :
    (transmit_raw : List ℕ → Bool) (n : Node) → IsNode n → IsNode (service_backoff transmit_raw n)
unfolding service_backoff
service_backoff-IsNode transmit_raw n v =
    let queued =
      queued_IsNode n (Backoff.tick n.usb.backoff delta_ms).0 v
        (tick-HasQueue n.usb.backoff delta_ms v.shared.queue) in
    elim (Bool-cases (Backoff.tick n.usb.backoff delta_ms).1) [
      | inl t ↦ rw t (sent_IsNode transmit_raw _ queued)
      | inr t ↦ rw t queued
    ]

emit_telemetry-IsNode :
    (mode : StorageModeStatus) (i : Inputs) (n : Node) → IsNode n → IsNode (emit_telemetry mode i n)
unfolding emit_telemetry
emit_telemetry-IsNode mode i n v =
    elim (Bool-cases
      (leb n.next_telem_interval_ms (saturating_add (2 ^ 32 - 1) n.telem_elapsed_ms delta_ms))) [
        | inl t ↦ rw t (record {
          shared = record {
            queue = schedule_telemetry-HasQueue n.usb.backoff _ _ v.shared.queue;
            ring = v.shared.ring;
            filter = v.shared.filter;
          };
          parser = record { buffer_len = v.parser.buffer_len; idx_in = v.parser.idx_in };
          peers = v.peers;
          gate = v.gate;
          arbiter = v.arbiter;
        })
        | inr t ↦ rw t (record {
          shared = v.shared;
          parser = v.parser;
          peers = v.peers;
          gate = v.gate;
          arbiter = v.arbiter;
        })
      ]

service_slot-IsNode :
    (slot : RadioSlot) (mode : StorageModeStatus) (i : Inputs) (n : Node)
    → IsNode n
    → IsNode (service_slot slot mode i n).0
unfolding service_slot service_mesh receive_frames
service_slot-IsNode ieee802154_mesh mode i n v =
    receive_loop-IsNode (length i.frames) i.relay_random i.frames _
      (emit_telemetry-IsNode mode i _ (service_backoff-IsNode i.transmit_raw n v))
service_slot-IsNode guard_band mode i n v = v
service_slot-IsNode ble_companion mode i n v = v

heartbeat-IsNode : (mode : StorageModeStatus) (n : Node) → IsNode n → IsNode (heartbeat mode n)
unfolding heartbeat
heartbeat-IsNode mode n v = elim (Bool-cases (n.loop_tick % 50 == 0)) [
  | inl t ↦ rw t (record {
    shared = record { queue = v.shared.queue; ring = v.shared.ring; filter = v.shared.filter };
    parser = record { buffer_len = v.parser.buffer_len; idx_in = v.parser.idx_in };
    peers = v.peers;
    gate = v.gate;
    arbiter = v.arbiter;
  })
  | inr t ↦ rw t (record {
    shared = v.shared;
    parser = v.parser;
    peers = v.peers;
    gate = v.gate;
    arbiter = v.arbiter;
  })
]

-- The clock of the arbiter stays in its cycle.
advance-IsArbiter : (a : TdmArbiter) → IsArbiter a → IsArbiter (advance a delta_ms).0
unfolding advance
advance-IsArbiter a v = record { in_cycle = ground (arith, v.in_cycle) }

module _ {D : Type 0} (crc32 : List ℕ → ℕ) (dev : BlockDevice D) where
  -- The end of a turn: the bytes of the host, and the flush.
  drained_IsNode :
      (bytes : List ℕ) (storage : Manager D) (n : Node)
      → IsNode n
      → IsNode (record n {
        usb = record (receive bytes n.usb) {
          sram_ring = (flush_from_sram crc32 dev storage (receive bytes n.usb).sram_ring).1;
        };
      })
  drained_IsNode bytes storage n v =
      let usb = receive bytes n.usb in
      let shared = receive-IsShared bytes n.usb v.shared in
      let parser = receive-IsParser bytes n.usb v.parser in
      record {
        shared = record {
          queue = shared.queue;
          ring = flush_from_sram-HasRing crc32 dev storage usb.sram_ring shared.ring;
          filter = shared.filter;
        };
        parser = record { buffer_len = parser.buffer_len; idx_in = parser.idx_in };
        peers = v.peers;
        gate = v.gate;
        arbiter = v.arbiter;
      }

  turn-IsNode :
      (i : Inputs) (storage : Manager D) (n : Node)
      → IsNode n
      → IsNode (turn crc32 dev i (storage, n)).0.1
  unfolding turn
  turn-IsNode i storage n v =
      let n1 : Node = record n { loop_tick = (n.loop_tick + 1) % 2 ^ 32 } in
      let advanced = advance n1.tdm_arbiter delta_ms in
      let n2 : Node = record n1 { tdm_arbiter = advanced.0 } in
      let v2 : IsNode n2 = record {
        shared = v.shared;
        parser = v.parser;
        peers = v.peers;
        gate = v.gate;
        arbiter = advance-IsArbiter n.tdm_arbiter v.arbiter;
      } in
      let served =
        service_slot-IsNode advanced.1 storage.mode i (service_button i.btn_is_pressed n2)
          (service_button-IsNode i.btn_is_pressed n2 v2) in
      heartbeat-IsNode _ _ (drained_IsNode i.usb_bytes storage _ served)

  -- However long the firmware runs, whatever frames, bytes and button presses come and whatever the card
  -- and the radio answer: the transmit queue and the ring keep holding packets within their bounds, the
  -- filter's arrays their sizes, the parser its buffer, the peer table at most four peers, none twice;
  -- the pairing gate is in a state that its own events reach, and the arbiter in its cycle.
  pub turns-IsNode :
      (is : List Inputs) (storage : Manager D) (n : Node)
      → IsNode n
      → IsNode (turns crc32 dev is (storage, n)).0.1
  unfolding turns
  turns-IsNode [] storage n v = v
  turns-IsNode (i ∷ is) storage n v =
      let after = (turn crc32 dev i (storage, n)).0 in
      turns-IsNode is after.0 after.1 (turn-IsNode i storage n v)
