-- ===== src/Firmware/Loop.antt =====
-- One turn of the main loop.
use gibberish.Prelude.{
  ℕ, ◌+◌, ◌-◌, ◌/◌, ◌%◌, ◌^◌, Bool, not, ◌&&◌, none, some, List, [], ◌∷◌, leb, ◌==◌, if◌then◌else◌,
  saturating_add, replicate, ◌++◌,
}
use gibberish.Protocol.Consts.{default_network_tag, flag_ack_req, flag_telemetry, ciphertext_len}
use gibberish.Protocol.Packet.{MeshPacket}
use gibberish.Protocol.Telemetry
use gibberish.Protocol.Telemetry.{
  StorageModeStatus, DebugTelemetryPayload, new_debug, debug, radio_tx_ok, ble_auth_granted,
}
use gibberish.Storage.Ring
use gibberish.Storage.Manager.{BlockDevice, Manager, flush_from_sram}
use gibberish.Radio.Dedup
use gibberish.Radio.Backoff
use gibberish.Radio.Backoff.{schedule_tx, schedule_telemetry, take_pending}
use gibberish.Radio.BleGate
use gibberish.Radio.BleGate.{on_button_press}
use gibberish.Radio.Coex.{RadioSlot, ieee802154_mesh, guard_band, ble_companion, advance}
use gibberish.Radio.Phy.{transmit, rssi_to_lqi}
use gibberish.Usb.{receive}
use gibberish.Firmware.Node.{Node}
use gibberish.Firmware.Receive.{receive_frames}

abbrev pub delta_ms : ℕ
delta_ms = 5

-- What the hardware answers in one turn.
pub record Inputs : Type 0 where
  pub btn_is_pressed : Bool
  pub transmit_raw : List ℕ → Bool
  pub frames : List (List ℕ)
  pub usb_bytes : List ℕ
  pub relay_random : ℕ → ℕ
  pub interval_random : ℕ
  pub jitter_random : ℕ
  pub heap_free : ℕ

-- `calc_next_telem_interval`
unfoldable pub calc_next_telem_interval : ℕ → ℕ
calc_next_telem_interval random = 4_500 + random % 1_001

unfoldable pub beacon_packet : ℕ → MeshPacket
beacon_packet beacon_msg_id = record {
  header = record {
    network_tag = default_network_tag;
    msg_id = beacon_msg_id;
    chunk_idx = 0;
    total_chunks = 1;
    ttl = 3;
    hop_count = 0;
    flags = flag_ack_req;
  };
  payload = replicate ciphertext_len 0xAA;
}

-- The button is pressed: a beacon is scheduled, and a pairing that waits for it is authorized.
unfoldable pub on_press : Node → Node
on_press n =
    let beacon_seq = (n.beacon_seq + 1) % 2 ^ 32 in
    let beacon_msg_id = (n.local_node_id + beacon_seq) % 2 ^ 32 in
    let (gate, granted) = on_button_press n.ble_gate in
    record n {
      btn_flash_ticks = 40;
      beacon_seq = beacon_seq;
      usb = record n.usb {
        bloom_filter = Dedup.insert n.usb.bloom_filter (beacon_msg_id, 0);
        backoff = schedule_tx n.usb.backoff (beacon_packet beacon_msg_id) 15;
      };
      ble_gate = gate;
      telemetry =
          if granted then record n.telemetry { last_event = ble_auth_granted } else n.telemetry;
    }

-- The button, the ticks and the pairing gate. Subtraction stops at 0, as the guards have it.
unfoldable pub service_button : Bool → Node → Node
service_button btn_is_pressed n =
    let n' = if btn_is_pressed && not n.btn_was_pressed then on_press n else n in
    record n' {
      btn_was_pressed = btn_is_pressed;
      btn_flash_ticks = n'.btn_flash_ticks - 1;
      telem_flash_ticks = n'.telem_flash_ticks - 1;
      rx_flash_ticks = n'.rx_flash_ticks - 1;
      ble_gate = BleGate.tick n'.ble_gate delta_ms;
    }

-- The packet that waits at the head of the queue is transmitted.
unfoldable pub send_next : (List ℕ → Bool) → Node → Node
send_next transmit_raw n =
    let (backoff, next) = take_pending n.usb.backoff in
    let n' : Node = record n { usb = record n.usb { backoff = backoff } } in
    elim next [
      | none ↦ n'
      | some packet ↦
          let (radio, tx_ok) = transmit transmit_raw n.radio packet in
          record n' {
            radio = radio;
            telemetry =
                if tx_ok
                then record n'.telemetry {
                  tx_packet_count = saturating_add (2 ^ 32 - 1) n'.telemetry.tx_packet_count 1;
                  last_event = radio_tx_ok;
                }
                else n'.telemetry;
          }
    ]

-- 1. The backoff controller.
unfoldable pub service_backoff : (List ℕ → Bool) → Node → Node
service_backoff transmit_raw n =
    let (backoff, due) = Backoff.tick n.usb.backoff delta_ms in
    let n' : Node = record n { usb = record n.usb { backoff = backoff } } in
    if due then send_next transmit_raw n' else n'

unfoldable pub telemetry_payload : StorageModeStatus → ℕ → Node → DebugTelemetryPayload
telemetry_payload mode heap_free n = record new_debug {
  uptime_secs = n.telemetry.uptime_secs;
  rx_count = n.telemetry.rx_packet_count;
  tx_count = n.telemetry.tx_packet_count;
  drop_count = Ring.dropped_count n.usb.sram_ring;
  sram_used = Ring.len n.usb.sram_ring % 2 ^ 16;
  storage_mode = mode;
  last_event = n.telemetry.last_event;
  build_tier = debug;
  free_heap_kb = heap_free / 1024 % 256;
  last_rssi = n.telemetry.last_rssi;
  last_lqi = rssi_to_lqi n.telemetry.last_rssi;
  node_mac_tail = n.radio.local_mac;
}

unfoldable pub telemetry_packet : ℕ → DebugTelemetryPayload → MeshPacket
telemetry_packet telem_msg_id dbg = record {
  header = record {
    network_tag = default_network_tag;
    msg_id = telem_msg_id;
    chunk_idx = 0;
    total_chunks = 1;
    ttl = 1;
    hop_count = 0;
    flags = flag_telemetry;
  };
  payload = Telemetry.serialize dbg (replicate ciphertext_len 0);
}

-- 2. The telemetry emitter.
unfoldable pub emit_telemetry : StorageModeStatus → Inputs → Node → Node
emit_telemetry mode i n =
    let elapsed = saturating_add (2 ^ 32 - 1) n.telem_elapsed_ms delta_ms in
    let telem_seq = (n.telem_seq + 1) % 2 ^ 32 in
    let packet = telemetry_packet telem_seq (telemetry_payload mode i.heap_free n) in
    if leb n.next_telem_interval_ms elapsed
    then record n {
      telem_elapsed_ms = 0;
      next_telem_interval_ms = calc_next_telem_interval i.interval_random;
      telem_seq = telem_seq;
      usb = record n.usb {
        backoff = (schedule_telemetry n.usb.backoff packet (i.jitter_random % 46 + 15)).0;
      };
    }
    else record n { telem_elapsed_ms = elapsed }

-- The slot of the mesh: the state afterwards and the lines for the host.
unfoldable pub service_mesh : StorageModeStatus → Inputs → Node → Node × List (ℕ × MeshPacket)
service_mesh mode i n =
    receive_frames i.relay_random i.frames
      (emit_telemetry mode i (service_backoff i.transmit_raw n))

unfoldable pub service_slot :
    RadioSlot → StorageModeStatus → Inputs → Node → Node × List (ℕ × MeshPacket)
service_slot ieee802154_mesh mode i n = service_mesh mode i n
service_slot guard_band mode i n = (n, [])
service_slot ble_companion mode i n = (n, [])

-- The heartbeat at 1 Hz and what the dashboard's refresh at 4 Hz changes.
unfoldable pub heartbeat : StorageModeStatus → Node → Node
heartbeat mode n =
    let up =
      if n.loop_tick % 200 == 0
      then saturating_add (2 ^ 32 - 1) n.telemetry.uptime_secs 1
      else n.telemetry.uptime_secs in
    let n' : Node = record n { telemetry = record n.telemetry { uptime_secs = up } } in
    if n'.loop_tick % 50 == 0
    then record n' {
      telemetry = record n'.telemetry {
        sram_ring_used = Ring.len n'.usb.sram_ring % 2 ^ 16;
        dropped_count = Ring.dropped_count n'.usb.sram_ring;
        storage_mode = mode;
      };
      usb = record n'.usb { sync_anim_ticks = n'.usb.sync_anim_ticks - 1 };
    }
    else n'

module _ {D : Type 0} (crc32 : List ℕ → ℕ) (dev : BlockDevice D) where
  -- One turn: the storage, the node and the lines for the host.
  unfoldable pub turn : Inputs → Manager D × Node → (Manager D × Node) × List (ℕ × MeshPacket)
  turn i (storage, n) =
      let n1 : Node = record n { loop_tick = (n.loop_tick + 1) % 2 ^ 32 } in
      let (arbiter, slot) = advance n1.tdm_arbiter delta_ms in
      let n2 = service_button i.btn_is_pressed (record n1 { tdm_arbiter = arbiter }) in
      let served = service_slot slot storage.mode i n2 in
      let usb = receive i.usb_bytes (served.0).usb in
      let (storage', ring) = flush_from_sram crc32 dev storage usb.sram_ring in
      let n3 : Node = record served.0 { usb = record usb { sram_ring = ring } } in
      ((storage', heartbeat storage'.mode n3), served.1)

  -- Turns one after the other.
  unfoldable pub turns : List Inputs → Manager D × Node → (Manager D × Node) × List (ℕ × MeshPacket)
  turns [] s = (s, [])
  turns (i ∷ is) s = let now = turn i s in let later = turns is now.0 in (later.0, now.1 ++ later.1)
