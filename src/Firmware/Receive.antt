-- ===== src/Firmware/Receive.antt =====
-- What the main loop does with a frame that the radio received.
use Prim.Native.Nat.{bit_and}
use gibberish.Prelude.{
  ℕ, zero, suc, ◌^◌, ◌-◌, ◌%◌, Bool, not, ◌&&◌, Option, none, some, List, [], ◌∷◌, leb, ◌==◌,
  if◌then◌else◌, saturating_add, length,
}
use gibberish.Prelude.Bytes.{byte_at}
use gibberish.Protocol.Consts.{
  is_valid_network_tag, flag_clipboard, min_relay_lqi, calculate_lqi_relay_jitter,
}
use gibberish.Protocol.Packet.{MeshPacket, decrement_ttl}
use gibberish.Protocol.Peers.{record_peer}
use gibberish.Protocol.Telemetry
use gibberish.Protocol.Telemetry.{debug, tier_as_u8, radio_dropped_tag_mismatch, radio_rx_ok}
use gibberish.Storage.Ring
use gibberish.Radio.Dedup
use gibberish.Radio.Backoff.{BackoffController, is_telemetry, on_overhear, schedule_tx}
use gibberish.Radio.Phy.{ReceivedMeshPacket, poll_rx}
use gibberish.Firmware.Node.{Node}

unfoldable pub is_debug : MeshPacket → Bool
is_debug p = byte_at 20 p.payload == tier_as_u8 debug

unfoldable pub effective_src_node : ReceivedMeshPacket → ℕ
effective_src_node rx =
    if not (rx.src_node_id == 0)
    then rx.src_node_id
    else (if is_telemetry rx.packet && is_debug rx.packet
        then Telemetry.node_id (Telemetry.deserialize rx.packet.payload)
        else 0)

-- The peer's metrics, and the animation of a clipboard frame.
unfoldable pub note_frame : ReceivedMeshPacket → Node → Node
note_frame rx n =
    let src = effective_src_node rx in
    record n {
      peer_table =
          if not (src == 0) && not (src == n.local_node_id)
          then record_peer n.peer_table src rx.rssi rx.lqi
          else n.peer_table;
      usb = record n.usb {
        sync_anim_ticks =
            if not (bit_and rx.packet.header.flags flag_clipboard == 0)
            then 8
            else n.usb.sync_anim_ticks;
      };
    }

-- The counters of a frame that was received.
unfoldable pub count_frame : ReceivedMeshPacket → Node → Node
count_frame rx n = record n {
  telemetry = record n.telemetry {
    rx_packet_count = saturating_add (2 ^ 32 - 1) n.telemetry.rx_packet_count 1;
    last_event = radio_rx_ok;
    last_rssi = rx.rssi;
  };
}

unfoldable pub consume_telemetry : ReceivedMeshPacket → Node → Node
consume_telemetry rx n = count_frame rx (record n { telem_flash_ticks = 20 })

-- The relay: the queue afterwards.
unfoldable pub relay : ℕ → ReceivedMeshPacket → BackoffController → BackoffController
relay random rx b =
    let forwarded = decrement_ttl rx.packet in
    if leb min_relay_lqi rx.lqi && forwarded.1
    then schedule_tx b forwarded.0 (calculate_lqi_relay_jitter rx.lqi (random % 15))
    else b

-- A packet that was not seen before.
unfoldable pub accept_packet : ℕ → ReceivedMeshPacket → Node → Node
accept_packet random rx n =
    let key : ℕ × ℕ = (rx.packet.header.msg_id, rx.packet.header.chunk_idx) in
    let overheard =
      (on_overhear n.usb.backoff rx.packet.header.msg_id rx.packet.header.chunk_idx).0 in
    record (count_frame rx n) {
      usb = record n.usb {
        bloom_filter = Dedup.insert n.usb.bloom_filter key;
        sram_ring = (Ring.push n.usb.sram_ring rx.packet).0;
        backoff = relay random rx overheard;
      };
      rx_flash_ticks = 20;
    }

-- Overhearing cancellation for a packet that was seen before.
unfoldable pub drop_duplicate : ReceivedMeshPacket → Node → Node
drop_duplicate rx n = record n {
  usb = record n.usb {
    backoff = (on_overhear n.usb.backoff rx.packet.header.msg_id rx.packet.header.chunk_idx).0;
  };
}

-- The body of `while let Some(rx) = radio.poll_rx()`: the state afterwards, and what is printed for the
-- host, a node id and a packet.
unfoldable pub on_frame : ℕ → ReceivedMeshPacket → Node → Node × Option (ℕ × MeshPacket)
on_frame random rx n =
    let packet = rx.packet in
    let n' = note_frame rx n in
    if not (is_valid_network_tag packet.header.network_tag)
    then (
      record n { telemetry = record n.telemetry { last_event = radio_dropped_tag_mismatch } },
      none,
    )
    else (if is_telemetry packet
        then (consume_telemetry rx n', none)
        else (if Dedup.contains n'.usb.bloom_filter (packet.header.msg_id, packet.header.chunk_idx)
            then (drop_duplicate rx n', none)
            else (accept_packet random rx n', some (rx.src_node_id, packet))))

unfoldable pub add_line : Option (ℕ × MeshPacket) → List (ℕ × MeshPacket) → List (ℕ × MeshPacket)
add_line none rest = rest
add_line (some l) rest = l ∷ rest

-- The loop, on the frames that the radio holds; each turn takes one of them at least. `random i` is the
-- number that is drawn with `i` frames left.
unfoldable pub receive_loop : ℕ → (ℕ → ℕ) → List (List ℕ) → Node → Node × List (ℕ × MeshPacket)
receive_loop zero random frames n = (n, [])
receive_loop (suc fuel) random frames n =
    let polled = poll_rx n.radio frames in
    elim polled.0 [
      | none ↦ (n, [])
      | some rx ↦
          let handled = on_frame (random (length polled.1)) rx n in
          let later = receive_loop fuel random polled.1 handled.0 in
          (later.0, add_line handled.1 later.1)
    ]

unfoldable pub receive_frames : (ℕ → ℕ) → List (List ℕ) → Node → Node × List (ℕ × MeshPacket)
receive_frames random frames n = receive_loop (length frames) random frames n
