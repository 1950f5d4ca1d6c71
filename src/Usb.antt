-- ===== src/Usb.antt =====
-- The serial line from the daemon to its dongle: `SerialTransport::send_packet` of
-- apps/gibberish-daemon/src/transport.rs, and the parser with four states in the main loop of
-- apps/gibberish-firmware/src/main.rs that takes the bytes one by one.
pub mod Delivery
pub mod Text
pub mod Line
pub mod NodeId
use Prim.Native.Nat.{bit_and}
use gibberish.Prelude.{
  ℕ, ◌+◌, ◌<◌, ◌≡◌, Bool, not, List, [], ◌∷◌, length, set, replicate, ◌==◌, if◌then◌else◌,
}
use gibberish.Prelude.Bytes.{write_at, slice}
use gibberish.Protocol.Consts.{is_valid_network_tag, flag_clipboard}
use gibberish.Protocol.Packet.{MeshPacket, wire_payload_len, serialize_payload, deserialize_payload}
use gibberish.Storage.Ring
use gibberish.Storage.Ring.{SramRingBuffer}
use gibberish.Radio.Dedup
use gibberish.Radio.Dedup.{SlidingBloomFilter}
use gibberish.Radio.Backoff.{BackoffController, schedule_tx}

abbrev pub host_to_dongle_frame_header : List ℕ
host_to_dongle_frame_header = 0xAA ∷ 0x55 ∷ 0x72 ∷ []

abbrev pub host_to_dongle_total_len : ℕ
host_to_dongle_total_len = 3 + wire_payload_len

-- The bytes that `send_packet` writes to the port.
unfoldable pub framed : MeshPacket → List ℕ
framed packet =
    let buf = replicate host_to_dongle_total_len 0 in
    let buf = write_at 0 host_to_dongle_frame_header buf in
    write_at 3 (serialize_payload packet (slice 3 wire_payload_len buf)) buf

pub data UsbRxState : Type 0 where
  sync0 sync1 length_byte payload : UsbRxState

-- The parser, and the parts of the firmware that it hands a packet to.
pub record Dongle : Type 0 where
  pub usb_rx_state : UsbRxState
  pub usb_pkt_buf : List ℕ
  pub usb_pkt_idx : ℕ
  pub sync_anim_ticks : ℕ
  pub bloom_filter : SlidingBloomFilter
  pub sram_ring : SramRingBuffer
  pub backoff : BackoffController

-- What the firmware does with a packet of the host.
unfoldable pub ingest : MeshPacket → Dongle → Dongle
ingest packet d =
    if is_valid_network_tag packet.header.network_tag
    then record d {
      sync_anim_ticks =
          if not (bit_and packet.header.flags flag_clipboard == 0) then 8 else d.sync_anim_ticks;
      bloom_filter = Dedup.insert d.bloom_filter (packet.header.msg_id, packet.header.chunk_idx);
      sram_ring = (Ring.push d.sram_ring packet).0;
      backoff = schedule_tx d.backoff packet 15;
    }
    else d

unfoldable pub on_payload : ℕ → Dongle → Dongle
on_payload b d =
    let d = record d {
      usb_pkt_buf = set d.usb_pkt_buf d.usb_pkt_idx b;
      usb_pkt_idx = d.usb_pkt_idx + 1;
    } in
    if d.usb_pkt_idx == 114
    then record (ingest (deserialize_payload d.usb_pkt_buf) d) {
      usb_pkt_idx = 0;
      usb_rx_state = sync0;
    }
    else d

unfoldable pub on_byte : ℕ → Dongle → Dongle
on_byte b d = elim d.usb_rx_state [
  | sync0 ↦ if b == 0xAA then record d { usb_rx_state = sync1 } else d
  | sync1 ↦
      if b == 0x55
      then record d { usb_rx_state = length_byte }
      else if b == 0xAA
      then d
      else record d { usb_rx_state = sync0 }
  | length_byte ↦
      if b == 0x72
      then record d { usb_pkt_idx = 0; usb_rx_state = payload }
      else if b == 0xAA
      then record d { usb_rx_state = sync1 }
      else record d { usb_rx_state = sync0 }
  | payload ↦ on_payload b d
]

-- `while let Ok(b) = usb_rx.read_byte()`
unfoldable pub receive : List ℕ → Dongle → Dongle
receive [] d = d
receive (b ∷ bytes) d = receive bytes (on_byte b d)
