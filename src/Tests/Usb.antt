-- ===== src/Tests/Usb.antt =====
-- A packet on the serial line.
use gibberish.Prelude.{ℕ, ◌≡◌, refl, replicate, length-replicate, arith}
use gibberish.Protocol.Packet.{wire_payload_len, serialize_payload}
use gibberish.Storage.Ring.{new_ring}
use gibberish.Radio.Dedup.{new_filter}
use gibberish.Radio.Backoff.{new_backoff}
use gibberish.Usb.{Dongle, sync0, framed, ingest, receive}
use gibberish.Usb.Delivery.{IsParser, receive-framed}
use gibberish.Tests.Data.{hello, hello-IsPacket}

abbrev idle_dongle : Dongle
idle_dongle = record {
  usb_rx_state = sync0;
  usb_pkt_buf = replicate wire_payload_len 0;
  usb_pkt_idx = 0;
  sync_anim_ticks = 0;
  bloom_filter = new_filter;
  sram_ring = new_ring;
  backoff = new_backoff;
}

idle_dongle-IsParser : IsParser idle_dongle
idle_dongle-IsParser = record {
  buffer_len = length-replicate {A = ℕ} wire_payload_len 0;
  idx_in = omega arith;
}

receive-framed_example : receive (framed hello) idle_dongle ≡ record (ingest hello idle_dongle) {
  usb_rx_state = sync0;
  usb_pkt_buf = serialize_payload hello (replicate 114 0);
  usb_pkt_idx = 0;
}
receive-framed_example = receive-framed hello idle_dongle hello-IsPacket idle_dongle-IsParser refl
