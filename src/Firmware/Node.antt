-- ===== src/Firmware/Node.antt =====
-- The variables of the main loop.
use gibberish.Prelude.{ℕ, Bool, false, List, replicate}
use gibberish.Protocol.Packet.{wire_payload_len}
use gibberish.Protocol.Peers.{PeerTable, new_table}
use gibberish.Protocol.Telemetry.{ClosedTelemetry, new_closed, boot}
use gibberish.Storage.Ring.{new_ring}
use gibberish.Radio.Dedup.{new_filter}
use gibberish.Radio.Backoff.{new_backoff}
use gibberish.Radio.BleGate.{BleSecurityGate, new_gate}
use gibberish.Radio.Coex.{TdmArbiter, new_arbiter}
use gibberish.Radio.Phy.{RadioManager, new_radio}
use gibberish.Usb.{Dongle, sync0}

-- `usb` has the framing parser with the parts that it shares with the receiver: the duplicate filter,
-- the ring, the transmit queue and the ticks of the synchronization animation.
pub record Node : Type 0 where
  pub local_node_id : ℕ
  pub radio : RadioManager
  pub usb : Dongle
  pub peer_table : PeerTable
  pub telemetry : ClosedTelemetry
  pub ble_gate : BleSecurityGate
  pub tdm_arbiter : TdmArbiter
  pub loop_tick : ℕ
  pub btn_was_pressed : Bool
  pub btn_flash_ticks : ℕ
  pub rx_flash_ticks : ℕ
  pub telem_flash_ticks : ℕ
  pub beacon_seq : ℕ
  pub telem_seq : ℕ
  pub telem_elapsed_ms : ℕ
  pub next_telem_interval_ms : ℕ

-- The state before the loop.
unfoldable pub new_node : ℕ → List ℕ → ℕ → Node
new_node local_node_id full_mac next_telem_interval_ms = record {
  local_node_id = local_node_id;
  radio = new_radio full_mac local_node_id;
  usb = record {
    usb_rx_state = sync0;
    usb_pkt_buf = replicate wire_payload_len 0;
    usb_pkt_idx = 0;
    sync_anim_ticks = 0;
    bloom_filter = new_filter;
    sram_ring = new_ring;
    backoff = new_backoff;
  };
  peer_table = new_table;
  telemetry = record new_closed { last_event = boot };
  ble_gate = new_gate;
  tdm_arbiter = new_arbiter;
  loop_tick = 0;
  btn_was_pressed = false;
  btn_flash_ticks = 0;
  rx_flash_ticks = 0;
  telem_flash_ticks = 0;
  beacon_seq = 0;
  telem_seq = 0;
  telem_elapsed_ms = 0;
  next_telem_interval_ms = next_telem_interval_ms;
}
