-- ===== src/Tests/Firmware.antt =====
-- A node from its start on, with a card that takes every block.
use gibberish.Prelude.{ℕ, suc, ◌≡◌, refl, true, false, none, some, List, [], ◌∷◌, arith, replicate}
use gibberish.Prelude.Bits.{test_bit}
use gibberish.Prelude.Int.{negsuc}
use gibberish.Protocol.Consts.{is_valid_network_tag, default_network_tag}
use gibberish.Protocol.Packet.{MeshPacket}
use gibberish.Storage.Error.{ok}
use gibberish.Storage.Manager.{BlockDevice, new_ram_only}
use gibberish.Radio.Dedup.{
  new_filter, contains, in_lru, contains_loop, has_bit, bit_idx, hash_coords,
}
use gibberish.Radio.Dedup.Memory.{Sized, new_filter-Sized}
use gibberish.Radio.Backoff.{is_telemetry}
use gibberish.Radio.Phy.{ReceivedMeshPacket}
use gibberish.Host.Chunks.Sacks.{sack_packet}
use gibberish.Host.Chunks.Engine.{InFlightMessage}
use gibberish.Firmware.Node.{Node, new_node}
use gibberish.Firmware.Receive.{on_frame, note_frame}
use gibberish.Firmware.Loop.{Inputs, turns}
use gibberish.Firmware.Duplicates.{key_of, on_frames, printed}
use gibberish.Firmware.Seen.{heard, handed, on_events, printed_once, sack_dropped}
use gibberish.Firmware.Invariant.{IsNode}
use gibberish.Firmware.Start.{run-IsNode}
use gibberish.Tests.Data.{hello}

abbrev mac : List ℕ
mac = 0 ∷ 0 ∷ 0 ∷ 0 ∷ 1 ∷ 2 ∷ 3 ∷ 4 ∷ []

abbrev node : Node
node = new_node 5 mac 4_500

node-Sized : Sized node.usb.bloom_filter
unfolding new_node
node-Sized = new_filter-Sized

abbrev heard_hello : ReceivedMeshPacket
heard_hello = record { packet = hello; src_node_id = 9; rssi = negsuc 39; lqi = 200 }

unseen : contains new_filter (42, 1) ≡ false
unfolding contains in_lru contains_loop has_bit bit_idx hash_coords new_filter test_bit
unseen = refl

heard_printed : (on_frame 3 heard_hello node).1 ≡ some (9, hello)
unfolding on_frame note_frame is_valid_network_tag is_telemetry new_node
heard_printed = rw unseen refl

printed_once_example :
    printed
      (key_of hello)
      (on_frames ((4, heard_hello) ∷ (5, heard_hello) ∷ []) (on_frame 3 heard_hello node).0).1
    ≡ false
printed_once_example =
    printed_once 3 heard_hello node (9, hello) ((4, heard_hello) ∷ (5, heard_hello) ∷ []) node-Sized
      heard_printed (omega arith)

-- A first chunk, and a SACK for its message.
abbrev first_chunk : MeshPacket
first_chunk = record { header = record hello.header { chunk_idx = 0 }; payload = hello.payload }

abbrev second_chunk : MeshPacket
second_chunk = hello

abbrev in_flight : InFlightMessage
in_flight = record {
  total_chunks = 2;
  received_chunks = none ∷ some (replicate 80 1) ∷ [];
  first_received = 0;
  last_received = 0;
  last_sack_sent = none;
  sack_count = 0;
}

abbrev sack : ReceivedMeshPacket
sack = record {
  packet = sack_packet 9 default_network_tag (5, 42) in_flight;
  src_node_id = 9;
  rssi = negsuc 39;
  lqi = 200;
}

tag_valid : is_valid_network_tag first_chunk.header.network_tag ≡ true
unfolding is_valid_network_tag
tag_valid = refl

sack_dropped_example :
    (on_frame 1 sack
      (on_events (handed first_chunk ∷ handed second_chunk ∷ heard 2 heard_hello ∷ []) node)).1
    ≡ none
sack_dropped_example =
    sack_dropped first_chunk node (handed second_chunk ∷ heard 2 heard_hello ∷ []) 1 sack 9
      default_network_tag 5 in_flight node-Sized tag_valid refl (omega arith) refl

abbrev good_card : BlockDevice ℕ
good_card = record {
  read_block = λ d lba buf. (d, buf, ok tt);
  write_block = λ d lba buf. (suc d, ok tt);
}

-- The button is pressed while a frame waits and a byte comes from the host.
abbrev inputs : Inputs
inputs = record {
  btn_is_pressed = true;
  transmit_raw = λ frame. true;
  frames = replicate 128 1 ∷ [];
  usb_bytes = 0xAA ∷ [];
  relay_random = λ i. 3;
  interval_random = 2;
  jitter_random = 1;
  heap_free = 1_024;
}

run-IsNode_example :
    IsNode
      (turns (λ b. 0) good_card (inputs ∷ inputs ∷ []) (new_ram_only, new_node 5 mac 4_500)).0.1
run-IsNode_example = run-IsNode (λ b. 0) good_card (inputs ∷ inputs ∷ []) new_ram_only 5 mac 4_500
