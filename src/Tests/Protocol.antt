-- ===== src/Tests/Protocol.antt =====
-- The wire formats, the relay and the peer table at concrete inputs.
use gibberish.Prelude.{
  ℕ, ◌*◌, ◌≡◌, ◌&&◌, none, List, [], ◌∷◌, replicate, length-replicate, arith, ◌==◌, if◌then◌else◌,
  is_none,
}
use gibberish.Prelude.Int.{negsuc}
use gibberish.Protocol.Consts.{ciphertext_len}
use gibberish.Protocol.Packet.{wire_payload_len, serialize_payload, deserialize_payload}
use gibberish.Protocol.Packet.RoundTrip.{deserialize_payload-serialize_payload}
use gibberish.Protocol.Peers.{new_table, record_peer, get_peer, len}
use gibberish.Protocol.Peers.Recency.{Heard, hear_all, reachable-IsTable}
use gibberish.Protocol.Peers.Queries.{is_oldest, get_peer-record_peer_ne}
use gibberish.Protocol.Sack.{
  SackPayload, IsSack, new_sack, sack_bitmask_bytes, in_window, mark_missing, mark_received,
  is_missing, missing_count, is_full_ack,
}
use gibberish.Protocol.Sack
use gibberish.Protocol.Sack.Marks.{mark_missing-IsSack}
use gibberish.Protocol.Sack.RoundTrip.{sack_roundtrip}
use gibberish.Protocol.Sack.Visits.{select, visits, for_each_missing_lem}
use gibberish.Protocol.Telemetry
use gibberish.Protocol.Telemetry.{DebugTelemetryPayload, IsPayload}
use gibberish.Protocol.Telemetry.RoundTrip.{telemetry_roundtrip}
use gibberish.Tests.Data.{hello, hello-IsPacket, replicate-IsByte}

deserialize_payload-serialize_payload_example :
    deserialize_payload (serialize_payload hello (replicate wire_payload_len 255)) ≡ hello
deserialize_payload-serialize_payload_example =
    deserialize_payload-serialize_payload hello (replicate wire_payload_len 255) hello-IsPacket
      (length-replicate {A = ℕ} wire_payload_len 255)

abbrev two_lost : SackPayload
two_lost = mark_missing (mark_missing (new_sack 7 9 100) 101) 130

fresh-IsSack : IsSack (new_sack 7 9 100)
unfolding new_sack
fresh-IsSack = record {
  receiver_fits = omega arith;
  sender_fits = omega arith;
  base_fits = omega arith;
  bitmask_len = length-replicate {A = ℕ} sack_bitmask_bytes 0;
  bitmask_bytes = replicate-IsByte sack_bitmask_bytes 0 (omega arith);
}

two_lost-IsSack : IsSack two_lost
two_lost-IsSack =
    mark_missing-IsSack (mark_missing (new_sack 7 9 100) 101) 130
      (mark_missing-IsSack (new_sack 7 9 100) 101 fresh-IsSack)

for_each_missing_lem_example :
    visits two_lost ≡ select (is_missing two_lost) (sack_bitmask_bytes * 8) two_lost.base_chunk
for_each_missing_lem_example = for_each_missing_lem two_lost two_lost-IsSack

sack_roundtrip_example :
    Sack.deserialize (Sack.serialize two_lost (replicate ciphertext_len 255)) ≡ two_lost
sack_roundtrip_example =
    sack_roundtrip two_lost (replicate ciphertext_len 255) two_lost-IsSack
      (length-replicate {A = ℕ} ciphertext_len 255)

abbrev busy_node : DebugTelemetryPayload
busy_node = record {
  uptime_secs = 86_400;
  rx_count = 12;
  tx_count = 3;
  drop_count = 1;
  sram_used = 5;
  storage_mode = Telemetry.micro_sd_active;
  last_event = Telemetry.storage_flushed;
  build_tier = Telemetry.debug;
  free_heap_kb = 120;
  last_rssi = negsuc 61;
  last_lqi = 90;
  node_mac_tail = replicate 8 17;
  diagnostic_reserve = replicate 64 3;
}

busy_node-IsPayload : IsPayload busy_node
busy_node-IsPayload = record {
  uptime_secs_fits = omega arith;
  rx_count_fits = omega arith;
  tx_count_fits = omega arith;
  drop_count_fits = omega arith;
  sram_used_fits = omega arith;
  free_heap_kb_fits = omega arith;
  last_rssi_fits = omega arith;
  last_lqi_fits = omega arith;
  mac_len = length-replicate {A = ℕ} 8 17;
  reserve_len = length-replicate {A = ℕ} 64 3;
}

telemetry_roundtrip_example :
    Telemetry.deserialize (Telemetry.serialize busy_node (replicate ciphertext_len 255)) ≡ busy_node
telemetry_roundtrip_example =
    telemetry_roundtrip busy_node (replicate ciphertext_len 255) busy_node-IsPayload
      (length-replicate {A = ℕ} ciphertext_len 255)

-- Four peers, and a fifth that drives out the least recent one.
abbrev four : List Heard
four = (1, negsuc 40, 200) ∷ (2, negsuc 50, 150) ∷ (3, negsuc 60, 100) ∷ (4, negsuc 70, 50) ∷ []

get_peer-record_peer_ne_example :
    get_peer (record_peer (hear_all new_table four) 5 (negsuc 30) 220) 1 ≡ (
      if is_none (get_peer (hear_all new_table four) 5)
        && (len (hear_all new_table four) == 4 && is_oldest (hear_all new_table four) 1)
      then none
      else get_peer (hear_all new_table four) 1)
get_peer-record_peer_ne_example =
    get_peer-record_peer_ne (hear_all new_table four) (reachable-IsTable four).0
      (reachable-IsTable four).1 5 (negsuc 30) 220 (omega arith) 1 (omega arith) (omega arith)
