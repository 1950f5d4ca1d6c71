-- ===== src/Protocol/Telemetry.antt =====
-- The telemetry types of frame.rs: event codes, storage mode, build tier, the closed telemetry and
-- the 96-byte debug payload. `val as u8` of an enum is its discriminant.
pub mod RoundTrip
use gibberish.Prelude.{
  ℕ, ◌<◌, ◌^◌, ◌≡◌, List, [], ◌∷◌, replicate, length, ◌==◌, ◌||◌, if◌then◌else◌,
}
use gibberish.Prelude.Bytes.{write_at, set_byte, slice, byte_at, to_be_bytes, from_be_bytes}
use gibberish.Prelude.Int.{ℤ, pos, IsI8, as_u8, as_i8}

pub data DiagnosticEventCode : Type 0 where
  none_event boot sd_mounted sd_fallback_ram_only radio_tx_ok radio_rx_ok : DiagnosticEventCode
  radio_dropped_tag_mismatch radio_dropped_dedup ble_connected : DiagnosticEventCode
  ble_disconnected ble_auth_prompt ble_auth_granted ble_auth_timeout : DiagnosticEventCode
  storage_torn_write_discarded storage_flushed : DiagnosticEventCode

unfoldable pub event_as_u8 : DiagnosticEventCode → ℕ
event_as_u8 none_event = 0
event_as_u8 boot = 1
event_as_u8 sd_mounted = 2
event_as_u8 sd_fallback_ram_only = 3
event_as_u8 radio_tx_ok = 4
event_as_u8 radio_rx_ok = 5
event_as_u8 radio_dropped_tag_mismatch = 6
event_as_u8 radio_dropped_dedup = 7
event_as_u8 ble_connected = 8
event_as_u8 ble_disconnected = 9
event_as_u8 ble_auth_prompt = 10
event_as_u8 ble_auth_granted = 11
event_as_u8 ble_auth_timeout = 12
event_as_u8 storage_torn_write_discarded = 13
event_as_u8 storage_flushed = 14

unfoldable pub event_from_u8 : ℕ → DiagnosticEventCode
event_from_u8 val =
    if val == 0
    then none_event
    else (if val == 1
        then boot
        else (if val == 2
            then sd_mounted
            else (if val == 3
                then sd_fallback_ram_only
                else (if val == 4
                    then radio_tx_ok
                    else (if val == 5
                        then radio_rx_ok
                        else (if val == 6
                            then radio_dropped_tag_mismatch
                            else (if val == 7
                                then radio_dropped_dedup
                                else (if val == 8
                                    then ble_connected
                                    else (if val == 9
                                        then ble_disconnected
                                        else (if val == 10
                                            then ble_auth_prompt
                                            else (if val == 11
                                                then ble_auth_granted
                                                else (if val == 12
                                                    then ble_auth_timeout
                                                    else (if val == 13
                                                        then storage_torn_write_discarded
                                                        else (if val == 14
                                                            then storage_flushed
                                                            else none_event))))))))))))))

pub data StorageModeStatus : Type 0 where
  ram_only micro_sd_active : StorageModeStatus

unfoldable pub mode_as_u8 : StorageModeStatus → ℕ
mode_as_u8 ram_only = 0
mode_as_u8 micro_sd_active = 1

unfoldable pub mode_from_u8 : ℕ → StorageModeStatus
mode_from_u8 val = if val == 1 then micro_sd_active else ram_only

pub data TelemetryTier : Type 0 where
  debug prod : TelemetryTier

unfoldable pub tier_as_u8 : TelemetryTier → ℕ
tier_as_u8 debug = 0xDB
tier_as_u8 prod = 0x50

unfoldable pub tier_from_u8 : ℕ → TelemetryTier
tier_from_u8 val = if val == 0x50 || (val == 0x01 || val == 0x52) then prod else debug

pub record ClosedTelemetry : Type 0 where
  pub uptime_secs : ℕ
  pub rx_packet_count : ℕ
  pub tx_packet_count : ℕ
  pub dropped_count : ℕ
  pub sram_ring_used : ℕ
  pub storage_mode : StorageModeStatus
  pub last_event : DiagnosticEventCode
  pub last_rssi : ℤ

unfoldable pub new_closed : ClosedTelemetry
new_closed = record {
  uptime_secs = 0;
  rx_packet_count = 0;
  tx_packet_count = 0;
  dropped_count = 0;
  sram_ring_used = 0;
  storage_mode = ram_only;
  last_event = boot;
  last_rssi = pos 0;
}

pub record DebugTelemetryPayload : Type 0 where
  pub uptime_secs : ℕ
  pub rx_count : ℕ
  pub tx_count : ℕ
  pub drop_count : ℕ
  pub sram_used : ℕ
  pub storage_mode : StorageModeStatus
  pub last_event : DiagnosticEventCode
  pub build_tier : TelemetryTier
  pub free_heap_kb : ℕ
  pub last_rssi : ℤ
  pub last_lqi : ℕ
  pub node_mac_tail : List ℕ
  pub diagnostic_reserve : List ℕ

-- The ranges of the integer fields and the lengths of the two arrays.
pub record IsPayload (p : DebugTelemetryPayload) : Type 0 where
  pub uptime_secs_fits : p.uptime_secs < 2 ^ 32
  pub rx_count_fits : p.rx_count < 2 ^ 32
  pub tx_count_fits : p.tx_count < 2 ^ 32
  pub drop_count_fits : p.drop_count < 2 ^ 32
  pub sram_used_fits : p.sram_used < 2 ^ 16
  pub free_heap_kb_fits : p.free_heap_kb < 256
  pub last_rssi_fits : IsI8 p.last_rssi
  pub last_lqi_fits : p.last_lqi < 256
  pub mac_len : length p.node_mac_tail ≡ 8
  pub reserve_len : length p.diagnostic_reserve ≡ 64

unfoldable pub new_debug : DebugTelemetryPayload
new_debug = record {
  uptime_secs = 0;
  rx_count = 0;
  tx_count = 0;
  drop_count = 0;
  sram_used = 0;
  storage_mode = ram_only;
  last_event = boot;
  build_tier = debug;
  free_heap_kb = 0;
  last_rssi = pos 0;
  last_lqi = 0;
  node_mac_tail = replicate 8 0;
  diagnostic_reserve = replicate 64 0;
}

unfoldable pub serialize : DebugTelemetryPayload → List ℕ → List ℕ
serialize p buf =
    let b0 = write_at 0 (to_be_bytes 4 p.uptime_secs) buf in
    let b1 = write_at 4 (to_be_bytes 4 p.rx_count) b0 in
    let b2 = write_at 8 (to_be_bytes 4 p.tx_count) b1 in
    let b3 = write_at 12 (to_be_bytes 4 p.drop_count) b2 in
    let b4 = write_at 16 (to_be_bytes 2 p.sram_used) b3 in
    let b5 = set_byte 18 (mode_as_u8 p.storage_mode) b4 in
    let b6 = set_byte 19 (event_as_u8 p.last_event) b5 in
    let b7 = set_byte 20 (tier_as_u8 p.build_tier) b6 in
    let b8 = set_byte 21 p.free_heap_kb b7 in
    let b9 = set_byte 22 (as_u8 p.last_rssi) b8 in
    let b10 = set_byte 23 p.last_lqi b9 in
    let b11 = write_at 24 p.node_mac_tail b10 in write_at 32 p.diagnostic_reserve b11

unfoldable pub deserialize : List ℕ → DebugTelemetryPayload
deserialize buf = record {
  uptime_secs = from_be_bytes (slice 0 4 buf);
  rx_count = from_be_bytes (slice 4 4 buf);
  tx_count = from_be_bytes (slice 8 4 buf);
  drop_count = from_be_bytes (slice 12 4 buf);
  sram_used = from_be_bytes (slice 16 2 buf);
  storage_mode = mode_from_u8 (byte_at 18 buf);
  last_event = event_from_u8 (byte_at 19 buf);
  build_tier = tier_from_u8 (byte_at 20 buf);
  free_heap_kb = byte_at 21 buf;
  last_rssi = as_i8 (byte_at 22 buf);
  last_lqi = byte_at 23 buf;
  node_mac_tail = write_at 0 (slice 24 8 buf) (replicate 8 0);
  diagnostic_reserve = write_at 0 (slice 32 64 buf) (replicate 64 0);
}

-- The node id that the last four bytes of the MAC tail spell.
unfoldable pub node_id : DebugTelemetryPayload → ℕ
node_id p = from_be_bytes (
    byte_at 4 p.node_mac_tail
    ∷ byte_at 5 p.node_mac_tail
    ∷ byte_at 6 p.node_mac_tail
    ∷ byte_at 7 p.node_mac_tail
    ∷ [])
