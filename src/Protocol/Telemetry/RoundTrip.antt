-- ===== src/Protocol/Telemetry/RoundTrip.antt =====
-- The debug telemetry payload is read back as it was sent.
use gibberish.Prelude.{ℕ, ◌≡◌, List, length, refl, arith, ◌<◌}
use gibberish.Prelude.Bytes.{buffer_laws, word_laws}
use gibberish.Prelude.Int.{as_i8-as_u8}
use gibberish.Protocol.Consts.{ciphertext_len}
use gibberish.Protocol.Telemetry.{
  DiagnosticEventCode, none_event, event_as_u8, event_from_u8, StorageModeStatus, ram_only,
  mode_as_u8, mode_from_u8, TelemetryTier, debug, tier_as_u8, tier_from_u8, DebugTelemetryPayload,
  IsPayload, serialize, deserialize,
}

-- Every event code survives its byte, and a byte that is no event's code reads as no event.
pub event_from_u8-event_as_u8 :
    ((e : DiagnosticEventCode) → event_from_u8 (event_as_u8 e) ≡ e)
    × ((b : ℕ) → 14 < b → event_from_u8 b ≡ none_event)
unfolding event_from_u8 event_as_u8
event_from_u8-event_as_u8 = (event_roundtrip, λ b h. ground arith)
  where
    event_roundtrip : (e : DiagnosticEventCode) → event_from_u8 (event_as_u8 e) ≡ e
    event_roundtrip none_event = refl
    event_roundtrip e = refl

mode_from_u8-mode_as_u8 : (m : StorageModeStatus) → mode_from_u8 (mode_as_u8 m) ≡ m
unfolding mode_from_u8 mode_as_u8
mode_from_u8-mode_as_u8 ram_only = refl
mode_from_u8-mode_as_u8 m = refl

tier_from_u8-tier_as_u8 : (t : TelemetryTier) → tier_from_u8 (tier_as_u8 t) ≡ t
unfolding tier_from_u8 tier_as_u8
tier_from_u8-tier_as_u8 debug = refl
tier_from_u8-tier_as_u8 t = refl

-- A debug payload serialized into any 96-byte buffer is read back unchanged, for every payload
-- whose fields are in the ranges of their types: counters, enums, the signed RSSI and both arrays.
pub telemetry_roundtrip :
    (p : DebugTelemetryPayload) (buf : List ℕ)
    → IsPayload p
    → length buf ≡ ciphertext_len
    → deserialize (serialize p buf) ≡ p
unfolding serialize deserialize
telemetry_roundtrip p buf v e = simp (
  buffer_laws,
  word_laws,
  e,
  v.uptime_secs_fits,
  v.rx_count_fits,
  v.tx_count_fits,
  v.drop_count_fits,
  v.sram_used_fits,
  v.mac_len,
  v.reserve_len,
  mode_from_u8-mode_as_u8,
  tier_from_u8-tier_as_u8,
  event_from_u8-event_as_u8.0,
  as_i8-as_u8 p.last_rssi v.last_rssi_fits,
)
