-- ===== src/Radio/Coex.antt =====
-- `TdmArbiter` of apps/gibberish-firmware/src/radio/coex.rs: one radio shared by two protocols in a
-- cycle of 200 ms.
use gibberish.Prelude.{
  ℕ, ◌+◌, ◌%◌, ◌<◌, ◌≤◌, ◌≡◌, ◌↔◌, Bool, true, false, ltb, if◌then◌else◌, arith,
}

abbrev pub tdm_cycle_ms : ℕ
tdm_cycle_ms = 200

abbrev pub slot_a_end_ms : ℕ
slot_a_end_ms = 168

abbrev pub guard_1_end_ms : ℕ
guard_1_end_ms = 170

abbrev pub slot_b_end_ms : ℕ
slot_b_end_ms = 198

pub data RadioSlot : Type 0 where
  ieee802154_mesh guard_band ble_companion : RadioSlot

pub record TdmArbiter : Type 0 where
  pub current_time_ms : ℕ
  pub usb_desktop_mode : Bool
  pub current_slot : RadioSlot

unfoldable pub new_arbiter : TdmArbiter
new_arbiter = record {
  current_time_ms = 0;
  usb_desktop_mode = false;
  current_slot = ieee802154_mesh;
}

unfoldable pub set_desktop_mode : TdmArbiter → Bool → TdmArbiter
set_desktop_mode a enabled = record a { usb_desktop_mode = enabled }

-- The ladder of `advance`, on the time within the cycle.
unfoldable pub slot_at : ℕ → RadioSlot
slot_at t =
    if ltb t slot_a_end_ms
    then ieee802154_mesh
    else (if ltb t guard_1_end_ms
        then guard_band
        else (if ltb t slot_b_end_ms then ble_companion else guard_band))

-- The sum is a `u32`; the time is below 200 and the firmware advances by 5 ms, so it does not wrap
-- (`advance-no_wrap`).
unfoldable pub advance : TdmArbiter → ℕ → TdmArbiter × RadioSlot
advance a delta_ms =
    if a.usb_desktop_mode
    then (record a { current_slot = ieee802154_mesh }, ieee802154_mesh)
    else (let t = (a.current_time_ms + delta_ms) % tdm_cycle_ms in
        let slot = slot_at t in (record a { current_time_ms = t; current_slot = slot }, slot))

-- The time is in the cycle and, outside desktop mode, the slot is the one of that time.
pub record IsArbiter (a : TdmArbiter) : Type 0 where
  pub in_cycle : a.current_time_ms < tdm_cycle_ms

-- No call of `advance` by less than 2 ^ 32 - 200 ms overflows its `u32` sum.
pub advance-no_wrap :
    (a : TdmArbiter) (delta_ms : ℕ)
    → IsArbiter a
    → delta_ms + tdm_cycle_ms ≤ 4294967296
    → a.current_time_ms + delta_ms < 4294967296
advance-no_wrap a delta_ms v h = omega arith

-- In desktop mode `advance` gives the radio to the mesh and leaves the time as it is.
pub advance_desktop :
    (a : TdmArbiter) (delta_ms : ℕ)
    → IsArbiter a
    → a.usb_desktop_mode ≡ true
    → let (a', slot) = advance a delta_ms in
      IsArbiter a'
      × (a'.current_slot ≡ slot)
      × (slot ≡ ieee802154_mesh)
      × (a'.current_time_ms ≡ a.current_time_ms)
unfolding advance slot_at
advance_desktop a delta_ms v h = ground arith

-- Outside desktop mode `advance` moves the time on in the cycle of 200 ms, stores the slot that it
-- returns, and returns the mesh slot exactly in the first 168 ms of the cycle and the BLE slot exactly
-- from 170 ms to 198 ms.
pub advance_shared :
    (a : TdmArbiter) (delta_ms : ℕ)
    → IsArbiter a
    → a.usb_desktop_mode ≡ false
    → let (a', slot) = advance a delta_ms in
      let t = (a.current_time_ms + delta_ms) % tdm_cycle_ms in
      IsArbiter a'
      × (a'.current_slot ≡ slot)
      × (a'.current_time_ms ≡ t)
      × (slot ≡ ieee802154_mesh ↔ (t < slot_a_end_ms))
      × (slot ≡ ble_companion ↔ ((guard_1_end_ms ≤ t) × (t < slot_b_end_ms)))
unfolding advance slot_at
advance_shared a delta_ms v h = ground arith

-- A time of the mesh slot and one of the BLE slot lie more than 2 ms apart, both within the cycle
-- and round its end: a guard band separates the two protocols on either side.
pub guard_between :
    (t u : ℕ)
    → u < tdm_cycle_ms
    → slot_at t ≡ ieee802154_mesh
    → slot_at u ≡ ble_companion
    → (t + 2 < u) × (u + 2 < t + tdm_cycle_ms)
unfolding slot_at
guard_between t u hu m b = ground arith
