-- ===== src/Tests/Radio.antt =====
-- The radio at concrete inputs.
use gibberish.Prelude.{
  ℕ, ◌-◌, ◌≡◌, refl, true, false, not, ◌&&◌, some, List, [], ◌∷◌, length, replicate, leb, arith,
  if◌then◌else◌,
}
use gibberish.Prelude.Bytes.{bytes_eq, slice}
use gibberish.Prelude.Int.{negsuc, as_u8}
use gibberish.Protocol.Consts.{is_valid_network_tag}
use gibberish.Radio.BleGate.{
  pairing_requested, rejected, new_gate, request_pairing, on_button_press, ble_auth_timeout_ms,
}
use gibberish.Radio.BleGate.Gate.{
  button, gate_step, ticks, total, bonded_by_button, timeout_exact, start, next, request, pass,
  IsGate, Reach-IsGate,
}
use gibberish.Radio.Backoff.{new_backoff, schedule_tx, on_overhear, take_pending}
use gibberish.Radio.Backoff.Queue.{Queued, enqueue, cancel, waits, dequeue}
use gibberish.Radio.Backoff.Schedule.{new_backoff-Queued, schedule_tx_refines}
use gibberish.Radio.Backoff.Cancel.{on_overhear_refines}
use gibberish.Radio.Backoff.Take.{take_pending_refines}
use gibberish.Radio.Dedup.{new_filter, contains, insert}
use gibberish.Radio.Dedup.Memory.{insert_all, contains-insert}
use gibberish.Radio.Phy.{new_radio, poll_rx}
use gibberish.Radio.Phy.Frames.{on_air}
use gibberish.Radio.Phy.Receive.{driver_buffer, sender, delivered, poll_rx-driver_buffer}
use gibberish.Tests.Data.{message, hello, hello-IsPacket}

asked_unbonded : (request_pairing new_gate 5).0.bonded ≡ false
unfolding request_pairing new_gate
asked_unbonded = refl

pressed_bonded : (gate_step (request_pairing new_gate 5).0 button).bonded ≡ true
unfolding gate_step request_pairing on_button_press new_gate
pressed_bonded = refl

bonded_by_button_example :
    (button ≡ button)
    × ((pin : ℕ) × (left : ℕ) × ((request_pairing new_gate 5).0.state ≡ pairing_requested pin left))
bonded_by_button_example =
    bonded_by_button (request_pairing new_gate 5).0 button asked_unbonded pressed_bonded

timeout_exact_example : (ticks (request_pairing new_gate 5).0 (10_000 ∷ 19_999 ∷ [])).state ≡ (
    if leb ble_auth_timeout_ms 29_999
    then rejected
    else pairing_requested (request_pairing new_gate 5).1 (ble_auth_timeout_ms - 29_999))
unfolding total
timeout_exact_example = timeout_exact new_gate 5 (10_000 ∷ 19_999 ∷ [])

Reach-IsGate_example : IsGate (gate_step (gate_step new_gate (request 5)) (pass 10))
Reach-IsGate_example = Reach-IsGate (next (next start (request 5)) (pass 10))

schedule_tx_refines_example : Queued (schedule_tx new_backoff hello 20) (enqueue [] hello)
schedule_tx_refines_example = schedule_tx_refines new_backoff [] hello 20 new_backoff-Queued

-- Two packets wait.
one-Queued : Queued (schedule_tx new_backoff hello 20) (enqueue [] hello)
one-Queued = schedule_tx_refines new_backoff [] hello 20 new_backoff-Queued

two-Queued :
    Queued
      (schedule_tx (schedule_tx new_backoff hello 20) (message 43) 30)
      (enqueue (enqueue [] hello) (message 43))
two-Queued =
    schedule_tx_refines (schedule_tx new_backoff hello 20) (enqueue [] hello) (message 43) 30
      one-Queued

on_overhear_refines_example :
    Queued
      (on_overhear (schedule_tx (schedule_tx new_backoff hello 20) (message 43) 30) 42 1).0
      (cancel 42 1 (enqueue (enqueue [] hello) (message 43)))
    × ((on_overhear (schedule_tx (schedule_tx new_backoff hello 20) (message 43) 30) 42 1).1
        ≡ waits 42 1 (enqueue (enqueue [] hello) (message 43)))
on_overhear_refines_example =
    on_overhear_refines (schedule_tx (schedule_tx new_backoff hello 20) (message 43) 30)
      (enqueue (enqueue [] hello) (message 43)) 42 1 two-Queued

take_pending_refines_example :
    Queued (take_pending (schedule_tx new_backoff hello 20)).0 (dequeue (enqueue [] hello)).0
    × ((take_pending (schedule_tx new_backoff hello 20)).1 ≡ (dequeue (enqueue [] hello)).1)
take_pending_refines_example =
    take_pending_refines (schedule_tx new_backoff hello 20) (enqueue [] hello) one-Queued

abbrev mac : ℕ → List ℕ
mac n = 0x60 ∷ 0x55 ∷ 0xF9 ∷ 0xFF ∷ 0xFE ∷ 1 ∷ 2 ∷ n ∷ []

buffer_has_room : leb 128 (length (replicate {A = ℕ} 129 0)) ≡ true
buffer_has_room = refl

poll_rx-driver_buffer_example :
    poll_rx
      (new_radio (mac 4) 260)
      (driver_buffer (on_air (mac 3) hello 9 (as_u8 (negsuc 69)) 77) (replicate 129 0) ∷ [])
    ≡ (if is_valid_network_tag hello.header.network_tag
          && not (bytes_eq (sender (mac 3)) (slice 4 4 (new_radio (mac 4) 260).local_mac))
        then (some (delivered (mac 3) hello (negsuc 69)), [])
        else poll_rx (new_radio (mac 4) 260) [])
poll_rx-driver_buffer_example =
    poll_rx-driver_buffer (mac 3) hello 9 77 (negsuc 69) (replicate 129 0) hello-IsPacket
      (omega arith) buffer_has_room (new_radio (mac 4) 260) []

contains-insert_example :
    contains
      (insert_all (insert (insert_all new_filter ((1, 0) ∷ [])) (42, 1)) ((7, 0) ∷ (7, 1) ∷ []))
      (42, 1)
    ≡ true
contains-insert_example = contains-insert ((1, 0) ∷ []) (42, 1) ((7, 0) ∷ (7, 1) ∷ []) (omega arith)
