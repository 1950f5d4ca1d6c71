-- ===== src/Radio/BleGate.antt =====
-- `BleSecurityGate` of apps/gibberish-firmware/src/radio/ble_gate.rs: pairing needs the button within
-- 30 seconds.
pub mod Gate
use gibberish.Prelude.{ℕ, ◌+◌, ◌-◌, ◌%◌, Bool, true, false, leb, if◌then◌else◌}

abbrev pub ble_auth_timeout_ms : ℕ
ble_auth_timeout_ms = 30_000

pub data BleAuthState : Type 0 where
  idle : BleAuthState
  pairing_requested : ℕ → ℕ → BleAuthState
  authorized rejected : BleAuthState

pub record BleSecurityGate : Type 0 where
  pub state : BleAuthState
  pub bonded : Bool

unfoldable pub new_gate : BleSecurityGate
new_gate = record { state = idle; bonded = false }

unfoldable pub request_pairing : BleSecurityGate → ℕ → BleSecurityGate × ℕ
request_pairing g random_seed =
    let pin = 100_000 + random_seed % 900_000 in
    (record g { state = pairing_requested pin ble_auth_timeout_ms }, pin)

tick_state : ℕ → BleAuthState → BleAuthState
tick_state delta_ms (pairing_requested pin remaining_ms) =
    if leb remaining_ms delta_ms then rejected else pairing_requested pin (remaining_ms - delta_ms)
tick_state delta_ms s = s

unfoldable pub tick : BleSecurityGate → ℕ → BleSecurityGate
unfolding tick_state
tick g delta_ms = record g { state = tick_state delta_ms g.state }

press : BleSecurityGate → BleAuthState → BleSecurityGate × Bool
press g (pairing_requested pin remaining_ms) =
    (record g { state = authorized; bonded = true }, true)
press g s = (g, false)

unfoldable pub on_button_press : BleSecurityGate → BleSecurityGate × Bool
unfolding press
on_button_press g = press g g.state

unfoldable pub reset : BleSecurityGate → BleSecurityGate
reset g = record g { state = idle }
