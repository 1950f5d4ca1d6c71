-- ===== src/Radio/BleGate/Gate.antt =====
-- The pairing gate as a state machine over the events of the firmware.
use gibberish.Prelude.{
  ℕ, ◌+◌, ◌-◌, ◌%◌, ◌<◌, ◌≤◌, ◌≡◌, inl, inr, refl, Bool, true, false, List, [], ◌∷◌, leb,
  if◌then◌else◌, arith, ap, Bool-cases,
}
use gibberish.Radio.BleGate.{
  BleAuthState, idle, pairing_requested, authorized, rejected, BleSecurityGate, new_gate,
  request_pairing, tick, on_button_press, reset, ble_auth_timeout_ms,
}

pub data Event : Type 0 where
  request : ℕ → Event
  pass : ℕ → Event
  button : Event
  clear : Event

unfoldable pub gate_step : BleSecurityGate → Event → BleSecurityGate
gate_step g (request seed) = (request_pairing g seed).0
gate_step g (pass delta_ms) = tick g delta_ms
gate_step g button = (on_button_press g).0
gate_step g clear = reset g

-- A PIN is shown while a pairing is pending: six digits, and at most 30 seconds left, never none.
abbrev pub IsPending : BleAuthState → Type 0
IsPending idle = Unit {0}
IsPending (pairing_requested pin remaining_ms) =
    (100_000 ≤ pin) × (pin ≤ 999_999) × (0 < remaining_ms) × (remaining_ms ≤ ble_auth_timeout_ms)
IsPending authorized = Unit {0}
IsPending rejected = Unit {0}

-- Authorization is only reached by a button press, which also bonds.
abbrev pub IsBonded : BleSecurityGate → Type 0
IsBonded g = g.state ≡ authorized → g.bonded ≡ true

pub record IsGate (g : BleSecurityGate) : Type 0 where
  pub pending : IsPending g.state
  pub bond : IsBonded g

pub data Reach : BleSecurityGate → Type 0 where
  start : Reach new_gate
  next : {g : BleSecurityGate} → Reach g → (e : Event) → Reach (gate_step g e)

abbrev gate : BleAuthState → Bool → BleSecurityGate
gate s b = record { state = s; bonded = b }

step_state :
    (s : BleAuthState) (b : Bool) (e : Event) → IsGate (gate s b) → IsGate (gate_step (gate s b) e)
unfolding gate_step request_pairing tick on_button_press reset
step_state s b (request seed) v = record { pending = omega arith; bond = λ h. cc }
step_state idle b (pass d) v = v
step_state (pairing_requested pin left) b (pass d) v = ground arith
step_state authorized b (pass d) v = v
step_state rejected b (pass d) v = v
step_state idle b button v = v
step_state (pairing_requested pin left) b button v = record { pending = tt; bond = λ h. refl }
step_state authorized b button v = v
step_state rejected b button v = v
step_state s b clear v = record { pending = tt; bond = λ h. cc }

-- In every state that the gate can reach from its start, a PIN on display has six digits and time
-- left, at most 30 seconds, and an authorized gate is bonded.
pub Reach-IsGate : {g : BleSecurityGate} → Reach g → IsGate g
unfolding new_gate
Reach-IsGate start = record { pending = tt; bond = λ h. cc }
Reach-IsGate (next {g} r e) = step_state g.state g.bonded e (Reach-IsGate r)

bonded_state :
    (s : BleAuthState) (b : Bool) (e : Event)
    → b ≡ false
    → (gate_step (gate s b) e).bonded ≡ true
    → (e ≡ button) × ((pin : ℕ) × (left : ℕ) × (s ≡ pairing_requested pin left))
unfolding gate_step request_pairing tick on_button_press reset
bonded_state s b (request seed) unbonded now = cc
bonded_state s b (pass d) unbonded now = cc
bonded_state (pairing_requested pin left) b button unbonded now = (refl, (pin, left, refl))
bonded_state idle b button unbonded now = cc
bonded_state authorized b button unbonded now = cc
bonded_state rejected b button unbonded now = cc
bonded_state s b clear unbonded now = cc

-- Only a press of the button while a pairing is pending makes the gate bonded: no request, passing
-- of time or reset does, and neither does a press in another state.
pub bonded_by_button :
    (g : BleSecurityGate) (e : Event)
    → g.bonded ≡ false
    → (gate_step g e).bonded ≡ true
    → (e ≡ button) × ((pin : ℕ) × (left : ℕ) × (g.state ≡ pairing_requested pin left))
bonded_by_button g e unbonded now = bonded_state g.state g.bonded e unbonded now

-- The gate after the time passed in several ticks.
unfoldable pub ticks : BleSecurityGate → List ℕ → BleSecurityGate
ticks g [] = g
ticks g (d ∷ ds) = ticks (tick g d) ds

unfoldable pub total : List ℕ → ℕ
total [] = 0
total (d ∷ ds) = d + total ds

tick_pending :
    (pin left d : ℕ) (b : Bool)
    → tick (gate (pairing_requested pin left) b) d
      ≡ gate (if leb left d then rejected else pairing_requested pin (left - d)) b
unfolding tick
tick_pending pin left d b = refl

ticks-rejected : (ds : List ℕ) (b : Bool) → ticks (gate rejected b) ds ≡ gate rejected b
unfolding ticks tick
ticks-rejected [] b = refl
ticks-rejected (d ∷ ds) b = ticks-rejected ds b

ticks_from :
    (pin left : ℕ) (ds : List ℕ) (b : Bool)
    → 0 < left
    → ticks (gate (pairing_requested pin left) b) ds
      ≡ gate (if leb left (total ds) then rejected else pairing_requested pin (left - total ds)) b
unfolding ticks total
ticks_from pin left [] b h = ground arith
ticks_from pin left (d ∷ ds) b h = elim (Bool-cases (leb left d)) [
  | inl e ↦ ground (arith, tick_pending pin left d b, ticks-rejected ds b)
  | inr e ↦ ground (arith, tick_pending pin left d b, ticks_from pin (left - d) ds b)
]

-- However the time is cut into ticks, a pairing that was requested is rejected exactly when 30
-- seconds have passed in sum; until then the PIN stands, with the rest of the time.
pub timeout_exact :
    (g : BleSecurityGate) (seed : ℕ) (ds : List ℕ)
    → (ticks (request_pairing g seed).0 ds).state ≡ (
        if leb ble_auth_timeout_ms (total ds)
        then rejected
        else pairing_requested (request_pairing g seed).1 (ble_auth_timeout_ms - total ds))
unfolding request_pairing
timeout_exact g seed ds =
    ap (λ h. h.state)
      (ticks_from (100_000 + seed % 900_000) ble_auth_timeout_ms ds g.bonded (omega arith))
