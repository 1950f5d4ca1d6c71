-- ===== src/Protocol/Jitter.antt =====
-- The relay delay of `calculate_lqi_relay_jitter`: its range, and that a stronger link goes first.
use gibberish.Prelude.{ℕ, ◌+◌, ◌≤◌, ◌<◌, arith}
use gibberish.Protocol.Consts.{calculate_lqi_relay_jitter}

-- For every link quality the delay is at least 15 and at most 64 ms, so the `u16`
-- arithmetic of the source cannot overflow and `schedule_tx` never clamps the value.
pub jitter_bounds :
    (lqi random_val : ℕ)
    → (15 ≤ calculate_lqi_relay_jitter lqi random_val)
      × (calculate_lqi_relay_jitter lqi random_val ≤ 64)
unfolding calculate_lqi_relay_jitter
jitter_bounds lqi random_val = omega arith

-- Of two links whose quality differs by 110 or more, the stronger one relays first, whatever the
-- two random parts are.
pub stronger_link_first :
    (strong weak r s : ℕ)
    → strong ≤ 255
    → weak + 110 ≤ strong
    → calculate_lqi_relay_jitter strong r < calculate_lqi_relay_jitter weak s
unfolding calculate_lqi_relay_jitter
stronger_link_first strong weak r s fits apart = omega arith
