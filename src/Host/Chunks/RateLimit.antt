-- ===== src/Host/Chunks/RateLimit.antt =====
-- The rate limit of SACKs, over any number of checks.
use gibberish.Prelude.{
  ℕ, ◌+◌, ◌-◌, ◌≤◌, ◌≡◌, refl, Bool, true, false, not, ltb, ◌<◌, Option, none, some, List, [], ◌∷◌,
  length, All, arith, Bool-cases, inl, inr,
}
use gibberish.Host.Chunks.Engine.{
  InFlightMessage, Key, within, max_sack_retries, sack_retry_interval, sack_initial_delay,
}
use gibberish.Host.Chunks.Sacks.{sack_due, check_message}

-- Each time is at least the retry interval after the one before, the first after `last`.
abbrev pub After : Option ℕ → ℕ → Type 0
After none t = Unit
After (some s) t = s + sack_retry_interval ≤ t

abbrev pub Spaced : Option ℕ → List ℕ → Type 0
Spaced last [] = Unit
Spaced last (t ∷ ts) = After last t × Spaced (some t) ts

sack_due_lem :
    (now : ℕ) (m : InFlightMessage)
    → sack_due now m ≡ true
    → After m.last_sack_sent now
      × (m.last_received + sack_initial_delay ≤ now)
      × (m.sack_count < max_sack_retries)
unfolding sack_due within
sack_due_lem now m d = (after m.last_sack_sent (ground arith), ground arith, ground arith)
  where
    after :
        (last : Option ℕ)
        → elim last as (λ _. Bool) [
          | none ↦ true
          | some t ↦ not (ltb (now - t) sack_retry_interval)
        ]
          ≡ true
        → After last now
    after none h = tt
    after (some t) h = ground arith

module _ (local_node_id swarm_tag : ℕ) where
  -- The times, among those of some checks, at which a SACK is sent for a message.
  unfoldable pub sent_times : Key → List ℕ → InFlightMessage → List ℕ
  sent_times key [] m = []
  sent_times key (now ∷ times) m =
      let checked = check_message now local_node_id swarm_tag key m in
      let later = sent_times key times checked.0 in
      elim checked.1 [ none ↦ later | some p ↦ now ∷ later ]

  sent_times-due :
      (key : Key) (now : ℕ) (times : List ℕ) (m : InFlightMessage)
      → sack_due now m ≡ true
      → sent_times key (now ∷ times) m
        ≡ now
          ∷ sent_times key times
              (record m { last_sack_sent = some now; sack_count = m.sack_count + 1 })
  unfolding sent_times check_message
  sent_times-due key now times m d = rw (sent_times, d) (rw d refl)

  sent_times-idle :
      (key : Key) (now : ℕ) (times : List ℕ) (m : InFlightMessage)
      → sack_due now m ≡ false
      → sent_times key (now ∷ times) m ≡ sent_times key times m
  unfolding sent_times check_message
  sent_times-idle key now times m d = rw (sent_times, d) (rw d refl)

  -- However often and whenever the engine checks: the SACKs for a message are at least 500 ms apart, also
  -- from the last one that was sent or overheard before; none is sent earlier than 300 ms after the last
  -- chunk; and with those sent before they are at most three.
  pub sent_times-Spaced :
      (key : Key) (times : List ℕ) (m : InFlightMessage)
      → Spaced m.last_sack_sent (sent_times key times m)
        × All (λ t. m.last_received + sack_initial_delay ≤ t) (sent_times key times m)
        × (length (sent_times key times m) ≤ max_sack_retries - m.sack_count)
  unfolding sent_times
  sent_times-Spaced key [] m = (tt, tt, omega arith)
  sent_times-Spaced key (now ∷ times) m = elim (Bool-cases (sack_due now m)) [
    | inl d ↦
        let m' = record m { last_sack_sent = some now; sack_count = m.sack_count + 1 } in
        let (s, a, n) = sent_times-Spaced key times m' in
        let (after, late, few) = sack_due_lem now m d in
        rw (sent_times-due key now times m d) ((after, s), (late, a), omega (arith, n, few))
    | inr d ↦ rw (sent_times-idle key now times m d) (sent_times-Spaced key times m)
  ]
