-- ===== src/Host/Nonce/Ascending.antt =====
-- No epoch and counter are issued twice.
use gibberish.Prelude.{
  ℕ, suc, ◌+◌, ◌*◌, ◌^◌, ◌<◌, ◌≤◌, ◌≡◌, ◌⊎◌, inl, inr, none, some, List, [], ◌∷◌, arith, length,
  All, Option-cases, sym, subst,
}
use gibberish.Host.Nonce.{
  World, Event, start, allocate, disk_state, persist_block_reservation, first_manager, new, extend,
  issue, allocate_msg, step, issued, add_issued,
}

-- The lexicographic order on epochs and counters.
unfoldable pub AtMost : ℕ × ℕ → ℕ × ℕ → Type 0
AtMost p q = (p.0 < q.0) ⊎ ((p.0 ≡ q.0) × (p.1 ≤ q.1))

-- Each pair is strictly above the one before it, and the first is not below `low`.
unfoldable pub Ascending : ℕ × ℕ → List (ℕ × ℕ) → Type 0
unfolding AtMost
Ascending low [] = Unit
Ascending low (p ∷ ps) = AtMost low p × Ascending (p.0, p.1 + 1) ps

-- No pair that was issued before reaches this one.
unfoldable pub floor : World → ℕ × ℕ
floor w = elim w.running [
  | none ↦ ((disk_state w.disk).last_persisted_epoch + 1, 0)
  | some m ↦ (m.current_epoch, m.current_counter)
]

-- A world from which `n` more events overflow nothing: the epochs stay below 2^32 and the counters
-- below 2^64, `top` bounds the epoch, and a running manager has its epoch in the file.
unfoldable pub Fits : ℕ → ℕ → World → Type 0
Fits n top w =
    ((disk_state w.disk).last_persisted_epoch ≤ top)
    × (top + n < 2 ^ 32)
    × ((disk_state w.disk).next_allocated_block + 1000 * (n + 1) < 2 ^ 64)
    × (elim w.running [
      | none ↦ Unit
      | some m ↦
          ((disk_state w.disk).last_persisted_epoch ≡ m.current_epoch)
          × (m.current_counter ≤ m.block_limit)
          × (m.block_limit + 1000 * (n + 1) < 2 ^ 64)
    ])

-- The clock of a start is at most `top`.
unfoldable pub ClockFits : ℕ → Event → Type 0
ClockFits top (start written clock) = clock ≤ top
ClockFits top (allocate written) = Unit

step-Fits :
    (n top : ℕ) (w : World) (e : Event)
    → Fits (suc n) top w
    → ClockFits top e
    → Fits n (top + 1) (step w e).0
unfolding Fits ClockFits step new first_manager disk_state persist_block_reservation allocate_msg
    extend issue
step-Fits n top w (start written clock) f c = ground arith
step-Fits n top w (allocate written) f c = ground arith

step-floor :
    (n top : ℕ) (w : World) (e : Event)
    → Fits (suc n) top w
    → ClockFits top e
    → AtMost (floor w) (floor (step w e).0)
unfolding Fits ClockFits step new first_manager disk_state persist_block_reservation allocate_msg
    extend issue AtMost floor
step-floor n top w (start written clock) f c = ground arith
step-floor n top w (allocate written) f c = ground arith

step-issued :
    (n top : ℕ) (w : World) (e : Event) (p : ℕ × ℕ)
    → Fits (suc n) top w
    → (step w e).1 ≡ some p
    → AtMost (floor w) p × AtMost (p.0, p.1 + 1) (floor (step w e).0)
unfolding Fits step new allocate_msg extend issue AtMost floor
step-issued n top w (start written clock) p f h = ground arith
step-issued n top w (allocate written) p f h = ground arith

AtMost-trans : (p q r : ℕ × ℕ) → AtMost p q → AtMost q r → AtMost p r
unfolding AtMost
AtMost-trans p q r h k = ground arith

ClockFits-suc : (top : ℕ) (es : List Event) → All (ClockFits top) es → All (ClockFits (top + 1)) es
unfolding ClockFits
ClockFits-suc top [] c = tt
ClockFits-suc top (start written clock ∷ es) c = (omega arith, ClockFits-suc top es c.1)
ClockFits-suc top (allocate written ∷ es) c = (tt, ClockFits-suc top es c.1)

-- The pairs of epoch and counter that are issued in a run of starts and allocations are strictly
-- ascending, so none is issued twice: over restarts, with a clock that was set back, and whichever
-- writes of the state file fail. The run is short enough for the machine integers, from a world in
-- which a running manager has its epoch in the file.
pub issued-Ascending :
    (es : List Event) (top : ℕ) (w : World) (low : ℕ × ℕ)
    → Fits (length es) top w
    → All (ClockFits top) es
    → AtMost low (floor w)
    → Ascending low (issued w es)
unfolding issued Ascending
issued-Ascending [] top w low f c a = tt
issued-Ascending (e ∷ es) top w low f c a =
    let rest : (l : ℕ × ℕ) → AtMost l (floor (step w e).0) → Ascending l (issued (step w e).0 es) =
      λ l b.
        issued-Ascending es (top + 1) (step w e).0 l (step-Fits (length es) top w e f c.0)
          (ClockFits-suc top es c.1) b in
    elim (Option-cases (step w e).1) [
      | inl h ↦
          subst (λ o. Ascending low (add_issued o (issued (step w e).0 es))) (sym h)
            (rest low (
              AtMost-trans low (floor w) (floor (step w e).0) a
                (step-floor (length es) top w e f c.0)))
      | inr (p, h) ↦
          let fresh = step-issued (length es) top w e p f h in
          subst (λ o. Ascending low (add_issued o (issued (step w e).0 es))) (sym h)
            (AtMost-trans low (floor w) p a fresh.0, rest (p.0, p.1 + 1) fresh.1)
    ]
