-- ===== src/Host/Nonce/Reserved.antt =====
-- The reservation in the state file covers every counter that is issued.
use gibberish.Prelude.{ℕ, suc, ◌<◌, ◌≤◌, ◌≡◌, true, none, some, arith}
use gibberish.Host.Nonce.{
  World, Event, start, allocate, disk_state, persist_block_reservation, first_manager, new, extend,
  issue, allocate_msg, step,
}
use gibberish.Host.Nonce.Ascending.{Fits}

-- A running manager's block is the one that the file reserves.
unfoldable pub Reserved : World → Type 0
Reserved w = elim w.running [
  | none ↦ Unit
  | some m ↦
      ((disk_state w.disk).next_allocated_block ≡ m.block_limit)
      × (m.current_counter ≤ m.block_limit)
]

-- The writes of allocations succeed.
unfoldable pub Written : Event → Type 0
Written (start written clock) = Unit
Written (allocate written) = written ≡ true

-- The first counter that the world can still issue, in this process or after a restart.
unfoldable pub next_counter : World → ℕ
next_counter w = elim w.running [
  | none ↦ (disk_state w.disk).next_allocated_block
  | some m ↦ m.current_counter
]

-- When the writes of allocations succeed, the file reserves a running manager's whole block after
-- every start and every allocation, and the first counter that can still be issued never goes down,
-- over restarts too. The event overflows nothing.
pub step-Reserved :
    (n top : ℕ) (w : World) (e : Event)
    → Fits (suc n) top w
    → Reserved w
    → Written e
    → Reserved (step w e).0 × (next_counter w ≤ next_counter (step w e).0)
unfolding Fits Reserved Written next_counter step new first_manager disk_state
    persist_block_reservation allocate_msg extend issue
step-Reserved n top w (start written clock) f r h = (ground arith, ground arith)
step-Reserved n top w (allocate written) f r h = (ground arith, ground arith)

-- A counter that is issued is the first that could be, it is below what the file reserves by then,
-- and everything issued later is above it, after a restart too, when the writes of allocations
-- succeed and the event overflows nothing.
pub issued-Reserved :
    (n top : ℕ) (w : World) (e : Event) (p : ℕ × ℕ)
    → Fits (suc n) top w
    → Reserved w
    → Written e
    → (step w e).1 ≡ some p
    → (p.1 ≡ next_counter w)
      × (p.1 < (disk_state (step w e).0.disk).next_allocated_block)
      × (p.1 < next_counter (step w e).0)
unfolding Fits Reserved Written next_counter step new first_manager disk_state
    persist_block_reservation allocate_msg extend issue
issued-Reserved n top w (start written clock) p f r h i = ground arith
issued-Reserved n top w (allocate written) p f r h i = ground arith
